-- ===== src/Agents/Agent/Calls.antt =====
-- ufoundry/agents/agent.py: what the tool calls of a response do to a run.
use ufoundry.Base.{
  ◌+◌, ◌≤◌, ◌≡◌, refl, sym, ap, ◌∙◌, ◌≢◌, ◌⊎◌, inl, inr, Option, none, some, List, [], ◌∷◌, ◌++◌,
  Text, codes, All, length, map, append_assoc, append-nil, arith,
}
use ufoundry.Agents.Trim.{Message}
use ufoundry.Tools.Registry.{Tool, get}
use ufoundry.Agents.Agent.{
  ToolCall, ToolResult, Handler, Agent, Outside, Run, given_id, call_handler, execute_tool,
  tool_message, execute_calls,
}

module _ {A F S : Type 0} (outside : Outside A F S) (agent : Agent A F S) where
  -- What a tool call does to the run: its messages stay, the model is not called, and a handler is
  -- called at most once, and only for a registered tool that the guard lets pass.
  pub record IsCall (name : Text) (arguments : A) (s t : Run F) : Type 0 where
    pub messages : t.messages ≡ s.messages
    pub model_calls : t.model_calls ≡ s.model_calls
    pub guard_calls : t.guard_calls ≡ s.guard_calls + 1
    pub handler_calls :
        (t.handler_calls ≡ s.handler_calls)
        ⊎ ((t.handler_calls ≡ s.handler_calls + 1)
            × (outside.guard s.guard_calls name arguments ≡ none)
            × (get agent.tools name ≢ none))

  call_handler-IsCall :
      (name : Text) (arguments : A) (tool : Tool S (Handler A F)) (s t : Run F)
      → outside.guard s.guard_calls name arguments ≡ none
      → get agent.tools name ≡ some tool
      → t.messages ≡ s.messages
      → t.model_calls ≡ s.model_calls
      → t.guard_calls ≡ s.guard_calls + 1
      → t.handler_calls ≡ s.handler_calls
      → IsCall name arguments s (call_handler outside agent name arguments tool t).1
  unfolding call_handler
  call_handler-IsCall name arguments tool s t g found ms mc gc hc =
      by_result (tool.handler t.handler_calls arguments) refl
    where
      known : get agent.tools name ≢ none
      known h = cc (found, h)

      by_result :
          (r : Text ⊎ ToolResult F)
          → tool.handler t.handler_calls arguments ≡ r
          → IsCall name arguments s (call_handler outside agent name arguments tool t).1
      by_result (inl exc) e =
          rw (e, call_handler)
            (record {
              messages = ms;
              model_calls = mc;
              guard_calls = gc;
              handler_calls = inr (ap (λ n. n + 1) hc, g, known);
            })
      by_result (inr result) e =
          rw (e, call_handler)
            (record {
              messages = ms;
              model_calls = mc;
              guard_calls = gc;
              handler_calls = inr (ap (λ n. n + 1) hc, g, known);
            })

  -- A tool call leaves the messages and the count of the model's calls as they are, asks the guard
  -- once, and calls at most one handler, that only where the guard does not block and the tool is
  -- registered.
  pub execute_tool-IsCall :
      (name : Text) (arguments : A) (s : Run F)
      → IsCall name arguments s (execute_tool outside agent name arguments s).1
  unfolding execute_tool
  execute_tool-IsCall name arguments s = by_guard (outside.guard s.guard_calls name arguments) refl
    where
      by_tool :
          (o : Option (Tool S (Handler A F)))
          → outside.guard s.guard_calls name arguments ≡ none
          → get agent.tools name ≡ o
          → IsCall name arguments s (execute_tool outside agent name arguments s).1
      by_tool none g e =
          rw (g, execute_tool)
            (rw e (record {
              messages = refl;
              model_calls = refl;
              guard_calls = refl;
              handler_calls = inl refl;
            }))
      by_tool (some tool) g e =
          rw (g, execute_tool)
            (rw e (call_handler-IsCall name arguments tool s _ g e refl refl refl refl))

      by_guard :
          (o : Option Text)
          → outside.guard s.guard_calls name arguments ≡ o
          → IsCall name arguments s (execute_tool outside agent name arguments s).1
      by_guard (some exc) e =
          rw (e, execute_tool)
            (record {
              messages = refl;
              model_calls = refl;
              guard_calls = refl;
              handler_calls = inl refl;
            })
      by_guard none e = by_tool (get agent.tools name) e refl

  -- What a message of a tool says of the call that it answers.
  abbrev pub answers : Message → Option Text × Option Text
  answers m = (m.name, m.tool_call_id)

  abbrev pub asked : ToolCall A → Option Text × Option Text
  asked call = (some call.name, given_id call.id)

  -- The calls of a response are answered: one message of a tool each, in their order.
  pub record IsAnswered (calls : List (ToolCall A)) (s t : Run F) : Type 0 where
    pub added : List Message
    pub messages : t.messages ≡ s.messages ++ added
    pub of_tools : All (λ m. m.role ≡ codes "tool") added
    pub in_order : map answers added ≡ map asked calls
    pub model_calls : t.model_calls ≡ s.model_calls
    pub guarded : t.guard_calls ≡ s.guard_calls + length calls
    pub handlers : t.handler_calls ≤ s.handler_calls + length calls

  -- After the calls of a response the conversation goes on with one message of a tool for each of
  -- them, in their order, with the call's name and id. The guard was asked once for each.
  pub execute_calls-IsAnswered :
      (calls : List (ToolCall A)) (s : Run F)
      → IsAnswered calls s (execute_calls outside agent calls s)
  unfolding execute_calls tool_message
  execute_calls-IsAnswered [] s = record {
    added = [];
    messages = sym (append-nil s.messages);
    of_tools = tt;
    in_order = refl;
    model_calls = refl;
    guarded = omega arith;
    handlers = omega arith;
  }
  execute_calls-IsAnswered (call ∷ calls) s =
      let first = execute_tool outside agent call.name call.arguments s in
      let message = tool_message outside agent call first.0 in
      let one = execute_tool-IsCall call.name call.arguments s in
      let s1 = record first.1 {
        attachments = first.1.attachments ++ first.0.attachments;
        messages = first.1.messages ++ (message ∷ []);
      } in
      let rest = execute_calls-IsAnswered calls s1 in
      record {
        added = message ∷ rest.added;
        messages =
            rest.messages
            ∙ (ap (λ ms. (ms ++ (message ∷ [])) ++ rest.added) one.messages
                ∙ append_assoc s.messages (message ∷ []) rest.added);
        of_tools = (refl, rest.of_tools);
        in_order = cc rest.in_order;
        model_calls = rest.model_calls ∙ one.model_calls;
        guarded = omega (arith, rest.guarded, one.guard_calls);
        handlers = elim one.handler_calls [
          | inl e ↦ omega (arith, rest.handlers, e)
          | inr e ↦ omega (arith, rest.handlers, e.0)
        ];
      }
