-- ===== src/Agents/Agent.antt =====
-- ufoundry/agents/agent.py: `SpawnedAgent.run`, the tool loop of one agent, with `_execute_tool`,
-- `_assistant_message`, `_inject_date` and `_build_tools_spec`. The types are the arguments of a call `A`,
-- an attachment `F` and a schema `S`. The model, the guard `on_tool_call` and the handlers are
-- arguments; each gets the number of its calls so far, so an answer may differ from call to call.
-- The payloads of the events are left out: nothing of the run depends on them.
pub mod Calls
pub mod Length
pub mod Untrimmed
use ufoundry.Base.{
  ℕ, zero, suc, ◌+◌, ◌-◌, ◌⊎◌, inl, inr, Bool, true, false, Option, none, some, List, [], ◌∷◌, ◌++◌,
  Text, codes, if◌then◌else◌, or_text, is_infix, is_empty, decimal, map,
}
use ufoundry.Agents.Trim.{Message, CallNote, trim_messages}
use ufoundry.Tools.Registry.{Tool, ToolRegistry, get}

pub record ToolCall (A : Type 0) : Type 0 where
  pub name : Text
  pub arguments : A
  pub id : Option Text

pub record LlmResponse (A : Type 0) : Type 0 where
  pub content : Option Text
  pub tool_calls : List (ToolCall A)

pub record ToolResult (F : Type 0) : Type 0 where
  pub content : Text
  pub attachments : List F

pub record AgentRunResult (F : Type 0) : Type 0 where
  pub content : Text
  pub attachments : List F
  pub truncated : Bool
  pub failed : Bool

pub record ToolSpec (S : Type 0) : Type 0 where
  pub name : Text
  pub description : Text
  pub parameters : S

-- An event for `on_event`; an exception of the callback is swallowed.
pub data Event : Type 0 where
  node_status : Text → Event
  node_log : Text → Text → Event

-- A handler: the message of the exception that it raises, or its result.
abbrev pub Handler : Type 0 → Type 0 → Type 0
Handler A F = ℕ → A → Text ⊎ ToolResult F

-- The fields of a SpawnedAgent that its run reads.
pub record Agent (A F S : Type 0) : Type 0 where
  pub role : Text
  pub objective : Text
  pub system_prompt : Text
  pub tool_names : List Text
  pub context : Text
  pub tools : ToolRegistry S (Handler A F)
  pub max_iterations : ℕ

-- What the agent calls: `generate` is none where it raises, `guard` gives the text of the exception
-- with which it blocks. `date_block` is the block for the current time.
pub record Outside (A F S : Type 0) : Type 0 where
  pub generate : ℕ → List Message → List (ToolSpec S) → Option (LlmResponse A)
  pub guard : ℕ → Text → A → Option Text
  pub dumps : A → Text
  pub repr : Text → Text
  pub compress : Text → Text
  pub date_block : Text

-- The run so far, with the numbers of calls of the model, of the guard and of the handlers.
pub record Run (F : Type 0) : Type 0 where
  pub messages : List Message
  pub attachments : List F
  pub events : List Event
  pub model_calls : ℕ
  pub guard_calls : ℕ
  pub handler_calls : ℕ

abbrev pub content_of : Option Text → Text
content_of none = []
content_of (some content) = content

-- `if tool_call.id`: an empty id counts as none.
abbrev pub given_id : Option Text → Option Text
given_id none = none
given_id (some []) = none
given_id (some (c ∷ id)) = some (c ∷ id)

pub inject_date : Text → Text → Text
inject_date date_block system_prompt =
    if is_infix (codes "Current date/time:") system_prompt
    then system_prompt
    else date_block ++ system_prompt

abbrev pub plain : Text → Text → Message
plain role content = record {
  role = role;
  content = content;
  name = none;
  tool_call_id = none;
  tool_calls = none;
}

abbrev pub emit : {F : Type 0} → Event → Run F → Run F
emit e s = record s { events = s.events ++ (e ∷ []) }

-- `dumps` is `json.dumps`.
module _ {A : Type 0} (dumps : A → Text) where
  -- The calls that have an id, which is not the empty text.
  pub notes : List (ToolCall A) → List CallNote
  notes [] = []
  notes (call ∷ calls) = elim call.id [
    | none ↦ notes calls
    | some id ↦
        let rest = notes calls in
        if is_empty id
        then rest
        else record { id = id; name = call.name; arguments = dumps call.arguments } ∷ rest
  ]

  pub assistant_message : LlmResponse A → Message
  assistant_message response = record (plain (codes "assistant") (content_of response.content)) {
    tool_calls = elim response.tool_calls [ [] ↦ none | c ∷ cs ↦ some (notes (c ∷ cs)) ];
  }

module _ {A F S : Type 0} (outside : Outside A F S) where
  module _ (agent : Agent A F S) where
    -- The specifications of the named tools that are registered.
    pub tools_spec : List Text → List (ToolSpec S)
    tools_spec [] = []
    tools_spec (name ∷ names) = elim (get agent.tools name) [
      | none ↦ tools_spec names
      | some tool ↦
          record {
            name = tool.name;
            description = content_of tool.description;
            parameters = tool.schema;
          }
          ∷ tools_spec names
    ]

    -- The handler's result, or what stands for its exception.
    pub call_handler : Text → A → Tool S (Handler A F) → Run F → ToolResult F × Run F
    call_handler name arguments tool s =
        let s1 = record s { handler_calls = s.handler_calls + 1 } in
        elim (tool.handler s.handler_calls arguments) [
          | inr result ↦ (
            result,
            emit
                (node_log (codes "agent.tool.result")
                  (codes "Tool " ++ (name ++ codes " returned")))
                s1,
          )
          | inl exc ↦
              let text = codes "Tool '" ++ (name ++ (codes "' failed: " ++ exc)) in
              (
                record { content = text; attachments = [] },
                emit (node_log (codes "agent.tool.error") text) s1,
              )
        ]

    pub execute_tool : Text → A → Run F → ToolResult F × Run F
    execute_tool name arguments s =
        let s1 =
          record (emit (node_log (codes "agent.tool.call") (codes "Calling tool " ++ name)) s) {
            guard_calls = s.guard_calls + 1;
          } in
        elim (outside.guard s.guard_calls name arguments) [
          | some exc ↦ (record { content = codes "Tool blocked: " ++ exc; attachments = [] }, s1)
          | none ↦ elim (get agent.tools name) [
            | none ↦ (
              record {
                content = codes "Tool '" ++ (name ++ codes "' not found.");
                attachments = [];
              },
              emit
                  (node_log (codes "agent.tool.missing")
                    (codes "Tool '" ++ (name ++ codes "' not found")))
                  s1,
            )
            | some tool ↦ call_handler name arguments tool s1
          ]
        ]

    -- The message that holds the result of a call.
    pub tool_message : ToolCall A → ToolResult F → Message
    tool_message call result = record (plain (codes "tool") (outside.compress result.content)) {
      name = some call.name;
      tool_call_id = given_id call.id;
    }

    -- The loop over the calls of a response.
    pub execute_calls : List (ToolCall A) → Run F → Run F
    unfolding execute_tool tool_message
    execute_calls [] s = s
    execute_calls (call ∷ calls) s =
        let (result, s1) = execute_tool call.name call.arguments s in
        execute_calls calls (record s1 {
          attachments = s1.attachments ++ result.attachments;
          messages = s1.messages ++ (tool_message call result ∷ []);
        })

    -- The answer without tools when the iterations are used up.
    pub force_final : Run F → Option (AgentRunResult F × Run F)
    force_final s =
        let s1 =
          emit
            (node_log (codes "agent.truncated") (
              agent.role
              ++ (codes " reached max iterations ("
                  ++ (decimal agent.max_iterations ++ codes ") — work may be incomplete"))))
            (emit (node_status (codes "truncated")) s) in
        let note =
          codes "\n\n[AGENT_TRUNCATED: role="
          ++ (outside.repr agent.role
              ++ (codes " hit max_iterations="
                  ++ (decimal agent.max_iterations
                      ++ codes
                          ". Work may be incomplete. Orchestrator should retry or extend the budget.]"))) in
        let missing =
          codes "["
          ++ (agent.role ++ codes "] reached iteration limit without completing the objective.") in
        elim (outside.generate s1.model_calls s1.messages []) [
          | none ↦ none
          | some final ↦ some (
            record {
              content = or_text (content_of final.content) missing ++ note;
              attachments = s1.attachments;
              truncated = true;
              failed = false;
            },
            record s1 { model_calls = s1.model_calls + 1 },
          )
        ]

    -- A response without calls ends the run.
    pub complete : LlmResponse A → Run F → AgentRunResult F × Run F
    complete response s = (
      record {
        content = content_of response.content;
        attachments = s.attachments;
        truncated = false;
        failed = false;
      },
      emit (node_log (codes "agent.completed") (agent.role ++ codes " completed"))
          (emit (node_status (codes "completed")) s),
    )

    -- The log of an iteration's beginning.
    abbrev pub numbered : ℕ → Run F → Run F
    numbered iteration s =
        emit
          (node_log (codes "agent.iteration")
            (codes "Iteration " ++ (decimal (iteration + 1) ++ codes " running")))
          s

    -- A response of the model joins the messages.
    abbrev pub heard : LlmResponse A → Run F → Run F
    heard response s = record s {
      model_calls = s.model_calls + 1;
      messages = s.messages ++ (assistant_message outside.dumps response ∷ []);
    }

    -- The iterations from the one numbered `iteration`, `left` of them; `view` is what the model
    -- gets of the messages. None: the model raised, which ends the run with that exception.
    pub iterate : (List Message → List Message) → ℕ → ℕ → Run F → Option (AgentRunResult F × Run F)
    unfolding force_final complete execute_calls assistant_message tools_spec
    iterate view zero iteration s = force_final s
    iterate view (suc left) iteration s =
        let s1 = numbered iteration s in
        elim (outside.generate s1.model_calls (view s1.messages) (tools_spec agent.tool_names)) [
          | none ↦ none
          | some response ↦
              let s2 = heard response s1 in
              elim response.tool_calls [
                | [] ↦ some (complete response s2)
                | call ∷ calls ↦ iterate view left (iteration + 1) (execute_calls (call ∷ calls) s2)
              ]
        ]

    -- The two messages that a run begins with.
    pub opening : List Message
    unfolding inject_date
    opening =
        let context =
          if is_empty agent.context then [] else codes "\n\nContext:\n" ++ agent.context in
        plain (codes "system") (inject_date outside.date_block agent.system_prompt)
        ∷ plain (codes "user") (codes "Objective: " ++ (agent.objective ++ context))
        ∷ []

    pub started : Run F
    unfolding opening
    started = emit (node_log (codes "agent.started") (agent.role ++ codes " started")) (
        emit (node_status (codes "running")) (record {
          messages = opening;
          attachments = [];
          events = [];
          model_calls = 0;
          guard_calls = 0;
          handler_calls = 0;
        }))

    pub run : Option (AgentRunResult F × Run F)
    unfolding iterate started
    run = iterate (λ messages. trim_messages messages 2 6) agent.max_iterations 0 started

    -- The same run when the model gets the whole conversation at each iteration.
    pub run_untrimmed : Option (AgentRunResult F × Run F)
    unfolding iterate started
    run_untrimmed = iterate (λ messages. messages) agent.max_iterations 0 started
