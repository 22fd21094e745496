-- ===== src/Agents/Orchestrator.antt =====
-- ufoundry/agents/orchestrator.py, DynamicOrchestrator: the loop of the model that plans, and its
-- three tools. The run of an agent that it spawns is an argument (Agents/Agent models it), as are
-- the model, the callbacks and the text of the system prompt; each gets the number of its calls so
-- far. Events and logging are left out: nothing of the run depends on them. The types are the
-- arguments of an agent's tool call `A`, an attachment `F` and a schema `S`.
pub mod Grants
mod Tests
use ufoundry.Base.{
  ℕ, zero, suc, ◌+◌, ◌-◌, Bool, true, false, ◌||◌, ◌==◌, Option, none, some, List, [], ◌∷◌, ◌++◌,
  map, Text, codes, text_eq, if◌then◌else◌, is_empty, contains, filter, drop, length, decimal,
  strip, Dict, lookup, ◌⊎◌, inl, inr,
}
use ufoundry.Agents.Trim.{Message}
use ufoundry.Agents.Agent.{
  ToolCall, LlmResponse, AgentRunResult, Agent, Handler, plain, content_of, given_id,
  assistant_message,
}
use ufoundry.Tools.Registry.{ToolRegistry}
use ufoundry.Tools.Workspace.{WorkspaceConfig, resolve_workspace}

-- The arguments of a call: the `str` of each value that is given.
pub record OrchestratorArgs : Type 0 where
  pub role : Option Text
  pub objective : Option Text
  pub system_prompt : Option Text
  pub tools : List Text
  pub context : Option Text
  pub workspace : Option Text
  pub message : Option Text
  pub reason : Option Text
  pub action_summary : Option Text

abbrev pub given_or : Option Text → Text → Text
given_or none default = default
given_or (some s) default = s

-- How the user answers a request for approval; the callback may raise.
pub data Approval : Type 0 where
  approves rejects approval_raises : Approval

-- The fields of a DynamicOrchestrator that its run reads. `home` is the home directory.
pub record Orchestrator (A F S : Type 0) : Type 0 where
  pub tool_registry : ToolRegistry S (Handler A F)
  pub available_tool_names : List Text
  pub max_orchestrator_iterations : ℕ
  pub max_agent_iterations : ℕ
  pub role_max_iterations : Dict Text ℕ
  pub workspaces : List WorkspaceConfig
  pub home : Text

-- What it calls: `generate` is none where it raises; it is asked with or without tools. `dumps` is
-- `json.dumps`.
pub record Callbacks (A F S : Type 0) : Type 0 where
  pub generate : ℕ → List Message → Bool → Option (LlmResponse OrchestratorArgs)
  pub dumps : OrchestratorArgs → Text
  pub run_agent : ℕ → Agent A F S → Text ⊎ AgentRunResult F
  pub request_approval_callback : Option (ℕ → Text → Text → Approval)

pub record OrchestratorRun (A F S : Type 0) : Type 0 where
  pub messages : List Message
  pub attachments : List F
  pub spawned : List (Agent A F S)
  pub updates : List Text
  pub requests : ℕ
  pub model_calls : ℕ

-- The text that the run returns, or an exception of the model.
pub data Outcome : Type 0 where
  replied : Text → Outcome
  model_raised : Outcome

-- self.role_max_iterations.get(role) or self.max_agent_iterations
abbrev pub or_limit : Option ℕ → ℕ → ℕ
or_limit none default = default
or_limit (some zero) default = default
or_limit (some (suc n)) default = suc n

module _ {A F S : Type 0} (o : Orchestrator A F S) (c : Callbacks A F S) where
  abbrev State : Type 0
  State = OrchestratorRun A F S

  pub workspace_note : WorkspaceConfig → Text
  workspace_note ws =
      10
      ∷ 10
      ∷ (codes "Active workspace: "
          ++ (ws.name
              ++ (codes " ("
                  ++ (ws.path
                      ++ (codes ")"
                          ++ (10
                              ∷ (codes "Relative file paths are resolved against this directory."
                                  ++ (10 ∷ codes "shell.run cwd defaults to this path."))))))))

  -- The agent that a call of `spawn_agent` makes: tools that are not available are left out.
  pub new_agent : OrchestratorArgs → Agent A F S
  unfolding workspace_note
  new_agent args =
      let role = given_or args.role (codes "Agent") in
      let ws = resolve_workspace o.home (strip (given_or args.workspace [])) o.workspaces in
      record {
        role = role;
        objective = given_or args.objective [];
        system_prompt =
            given_or args.system_prompt
              (codes "You are a " ++ (role ++ codes ". Complete the objective precisely."))
            ++ workspace_note ws;
        tool_names = filter (contains o.available_tool_names) args.tools;
        context = given_or args.context [];
        tools = o.tool_registry;
        max_iterations = or_limit (lookup role o.role_max_iterations) o.max_agent_iterations;
      }

  abbrev pub bracketed : Text → Text → Text
  bracketed role rest = codes "[" ++ (role ++ rest)

  pub agent_result : Text → Text ⊎ AgentRunResult F → Text × List F
  agent_result role (inl e) = (bracketed role (codes " failed]: " ++ e), [])
  agent_result role (inr result) =
      (bracketed role (codes " result]" ++ (10 ∷ result.content)), result.attachments)

  pub spawn_agent : OrchestratorArgs → State → Text × State
  unfolding new_agent agent_result
  spawn_agent args s =
      let agent = new_agent args in
      let given = agent_result agent.role (c.run_agent (length s.spawned) agent) in
      (
        given.0,
        record s { attachments = s.attachments ++ given.1; spawned = s.spawned ++ agent ∷ [] },
      )

  -- An exception of the callback is logged; nothing depends on it.
  pub send_update : OrchestratorArgs → State → Text × State
  send_update args s =
      let message = given_or args.message [] in
      (
        codes "Update sent.",
        if is_empty message then s else record s { updates = s.updates ++ message ∷ [] },
      )

  pub approval_text : Approval → Text
  approval_text approves = codes "approved"
  approval_text rejects = codes "denied — do not proceed with this action"
  approval_text approval_raises = codes "approval request failed — treat as denied"

  pub request_approval : OrchestratorArgs → State → Text × State
  unfolding approval_text
  request_approval args s = elim c.request_approval_callback [
    | none ↦ (codes "denied — approval callback not configured", s)
    | some ask ↦ (
      approval_text (ask s.requests (given_or args.reason []) (given_or args.action_summary [])),
      record s { requests = s.requests + 1 },
    )
  ]

  pub handle_orchestrator_tool : ToolCall OrchestratorArgs → State → Text × State
  unfolding spawn_agent send_update request_approval
  handle_orchestrator_tool call s =
      if call.name == codes "spawn_agent"
      then spawn_agent call.arguments s
      else if call.name == codes "send_update"
      then send_update call.arguments s
      else if call.name == codes "request_approval"
      then request_approval call.arguments s
      else (codes "Unknown orchestrator tool: " ++ call.name, s)

  abbrev pub answer_message : ToolCall OrchestratorArgs → Text → Message
  answer_message call content = record (plain (codes "tool") content) {
    name = some call.name;
    tool_call_id = given_id call.id;
  }

  abbrev pub add_message : Message → State → State
  add_message message s = record s { messages = s.messages ++ message ∷ [] }

  -- The loop over the calls of one response.
  pub handle_calls : List (ToolCall OrchestratorArgs) → State → State
  unfolding handle_orchestrator_tool
  handle_calls [] s = s
  handle_calls (call ∷ calls) s =
      let handled = handle_orchestrator_tool call s in
      handle_calls calls (add_message (answer_message call handled.0) handled.1)

  abbrev pub ask_model : Bool → State → Option (LlmResponse OrchestratorArgs) × State
  ask_model with_tools s =
      (c.generate s.model_calls s.messages with_tools, record s { model_calls = s.model_calls + 1 })

  -- The iterations are used up: one more call, without tools.
  pub finish : State → Outcome × State
  finish s =
      let asked = ask_model false s in
      (
        elim asked.0 [
          | none ↦ model_raised
          | some response ↦ replied (elim (content_of response.content) [
            | [] ↦ codes "Orchestrator reached iteration limit without completing the task."
            | first ∷ rest ↦ first ∷ rest
          ])
        ],
        asked.1,
      )

  -- The main loop, by recursion on the iterations that are left.
  pub loop : ℕ → State → Outcome × State
  unfolding finish handle_calls
  loop zero s = finish s
  loop (suc left) s = elim (ask_model true s).0 [
    | none ↦ (model_raised, (ask_model true s).1)
    | some response ↦ elim response.tool_calls [
      | [] ↦ (
        replied (content_of response.content),
        add_message (assistant_message c.dumps response) (ask_model true s).1,
      )
      | call ∷ calls ↦ loop left (
          handle_calls (call ∷ calls)
            (add_message (assistant_message c.dumps response) (ask_model true s).1))
    ]
  ]

  -- The last ten messages of the history that are the user's or the assistant's.
  pub recent_history : List Message → List Message
  recent_history history =
      map (λ (m : Message). plain m.role m.content)
        (filter (λ (m : Message). m.role == codes "user" || m.role == codes "assistant")
          (drop (length history - 10) history))

  pub orchestrate : Text → Text → List Message → Outcome × State
  unfolding loop recent_history
  orchestrate system_prompt task history = loop o.max_orchestrator_iterations (record {
    messages =
        (plain (codes "system") system_prompt ∷ recent_history history)
        ++ plain (codes "user") task ∷ [];
    attachments = [];
    spawned = [];
    updates = [];
    requests = 0;
    model_calls = 0;
  })
