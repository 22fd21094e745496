-- ===== src/Agents/Orchestrator/Tests.antt =====
-- The theorems on the orchestrator at concrete inputs.
use ufoundry.Base.{◌≤◌, ◌<◌, ◌+◌, inl, none, some, [], ◌∷◌, codes, All}
use ufoundry.Agents.Agent.{LlmResponse}
use ufoundry.Agents.Orchestrator.{
  OrchestratorArgs, Orchestrator, Callbacks, OrchestratorRun, approves, orchestrate,
}
use ufoundry.Agents.Orchestrator.Grants.{IsGranted, orchestrate-IsGranted}

abbrev no_args : OrchestratorArgs
no_args = record {
  role = none;
  objective = none;
  system_prompt = none;
  tools = codes "web.get" ∷ codes "shell.run" ∷ [];
  context = none;
  workspace = none;
  message = none;
  reason = some (codes "it sends mail");
  action_summary = none;
}

abbrev planner : Orchestrator Unit Unit Unit
planner = record {
  tool_registry = [];
  available_tool_names = codes "web.get" ∷ [];
  max_orchestrator_iterations = 2;
  max_agent_iterations = 15;
  role_max_iterations = [];
  workspaces = [];
  home = codes "/home/u";
}

abbrev spawning : LlmResponse OrchestratorArgs
spawning = record {
  content = none;
  tool_calls = record { name = codes "spawn_agent"; arguments = no_args; id = none } ∷ [];
}

abbrev callbacks : Callbacks Unit Unit Unit
callbacks = record {
  generate = λ n messages with_tools. some spawning;
  dumps = λ args. codes "{}";
  run_agent = λ n agent. inl (codes "no network");
  request_approval_callback = some (λ n reason summary. approves);
}

orchestrate-IsGranted_example :
    All
      (IsGranted planner callbacks)
      (orchestrate planner callbacks (codes "plan") (codes "look it up") []).1.spawned
    × (0 < (orchestrate planner callbacks (codes "plan") (codes "look it up") []).1.model_calls)
    × ((orchestrate planner callbacks (codes "plan") (codes "look it up") []).1.model_calls ≤ 2 + 1)
orchestrate-IsGranted_example =
    orchestrate-IsGranted planner callbacks (codes "plan") (codes "look it up") []

abbrev started : OrchestratorRun Unit Unit Unit
started = record {
  messages = [];
  attachments = [];
  spawned = [];
  updates = [];
  requests = 0;
  model_calls = 1;
}
