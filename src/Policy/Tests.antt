-- ===== src/Policy/Tests.antt =====
-- The theorems on rules and confirmations at concrete inputs.
use ufoundry.Base.{
  ℕ, ◌≡◌, ◌⊎◌, true, false, Option, none, some, List, [], ◌∷◌, Text, codes, text_eq, pair_eq, pos,
  All,
}
use ufoundry.Tools.Registry.{Tool, ToolRegistry, risk_red}
use ufoundry.Policy.Rules.{RuleContext, CompiledRule, decide_tool, no_tool_decision}
use ufoundry.Policy.Rules.Compile.{RuleConfig, compile_rules}
use ufoundry.Policy.Rules.Decisions.{fires, Decides, decide_tool_least}
use ufoundry.Policy.Engine.{ToolCall, Origin, Pending, refused, evaluate}
use ufoundry.Policy.Engine.Verdicts

abbrev deny_shell : RuleConfig
deny_shell = record {
  id = codes "no-shell";
  enabled = true;
  priority = pos 5;
  description = [];
  match_config = some (record {
    connectors = codes "telegram" ∷ [];
    connector_roles = [];
    channels = [];
    directions = [];
    kinds = [];
    tools = codes "shell*" ∷ [];
    importance = [];
    actions = [];
    needs_admin = none;
    admin_explicit = none;
  });
  apply_config = some (record {
    tool = codes "deny";
    ingest_to_llm = none;
    set_importance = [];
    set_action = [];
    set_needs_admin = none;
    reason = codes "not here";
  });
}

abbrev context : RuleContext
context = record {
  connector = codes "telegram";
  source_connector = [];
  connector_role = [];
  channel = [];
  direction = [];
  kind = [];
  action = [];
  importance = [];
  needs_admin = none;
  admin_explicit = none;
}

abbrev raw_rules : List RuleConfig
raw_rules = deny_shell ∷ record deny_shell { priority = pos 2 } ∷ []

decide_tool_least_example :
    (decide_tool (compile_rules raw_rules) (codes "shell.run") context ≡ no_tool_decision)
      × All (λ r. fires context (codes "shell.run") r ≡ false) (compile_rules raw_rules)
    ⊎ ((r : CompiledRule) × Decides context (codes "shell.run") (compile_rules raw_rules) r)
decide_tool_least_example = decide_tool_least raw_rules (codes "shell.run") context

abbrev call : ToolCall ℕ ℕ
call = record { name = some (codes "shell.run"); arguments = 3 }

abbrev origin : Origin ℕ ℕ
origin = record {
  chat_id = codes "c1";
  channel = codes "main";
  connector = codes "telegram";
  session_id = 1;
  message_id = 2;
  messages = [];
}

abbrev shell_tool : Tool ℕ ℕ
shell_tool = record {
  name = codes "shell.run";
  schema = 0;
  handler = 0;
  risk_level = risk_red;
  description = none;
}

abbrev tools : ToolRegistry ℕ ℕ
tools = (codes "shell.run", shell_tool) ∷ []

abbrev accepts : ℕ → ℕ → Option Text
accepts arguments schema = none

abbrev no_pending : Pending ℕ ℕ
no_pending = []

evaluate_cases_example :
    ((reason : Text) × (evaluate accepts tools
            (codes "shell.run" ∷ [])
            no_pending
            (codes "a1")
            call
            origin
          ≡ (refused reason, no_pending)))
      × ((name : Text) (tool : Tool ℕ ℕ)
          → ¬ (Verdicts.Passes accepts tools (codes "shell.run" ∷ []) call name tool))
    ⊎ ((name : Text) × (tool : Tool ℕ ℕ) × Verdicts.Passes accepts tools
          (codes "shell.run" ∷ [])
          call
          name
          tool
        × Verdicts.Held accepts tools
            (codes "shell.run" ∷ [])
            call
            no_pending
            (codes "a1")
            origin
            tool)
    ⊎ ((name : Text) × (tool : Tool ℕ ℕ) × Verdicts.Passes accepts tools
          (codes "shell.run" ∷ [])
          call
          name
          tool
        × Verdicts.Runs accepts tools
            (codes "shell.run" ∷ [])
            call
            no_pending
            (codes "a1")
            origin
            tool)
evaluate_cases_example =
    Verdicts.evaluate_cases accepts tools (codes "shell.run" ∷ []) call no_pending (codes "a1")
      origin
