-- ===== src/Worker/Tests.antt =====
-- The theorems on the worker at concrete inputs.
use ufoundry.Base.{
  ℕ, arith, ◌≡◌, ◌↔◌, ◌≢◌, ◌⊎◌, refl, true, false, Option, none, some, List, [], ◌∷◌, ◌++◌, Text,
  codes, text_eq, All, is_empty, is_infix, strip, contains, if◌then◌else◌, text_beq, lookup,
  split_words, join, starts_with,
}
use ufoundry.Tools.Registry.{Tool, risk_red, risk_green}
use ufoundry.Tools.Workspace.{Paths}
use ufoundry.Policy.Engine.{Origin, create_confirmation}
use ufoundry.Worker.Arguments.{Arguments, object}
use ufoundry.Worker.Approval.{
  PolicyConfig, is_auto_mode, is_auto_approve_shell_command_allowed, forbidden_tokens,
}
use ufoundry.Worker.Approval.Shell.{Begins, is_auto_approve_shell_command_allowed-Begins}
use ufoundry.Worker.Gate.{denied, asked, reaches, gate}
use ufoundry.Worker.Gate.Guards.{
  Audit, auto_approved, confirmation_requested, Flow, Settings, Net, approves, listener_guard,
  declared_guard, security_guard, fetch_guard,
}
use ufoundry.Worker.Gate.Reach.{Cleared, Eligible, gate-reaches, gate-red}
use ufoundry.Worker.AgentGuard.{agent_tool_guard}
use ufoundry.Worker.AgentGuard.Passes.{Accepts, agent_tool_guard-Accepts}
use ufoundry.Worker.Turn.{Handled, handler_result, Call, Turn, run_calls}
use ufoundry.Storage.Rows.{select_first, update_where}
use ufoundry.Storage.Queue.{JobRow, JobTable, new_job, is_claimable, leased_row, claim_job}
use ufoundry.Storage.Queue.Life.{run_none, Settled}
use ufoundry.Worker.Jobs.{JobHandlers, serve}
use ufoundry.Worker.Jobs.Served.{serve-Settled}

abbrev normal_policy : PolicyConfig
normal_policy = record {
  approval_mode = codes "normal";
  auto_approve_workspaces = [];
  auto_approve_tools = [];
  auto_approve_shell_commands = codes "git  status" ∷ [];
}

is_auto_approve_shell_command_allowed-Begins_example :
    (is_empty (strip (codes "git status -s")) ≡ false)
    × All (λ token. is_infix token (strip (codes "git status -s")) ≡ false) forbidden_tokens
    × Begins normal_policy (strip (codes "git status -s"))
unfolding is_auto_approve_shell_command_allowed strip is_infix split_words join starts_with text_beq
is_auto_approve_shell_command_allowed-Begins_example =
    is_auto_approve_shell_command_allowed-Begins normal_policy (codes "git status -s") refl

-- One character of the shell's that starts a second command is not among the forbidden tokens.
background_command :
    is_auto_approve_shell_command_allowed normal_policy (codes "git status & rm -r x") ≡ true
unfolding is_auto_approve_shell_command_allowed strip is_infix split_words join starts_with text_beq
background_command = refl

abbrev no_paths : Paths
no_paths = record {
  resolves = λ p. true;
  resolve = λ p. p ∷ [];
  is_absolute = λ p. false;
  resolve_under = λ root p. root ++ p ∷ [];
  makes = λ root. true;
}

abbrev no_net : Net
no_net = record {
  hostname = λ u. none;
  getaddrinfo = λ h. none;
  ip_address = λ a. none;
  shown = λ e. [];
}

abbrev tool : Text → Text → Tool Unit Unit
tool name risk = record {
  name = name;
  schema = tt;
  handler = tt;
  risk_level = risk;
  description = none;
}

abbrev clock : Tool Unit Unit
clock = tool (codes "clock") risk_green

abbrev shell : Tool Unit Unit
shell = tool (codes "shell.run") risk_red

abbrev settings : Settings Unit Unit
settings = record {
  rules = [];
  security = none;
  ssrf_protection = true;
  policy = normal_policy;
  workspace = none;
  tools = (codes "clock", clock) ∷ (codes "shell.run", shell) ∷ [];
  paths = no_paths;
  net = no_net;
}

abbrev flow : Flow
flow = record {
  connector = codes "telegram";
  source_connector = [];
  connector_role = codes "admin";
  channel = codes "dm";
  chat_id = codes "7";
  kind = codes "external";
  intent = none;
  explicit = false;
}

abbrev origin : Origin Arguments Unit
origin = record {
  chat_id = codes "7";
  channel = codes "dm";
  connector = codes "telegram";
  session_id = 1;
  message_id = 2;
  messages = [];
}

abbrev fits : Arguments → Unit {0} → Option Text
fits arguments schema = none

abbrev names : List Text
names = codes "clock" ∷ codes "shell.run" ∷ []

abbrev token : Text
token = codes "ab12"

abbrev no_args : Arguments
no_args = object []

gate-reaches_example :
    ((gate {M = Unit} fits settings flow names (codes "clock") no_args token origin []).answer
      ≡ reaches clock)
    ↔ ((audits : List Audit) × Cleared fits settings flow names
          (codes "clock")
          no_args
          token
          origin
          audits
        × Eligible fits settings flow names (codes "clock") no_args token origin clock)
gate-reaches_example =
    gate-reaches fits settings flow names (codes "clock") no_args token origin [] clock

gate-red_example :
    gate {M = Unit} fits settings flow names (codes "shell.run") no_args token origin [] ≡ (
      if approves settings flow names (codes "shell.run") no_args
      then record {
        answer = denied (codes "Tool denied: None");
        audits = auto_approved (codes "risk_policy") ∷ [];
        pending =
            create_confirmation [] token
              (record { name = some (codes "shell.run"); arguments = no_args })
              origin;
      }
      else record {
        answer = asked token;
        audits = confirmation_requested token ∷ [];
        pending =
            create_confirmation [] token
              (record { name = some (codes "shell.run"); arguments = no_args })
              origin;
      })
unfolding listener_guard declared_guard security_guard fetch_guard text_beq lookup
gate-red_example =
    gate-red fits settings flow names (codes "shell.run") no_args token origin [] shell []
      (refl, refl, refl, refl) (refl, refl, refl, refl, refl) refl

abbrev auto_settings : Settings Unit Unit
auto_settings = record settings {
  policy = record normal_policy { approval_mode = codes "auto_approve_workspace" };
}

agent_tool_guard-Accepts_example :
    (agent_tool_guard fits auto_settings flow names (codes "clock") no_args ≡ none) ↔ (
      (is_auto_mode auto_settings.policy ≡ false)
      ⊎ ((contains names (codes "clock") ≡ true)
          × (tool : Tool Unit Unit) × Accepts fits auto_settings flow names
              (codes "clock")
              no_args
              tool))
agent_tool_guard-Accepts_example =
    agent_tool_guard-Accepts fits auto_settings flow names (codes "clock") no_args

abbrev ticks : Unit {0} → Arguments → Handled
ticks handler arguments = handler_result (codes "12:00")

abbrev clock_calls : List (Text × Call)
clock_calls = (token, record { name = codes "clock"; arguments = no_args }) ∷ []

abbrev clock_turn : Turn Unit Unit Unit
clock_turn = run_calls fits ticks [] true settings flow names origin clock_calls []

abbrev handlers : JobHandlers Unit
handlers = record {
  process_confirmation = λ p. none;
  resolve_orchestrator_approval = λ p. none;
  process_task_run = λ p. none;
  process_message = λ p. some (codes "no model");
}

abbrev job : JobRow Unit
job = new_job 1 (codes "7") (codes "dm") tt 100

abbrev job_queue : JobTable Unit
job_queue = record { rows = job ∷ []; next_id = 2 }

abbrev claimed : JobTable Unit
claimed = (claim_job 200 230 job_queue).1

serve-Settled_example :
    Settled 1 (serve handlers (λ p. none) 210 (leased_row 200 230 job) claimed)
    × ((later until : ℕ) (other : JobRow Unit)
        → (claim_job later until
            (serve handlers (λ p. none) 210 (leased_row 200 230 job) claimed)).0
          ≡ some other
        → other.id ≢ 1)
unfolding new_job leased_row claim_job select_first update_where is_claimable
serve-Settled_example =
    serve-Settled handlers (λ p. none) job_queue 200 230 210 (leased_row 200 230 job)
      (omega arith, omega arith) refl run_none run_none
