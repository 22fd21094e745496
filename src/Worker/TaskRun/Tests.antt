-- ===== src/Worker/TaskRun/Tests.antt =====
-- The theorems on task runs at concrete inputs.
use ufoundry.Base.{
  ℕ, ◌+◌, ◌*◌, ◌<◌, ◌≡◌, refl, true, false, Option, none, some, List, [], ◌∷◌, ◌++◌, Text, codes,
  text_beq, lookup, lower, strip, arith,
}
use ufoundry.Tools.Registry.{Tool, risk_green}
use ufoundry.Tools.Workspace.{Paths}
use ufoundry.Policy.Engine.{Origin}
use ufoundry.Storage.Rows.{select_first}
use ufoundry.Storage.Tasks.{TaskRow, TaskTables, active, get_task, create_task_run}
use ufoundry.Storage.Tasks.Outcomes.{DueAs}
use ufoundry.Tasks.Schedule.Numbers.{parse_int}
use ufoundry.Tasks.Schedule.{
  Zone, Clocks, Schedule, compute_next_run_at, parse_time_hhmm, hour_length, minute_length,
  day_length,
}
use ufoundry.Tasks.Schedule.Upcoming.{IsSteady}
use ufoundry.Worker.Arguments.{Arguments, object}
use ufoundry.Worker.Gate.Guards.{Settings}
use ufoundry.Worker.Turn.{Call, Handled, handler_result}
use ufoundry.Worker.TaskRun.{process_task_run}
use ufoundry.Worker.TaskRun.Calls.{reply, run_task_calls}
use ufoundry.Worker.TaskRun.Calls.Admitted.{RanTask, run_task_calls-RanTask}
use ufoundry.Worker.TaskRun.Closing.{TaskEnd, answer_given, answer_failed, close_run}
use ufoundry.Worker.TaskRun.Closing.Due.{is_failed, close_run-due_again, close_run-due_later}
use ufoundry.Worker.TaskRun.Ends.{opened_run, EndsBy, process_task_run-EndsBy}

abbrev zone : Zone
zone = record { local = λ now. record { wall = now; fold = false }; instant = λ t. t.wall }

abbrev clocks : Clocks
clocks = record { utc = zone; zone_info = λ name. none; from_iso = λ s. none }

abbrev zone-IsSteady : IsSteady zone 0
zone-IsSteady = record { reads = λ now. omega arith; means = λ t h. omega arith }

abbrev nine : ℕ
nine = 9 * hour_length

abbrev report : TaskRow Schedule
report = record {
  id = 4;
  name = codes "report";
  prompt = codes "write it";
  task_type = codes "periodic";
  schedule = [];
  timezone = codes "UTC";
  status = active;
  next_run_at = some nine;
  lease_until = some (nine + minute_length);
  last_run_at = none;
  last_result = none;
  last_error = none;
  created_by = codes "control:7";
  created_at = 5;
  updated_at = 5;
}

abbrev tables : TaskTables Schedule
tables = record { tasks = report ∷ []; next_task = 5; runs = []; next_run = 1 }

abbrev clock : Tool Unit Unit
clock = record {
  name = codes "clock";
  schema = tt;
  handler = tt;
  risk_level = risk_green;
  description = none;
}

abbrev no_paths : Paths
no_paths = record {
  resolves = λ p. true;
  resolve = λ p. p ∷ [];
  is_absolute = λ p. false;
  resolve_under = λ root p. root ++ p ∷ [];
  makes = λ root. true;
}

abbrev settings : Settings Unit Unit
settings = record {
  rules = [];
  security = none;
  ssrf_protection = true;
  policy = record {
    approval_mode = codes "normal";
    auto_approve_workspaces = [];
    auto_approve_tools = [];
    auto_approve_shell_commands = [];
  };
  workspace = none;
  tools = (codes "clock", clock) ∷ [];
  paths = no_paths;
  net = record {
    hostname = λ u. none;
    getaddrinfo = λ h. none;
    ip_address = λ a. none;
    shown = λ e. [];
  };
}

abbrev origin : Origin Arguments Unit
origin = record {
  chat_id = codes "task:4";
  channel = codes "system";
  connector = [];
  session_id = 1;
  message_id = 2;
  messages = [];
}

abbrev fits : Arguments → Unit {0} → Option Text
fits arguments schema = none

abbrev shows : Unit {0} → Arguments → Handled
shows handler arguments = handler_result (codes "noon")

abbrev calls : List (Text × Call)
calls = (codes "ab12", record { name = codes "clock"; arguments = object [] }) ∷ []

abbrev sends : Text → Option Text
sends message = none

run_task_calls-RanTask_example :
    RanTask {M = Unit} fits shows settings
      (codes "clock" ∷ [])
      4
      origin
      calls
      (run_task_calls fits shows settings (codes "clock" ∷ []) 4 origin calls []).effects
      (run_task_calls fits shows settings (codes "clock" ∷ []) 4 origin calls []).ended
run_task_calls-RanTask_example =
    run_task_calls-RanTask fits shows settings (codes "clock" ∷ []) 4 origin calls []

abbrev answered : Option Text → TaskEnd Unit
answered prepared =
    process_task_run fits shows settings (codes "normal") 4 origin clocks sends [] nine nine nine
      (reply [] calls) (λ outputs. reply (codes "It is noon.") []) prepared tables []

process_task_run-EndsBy_example : EndsBy none 4 report (opened_run 1 4 nine) [] (answered none)
unfolding get_task select_first
process_task_run-EndsBy_example =
    process_task_run-EndsBy fits shows settings (codes "normal") 4 origin clocks sends [] nine nine
      nine (reply [] calls) (λ outputs. reply (codes "It is noon.") []) none tables [] report tt
      refl refl

-- A file of a skill that cannot be read leaves the run open.
unread_skill :
    ((answered (some (codes "could not find expected ':'"))).tables.runs ≡ opened_run 1 4 nine ∷ [])
unfolding process_task_run get_task select_first create_task_run
unread_skill = refl

close_run-due_again_example :
    DueAs 4
      (close_run {M = Unit} clocks sends [] 4 1 nine nine report
        (answer_failed (codes "HTTP 500"))
        tables
        []
        []).tables
      nine
      true
unfolding get_task select_first
close_run-due_again_example =
    close_run-due_again clocks sends [] 4 1 nine nine [] [] report report tables refl nine
      (is_failed (codes "HTTP 500"))

close_run-due_later_example :
    (nine < nine + day_length)
    × DueAs 4
        (close_run {M = Unit} clocks sends [] 4 1 nine nine report
          (answer_given (codes "done"))
          tables
          []
          []).tables
        (2 * day_length)
        true
unfolding get_task select_first compute_next_run_at text_beq lookup lower strip parse_time_hhmm
    parse_int
close_run-due_later_example =
    close_run-due_later clocks sends [] 4 1 nine nine [] [] report report tables refl (codes "done")
      (nine + day_length) 0 (2 * day_length) refl refl zone-IsSteady
