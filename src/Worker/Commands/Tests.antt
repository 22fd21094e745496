-- ===== src/Worker/Commands/Tests.antt =====
-- The theorem on the commands of the control panel at a concrete input.
use ufoundry.Base.{
  refl, false, none, [], Text, codes, decimal, text_beq, text_beq_iff, ◌≢◌, lower, strip, lstrip,
  starts_with,
}
use ufoundry.Storage.Rows.{select_first}
use ufoundry.Storage.Tasks.{TaskTables, get_task}
use ufoundry.Tasks.Parser.{TaskDraft, draft, daily, parse_control_task_request}
use ufoundry.Tasks.Parser.Matching.{break_off, line_of, prompt_after, read_hhmm, strip_of}
use ufoundry.Tasks.Schedule.{Zone, Clocks, Schedule}
use ufoundry.Worker.Commands.Created.{Creates, handle_control_task_commands-Creates}

abbrev zone : Zone
zone = record { local = λ now. record { wall = now; fold = false }; instant = λ t. t.wall }

abbrev clocks : Clocks
clocks = record { utc = zone; zone_info = λ name. none; from_iso = λ s. none }

abbrev no_tasks : TaskTables Schedule
no_tasks = record { tasks = []; next_task = 1; runs = []; next_run = 1 }

abbrev command : Text
command = codes "task daily 07:30 Write the report"

abbrev reports : TaskDraft
reports = draft (codes "periodic") (daily (codes "07:30")) (codes "UTC") (codes "Write the report")

periodic-ne : codes "periodic" ≢ codes "one_time"
unfolding text_beq
periodic-ne e = let same = (text_beq_iff (codes "periodic") (codes "one_time")).1 e in cc same

handle_control_task_commands-Creates_example :
    Creates decimal clocks 5 6 (codes "7") command no_tasks reports
unfolding parse_control_task_request draft break_off prompt_after line_of read_hhmm strip_of strip
    lstrip lower starts_with text_beq get_task select_first
handle_control_task_commands-Creates_example =
    handle_control_task_commands-Creates decimal clocks 5 6 (codes "7") command no_tasks reports
      refl refl refl periodic-ne refl
