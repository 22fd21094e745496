-- ===== src/Tasks/Tests.antt =====
-- Tests of the schedules, and the theorems on them at concrete inputs.
use ufoundry.Base.{
  ℕ, ◌+◌, ◌*◌, ◌≡◌, refl, true, false, none, some, [], ◌∷◌, Text, codes, text_beq, lookup, lower,
  strip, lstrip, starts_with, nat_eq,
}
use ufoundry.Tasks.Schedule.Numbers.{text, str, parse_int}
use ufoundry.Tasks.Schedule.{
  Zone, Clocks, next_at, Schedule, minute_length, hour_length, day_length, parse_time_hhmm,
  weekday_number, periodic, compute_next_run_at, compute_initial_next_run_at,
}
use ufoundry.Tasks.Schedule.Upcoming.{Answers, slot_of, periodic-Answers}
use ufoundry.Tasks.Parser.{draft, weekly, parse_control_task_request}
use ufoundry.Tasks.Parser.Matching.{
  break_off, line_of, prompt_after, read_hhmm, strip_of, extract_hhmm, extract_day_of_week,
}
use ufoundry.Tasks.Parser.Planned.{IsPlannable, parse_control_task_request-IsPlannable}
use ufoundry.Storage.Queue.{JobTable}
use ufoundry.Storage.Tasks.{TaskRow, TaskTables, new_task}

abbrev zone : Zone
zone = record { local = λ now. record { wall = now; fold = false }; instant = λ t. t.wall }

abbrev clocks : Clocks
clocks = record { utc = zone; zone_info = λ name. none; from_iso = λ s. none }

abbrev mornings : Schedule
mornings = (codes "time", text (codes "07:30")) ∷ []

abbrev fridays : Schedule
fridays =
    (codes "frequency", text (codes " Weekly"))
    ∷ (codes "day_of_week", text (codes "FRI"))
    ∷ (codes "time", text (codes "7:99"))
    ∷ []

-- Monday, 07:30
abbrev monday : ℕ
monday = 7 * hour_length + 30 * minute_length

-- A task that runs at 07:30 runs next on the day after, also if it is 07:30 just now; the first
-- run may be now.
next_morning :
    (compute_next_run_at clocks (codes "periodic") mornings (codes "UTC") monday
      ≡ next_at (monday + day_length))
    × (compute_initial_next_run_at clocks (codes "periodic") mornings (codes "UTC") monday
        ≡ next_at monday)
unfolding compute_next_run_at compute_initial_next_run_at text_beq lookup lower strip
    parse_time_hhmm str parse_int
next_morning = (refl, refl)

-- The minute 99 stands for 59.
next_friday :
    compute_next_run_at clocks (codes "periodic") fridays (codes "UTC") monday
    ≡ next_at (4 * day_length + 7 * hour_length + 59 * minute_length)
unfolding compute_next_run_at text_beq lookup lower strip parse_time_hhmm str parse_int
    weekday_number
next_friday = refl

default_time : (parse_time_hhmm (codes "noon") ≡ (9, 0)) × (parse_time_hhmm (codes " 8:x") ≡ (9, 0))
unfolding parse_time_hhmm strip parse_int
default_time = (refl, refl)

periodic-Answers_example :
    Answers true monday (slot_of fridays) (periodic true fridays (zone.local monday))
periodic-Answers_example = periodic-Answers true fridays (zone.local monday)

abbrev command : Text
command = codes "task weekly FRI 7:30  Write the report."

-- The draft of a command.
friday_draft :
    parse_control_task_request command (codes "UTC")
    ≡ some (
        draft
          (codes "periodic")
          (weekly (codes "fri") (codes "7:30"))
          (codes "UTC")
          (codes "Write the report."))
unfolding parse_control_task_request draft break_off prompt_after line_of read_hhmm strip_of strip
    lstrip lower starts_with
friday_draft = refl

spoken_time :
    (extract_hhmm (codes "remind me daily at 18:05, please") ≡ some (codes "18:05"))
    × (extract_hhmm (codes "room 12:345") ≡ none)
    × (extract_day_of_week (codes "on Monday and fri") ≡ some (codes "monday"))
unfolding extract_hhmm extract_day_of_week read_hhmm break_off lower text_beq
spoken_time = (refl, refl, refl)

parse_control_task_request-IsPlannable_example : IsPlannable (
    draft
      (codes "periodic")
      (weekly (codes "fri") (codes "7:30"))
      (codes "UTC")
      (codes "Write the report."))
parse_control_task_request-IsPlannable_example =
    parse_control_task_request-IsPlannable command (codes "UTC")
      (draft (codes "periodic") (weekly (codes "fri") (codes "7:30")) (codes "UTC")
        (codes "Write the report."))
      friday_draft

abbrev report : TaskRow (Unit {0})
report = new_task 100 1 (record {
  name = codes "report";
  prompt = codes "write it";
  task_type = codes "periodic";
  schedule = tt;
  timezone = codes "UTC";
  next_run_at = some 150;
  created_by = codes "7";
})

abbrev planned : TaskTables (Unit {0})
planned = record { tasks = report ∷ []; next_task = 2; runs = []; next_run = 1 }

abbrev no_jobs : JobTable ℕ
no_jobs = record { rows = []; next_id = 1 }
