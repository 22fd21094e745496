-- ===== src/Worker/Commands.antt =====
-- ufoundry/worker.py, `_handle_control_task_commands`: the commands of the control panel that list,
-- cancel and create tasks. `iso` writes a time as the database does.
pub mod Created
mod Tests
use ufoundry.Base.{
  ℕ, ◌+◌, Bool, true, false, not, ◌==◌, Option, none, some, List, [], ◌∷◌, ◌++◌, map, Text, codes,
  text_eq, if◌then◌else◌, is_empty, strip, lower, starts_with, drop, take, join, decimal, ℤ, pos,
  negsuc,
}
use ufoundry.Storage.Tasks.{
  TaskRow, TaskStatus, active, completed, cancelled, TaskArgs, TaskTables, create_task, list_tasks,
  cancel_task,
}
use ufoundry.Tasks.Parser.{TaskDraft, parse_control_task_request}
use ufoundry.Tasks.Schedule.{
  Clocks, Schedule, Next, raised, no_run, next_at, compute_initial_next_run_at,
}
use ufoundry.Tasks.Schedule.Numbers.{parse_int}

-- What the audit log keeps of a task that was created.
pub record TaskCreated : Type 0 where
  pub task_id : ℕ
  pub name : Text
  pub task_type : Text
  pub next_run_at : ℕ

-- The message is no command; an exception; or the tables, the reply and the entry of the log.
pub data Commanded : Type 0 where
  not_handled crashed : Commanded
  handled : TaskTables Schedule → Text → Option TaskCreated → Commanded

pub status_text : TaskStatus → Text
status_text active = codes "active"
status_text completed = codes "completed"
status_text cancelled = codes "cancelled"

module _ (iso : ℕ → Text) where
  pub time_text : Option ℕ → Text
  time_text none = codes "-"
  time_text (some t) = iso t

  pub task_line : TaskRow Schedule → Text
  unfolding status_text time_text
  task_line task =
      codes "#"
      ++ (decimal task.id
          ++ (codes " ("
              ++ (status_text task.status
                  ++ (codes ") "
                      ++ (task.name ++ (codes " next=" ++ time_text task.next_run_at))))))

  pub list_reply : List (TaskRow Schedule) → Text
  unfolding task_line
  list_reply [] = codes "No tasks found."
  list_reply (task ∷ tasks) = join (10 ∷ []) (map task_line (take 20 (task ∷ tasks)))

  pub created_reply : ℕ → TaskDraft → ℕ → Text
  created_reply id draft next =
      codes "Task created: #"
      ++ (decimal id
          ++ (codes " '"
              ++ (draft.name
                  ++ (codes "' (" ++ (draft.task_type ++ (codes ") next_run=" ++ iso next))))))

-- A negative number is no task's id.
unfoldable pub cancel_by : ℕ → Option ℤ → TaskTables Schedule → Commanded
cancel_by now none tables = handled tables (codes "Usage: tasks cancel <id>") none
cancel_by now (some (negsuc n)) tables =
    handled tables (codes "Task #-" ++ (decimal (n + 1) ++ codes " not found.")) none
cancel_by now (some (pos id)) tables =
    let (changed, after) = cancel_task now id tables in
    handled after
      (codes "Task #"
        ++ (decimal id ++ (if changed then codes " cancelled." else codes " not found.")))
      none

unfoldable pub task_args : TaskDraft → Text → ℕ → TaskArgs Schedule
task_args draft chat_id next = record {
  name = draft.name;
  prompt = draft.prompt;
  task_type = draft.task_type;
  schedule = draft.schedule;
  timezone = draft.timezone;
  next_run_at = some next;
  created_by = codes "control:" ++ chat_id;
}

abbrev pub schedule_usage : Text
schedule_usage =
    codes
      "Could not parse task schedule. Use formats: 'task daily HH:MM <prompt>', 'task weekly MON HH:MM <prompt>', or 'task once <ISO_DATETIME> <prompt>'."

-- `now` is the time at which the schedule is asked, `created` that of the row.
module _ (iso : ℕ → Text) (clocks : Clocks) (now created : ℕ) (chat_id : Text) where
  unfoldable pub create_from : TaskDraft → Next ℕ → TaskTables Schedule → Commanded
  unfolding task_args created_reply
  create_from draft raised tables = crashed
  create_from draft no_run tables = handled tables schedule_usage none
  create_from draft (next_at next) tables =
      let (id, after) = create_task created (task_args draft chat_id next) tables in
      handled after (created_reply iso id draft next) (
        some (record {
          task_id = id;
          name = draft.name;
          task_type = draft.task_type;
          next_run_at = next;
        }))

  unfoldable pub create_parsed : Option TaskDraft → TaskTables Schedule → Commanded
  unfolding create_from
  create_parsed none tables = not_handled
  create_parsed (some draft) tables =
      create_from draft
        (compute_initial_next_run_at clocks draft.task_type draft.schedule draft.timezone now)
        tables

  unfoldable pub handle_control_task_commands : Text → TaskTables Schedule → Commanded
  unfolding create_parsed cancel_by list_reply
  handle_control_task_commands message tables =
      let stripped = strip message in
      let lowered = lower stripped in
      if is_empty stripped
      then not_handled
      else if lowered == codes "tasks list"
      then handled tables (list_reply iso (list_tasks none tables)) none
      else if starts_with lowered (codes "tasks cancel ")
      then cancel_by created (parse_int (strip (drop 13 stripped))) tables
      else create_parsed (parse_control_task_request stripped (codes "UTC")) tables
