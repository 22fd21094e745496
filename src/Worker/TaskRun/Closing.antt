-- ===== src/Worker/TaskRun/Closing.antt =====
-- ufoundry/worker.py, `_process_task_run`: what a run leaves in the tables, and what is sent.
pub mod Settled
pub mod Due
use ufoundry.Base.{
  ℕ, Bool, true, false, ◌==◌, Option, none, some, List, [], ◌∷◌, ◌++◌, Text, codes, text_eq,
  if◌then◌else◌, or_text, decimal,
}
use ufoundry.Policy.Engine.{Pending}
use ufoundry.Storage.Tasks.{TaskRow, TaskTables, complete_task_run, fail_task_run}
use ufoundry.Tasks.Schedule.{Clocks, Schedule, Next, raised, no_run, next_at, compute_next_run_at}
use ufoundry.Worker.Arguments.{Arguments}
use ufoundry.Worker.TaskRun.Calls.{Effect, sent}

-- The state of a run: the tables, the effects, the confirmations, and the exception that leaves it.
pub record TaskEnd (M : Type 0) : Type 0 where
  pub tables : TaskTables Schedule
  pub effects : List Effect
  pub pending : Pending Arguments M
  pub exception : Option Text

-- How the run of the model ends: stopped, an exception, or the final content.
pub data Answered : Type 0 where
  answer_stopped answer_failed : Text → Answered
  answer_given : Text → Answered

-- What is next for a task whose run is done: an exception, or what `complete_task_run` is given.
pub data Completion : Type 0 where
  cannot_complete : Text → Completion
  completes : Option ℕ → Bool → Completion

-- `now` is the time at which the schedule is asked, `ended` that of the run's end.
module _ (clocks : Clocks) (schedule_error : Text) (now : ℕ) where
  pub completion_of : Bool → Next ℕ → Completion
  completion_of terminal raised = cannot_complete schedule_error
  completion_of terminal no_run =
      if terminal
      then completes none true
      else cannot_complete (codes "Unable to compute next run for periodic task")
  completion_of terminal (next_at t) = completes (if terminal then none else some t) terminal

  unfoldable pub completion : TaskRow Schedule → Completion
  unfolding completion_of
  completion task = completion_of (task.task_type == codes "one_time") (
      compute_next_run_at clocks task.task_type task.schedule (or_text task.timezone (codes "UTC"))
        now)

pub summary : ℕ → TaskRow Schedule → Text → Text
summary id task content =
    codes "Task #"
    ++ (decimal id ++ (codes " (" ++ (task.name ++ (codes ") completed." ++ (10 ∷ content)))))

module _ {M : Type 0} (clocks : Clocks) (sends : Text → Option Text) (schedule_error : Text)
    (id run now ended : ℕ) where
  module _ (effects : List Effect) (pending : Pending Arguments M) where
    -- The handler of exceptions.
    pub handle_exception : Text → TaskTables Schedule → TaskEnd M
    handle_exception e tables =
        let text = codes "Task #" ++ (decimal id ++ (codes " failed: " ++ e)) in
        record {
          tables = fail_task_run ended run id e none tables;
          effects = effects ++ sent text ∷ [];
          pending = pending;
          exception = sends text;
        }

  -- A message about a run whose end is in the tables.
  pub announce : Text → TaskTables Schedule → List Effect → Pending Arguments M → TaskEnd M
  unfolding handle_exception
  announce text tables effects pending = elim (sends text) [
    | none ↦ record {
      tables = tables;
      effects = effects ++ sent text ∷ [];
      pending = pending;
      exception = none;
    }
    | some e ↦ handle_exception (effects ++ sent text ∷ []) pending e tables
  ]

  pub complete :
      TaskRow Schedule
      → Text
      → Completion
      → TaskTables Schedule
      → List Effect
      → Pending Arguments M
      → TaskEnd M
  unfolding announce handle_exception summary
  complete task content (cannot_complete e) tables effects pending =
      handle_exception effects pending e tables
  complete task content (completes next terminal) tables effects pending =
      announce (summary id task content)
        (complete_task_run ended run id content next terminal tables) effects pending

  unfoldable pub close_run :
      TaskRow Schedule
      → Answered
      → TaskTables Schedule
      → List Effect
      → Pending Arguments M
      → TaskEnd M
  unfolding complete announce handle_exception completion
  close_run task (answer_stopped text) tables effects pending =
      announce text (fail_task_run ended run id text none tables) effects pending
  close_run task (answer_failed e) tables effects pending =
      handle_exception effects pending e tables
  close_run task (answer_given content) tables effects pending =
      complete task content (completion clocks schedule_error now task) tables effects pending
