-- ===== src/Worker/TaskRun/Ends.antt =====
-- ufoundry/worker.py, `_process_task_run`: every run comes to an end.
use ufoundry.Base.{
  ℕ, ◌≡◌, refl, ap, true, false, Option, none, some, List, [], ◌∷◌, ◌++◌, All, Text, Bool-cases,
  inl, inr, eqb_iff,
}
use ufoundry.Policy.Engine.{Origin, Pending}
use ufoundry.Storage.Tasks.{
  TaskRow, TaskTables, TaskRun, running, is_active, is_run, get_task, create_task_run,
}
use ufoundry.Storage.Tasks.Outcomes.{get-update}
use ufoundry.Tasks.Schedule.{Clocks, Schedule}
use ufoundry.Worker.Arguments.{Arguments}
use ufoundry.Worker.Gate.Guards.{Settings}
use ufoundry.Worker.Turn.{Handled, ToolOutput}
use ufoundry.Worker.TaskRun.Calls.{Reply}
use ufoundry.Worker.TaskRun.Closing.{TaskEnd}
use ufoundry.Worker.TaskRun.Closing.Settled.{
  is_running, open_runs, other_runs, IsSettled, close_run-IsSettled,
}
use ufoundry.Worker.TaskRun.{process_task_run, run_task, go_on}

-- No run has the id that the next one gets.
abbrev pub IsFresh : ℕ → List TaskRun → Type 0
IsFresh run runs = All (λ r. is_run run r ≡ false) runs

other_runs-fresh :
    (run : ℕ) (new : TaskRun) (runs : List TaskRun)
    → is_run run new ≡ true
    → IsFresh run runs
    → other_runs run (runs ++ new ∷ []) ≡ open_runs runs
other_runs-fresh run new [] own fresh = rw own refl
other_runs-fresh run new (r ∷ runs) own fresh = elim (Bool-cases (is_running r)) [
  | inl f ↦ rw (fresh.0, f) (cc (other_runs-fresh run new runs own fresh.1))
  | inr f ↦ rw (fresh.0, f) (other_runs-fresh run new runs own fresh.1)
]

open_runs-append :
    (new : TaskRun) (runs : List TaskRun)
    → is_running new ≡ true
    → open_runs (runs ++ new ∷ []) ≡ open_runs runs ++ new ∷ []
open_runs-append new [] live = rw live refl
open_runs-append new (r ∷ runs) live = elim (Bool-cases (is_running r)) [
  | inl e ↦ rw e (ap (λ rest. r ∷ rest) (open_runs-append new runs live))
  | inr e ↦ rw e (open_runs-append new runs live)
]

-- The run that a task is given.
abbrev pub opened_run : ℕ → ℕ → ℕ → TaskRun
opened_run run id started = record {
  run_id = run;
  task_id = id;
  run_status = running;
  started_at = started;
  finished_at = none;
  result = none;
  error = none;
}

-- The run stays open, and the task keeps its lease and the time at which it is due.
abbrev pub StaysOpen :
    {M : Type 0} → ℕ → TaskRow Schedule → TaskRun → List TaskRun → TaskEnd M → Type 0
StaysOpen id task new before end =
    (open_runs end.tables.runs ≡ before ++ new ∷ [])
    × ((row : TaskRow Schedule) × (get_task id end.tables ≡ some row)
        × (row.lease_until ≡ task.lease_until)
        × (row.next_run_at ≡ task.next_run_at)
        × (row.status ≡ task.status))

-- How a run ends, by the exception of the code that prepares the prompt: it is settled where there
-- is none. Otherwise the exception leaves the handling, and the run stays open.
abbrev pub EndsBy :
    {M : Type 0} → Option Text → ℕ → TaskRow Schedule → TaskRun → List TaskRun → TaskEnd M → Type 0
EndsBy none id task new before end = IsSettled id new.run_id before end.tables
EndsBy (some e) id task new before end = (end.exception ≡ some e) × StaysOpen id task new before end

module _ {S H M : Type 0} (check : Arguments → S → Option Text) (handler : H → Arguments → Handled)
    (set : Settings S H) (strictness : Text) (id : ℕ) (origin : Origin Arguments M)
    (clocks : Clocks) (sends : Text → Option Text) (schedule_error : Text) (started now ended : ℕ)
    (first : Reply) (follow_up : List ToolOutput → Reply) where
  abbrev processed : Option Text → TaskTables Schedule → Pending Arguments M → TaskEnd M
  processed prepared tables pending =
      process_task_run check handler set strictness id origin clocks sends schedule_error started
        now ended first follow_up prepared tables pending

  opened_row : TaskRow Schedule → TaskRow Schedule
  opened_row row = record row { last_run_at = some started; updated_at = started }

  module _ (tables : TaskTables Schedule) (pending : Pending Arguments M) (task : TaskRow Schedule)
      (fresh : IsFresh tables.next_run tables.runs) (held : get_task id tables ≡ some task) where
    new : TaskRun
    new = opened_run tables.next_run id started

    go_on-EndsBy :
        (prepared : Option Text)
        → EndsBy prepared id task new (open_runs tables.runs) (
            go_on check handler set strictness id origin clocks sends schedule_error started now
              ended first follow_up prepared tables.next_run task
              (create_task_run started id tables).1
              pending)
    unfolding go_on create_task_run get_task new opened_row
    go_on-EndsBy none =
        close_run-IsSettled id tables.next_run (open_runs tables.runs) clocks sends schedule_error
          now ended _ _ task (opened_row task) _ (create_task_run started id tables).1
          (
            get-update started id tables task held opened_row (λ r. refl),
            other_runs-fresh tables.next_run _ tables.runs ((eqb_iff _ _).1 refl) fresh,
          )
    go_on-EndsBy (some e) = (
      refl,
      (
        open_runs-append _ tables.runs refl,
        (
          opened_row task,
          get-update started id tables task held opened_row (λ r. refl),
          refl,
          refl,
          refl,
        ),
      ),
    )

  -- A run of an active task, whatever the model answers, the tools' handlers do and the callback for
  -- messages does, is closed in the end where the prompt could be prepared: no run is open that was
  -- not open before, and none that was is closed, and the task is free of its lease and not
  -- cancelled. Where preparing the prompt raises, the exception leaves the handling: the run stays
  -- open, and the task keeps its lease, its status and its time. No run may have the id that the
  -- table gives next.
  pub process_task_run-EndsBy :
      (prepared : Option Text) (tables : TaskTables Schedule) (pending : Pending Arguments M)
      (task : TaskRow Schedule)
      → IsFresh tables.next_run tables.runs
      → get_task id tables ≡ some task
      → is_active task.status ≡ true
      → EndsBy prepared id task
          (opened_run tables.next_run id started)
          (open_runs tables.runs)
          (processed prepared tables pending)
  unfolding process_task_run run_task create_task_run new
  process_task_run-EndsBy prepared tables pending task fresh held live =
      rw (held, process_task_run) (rw live (go_on-EndsBy tables pending task fresh held prepared))
