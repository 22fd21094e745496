-- ===== src/Worker/TaskRun/Closing/Due.antt =====
-- ufoundry/worker.py, `_process_task_run`: when a task is due after its run.
use ufoundry.Base.{
  ℕ, ◌<◌, ◌≡◌, ◌==◌, refl, sym, subst, false, Option, none, some, List, [], Text, codes, text_eq,
  leb, or_text,
}
use ufoundry.Policy.Engine.{Pending}
use ufoundry.Storage.Tasks.{
  TaskRow, TaskTables, is_reached, get_task, fail_task_run, failed_row, complete_task_run,
  completed_row,
}
use ufoundry.Storage.Tasks.Outcomes.{DueAs, get-update, task_outcomes}
use ufoundry.Tasks.Schedule.{Clocks, Schedule, next_at, resolve_timezone, compute_next_run_at}
use ufoundry.Tasks.Schedule.Upcoming.{IsSteady, compute_next_run_at-lt}
use ufoundry.Worker.Arguments.{Arguments}
use ufoundry.Worker.TaskRun.Calls.{Effect}
use ufoundry.Worker.TaskRun.Closing.{
  Answered, answer_stopped, answer_failed, answer_given, completion, completion_of, cannot_complete,
  completes, handle_exception, announce, summary, complete, close_run,
}

module _ {M : Type 0} (clocks : Clocks) (sends : Text → Option Text) (schedule_error : Text)
    (id run now ended : ℕ) (effects : List Effect) (pending : Pending Arguments M)
    (task row : TaskRow Schedule) (tables : TaskTables Schedule)
    (held : get_task id tables ≡ some row) where
  abbrev closed : Answered → TaskTables Schedule
  closed answer =
      (close_run clocks sends schedule_error id run now ended task answer tables effects
        pending).tables

  -- How a run ends that is never completed: it is stopped at a tool call, an exception leaves the
  -- model or a tool, or it has an answer and the task cannot be planned again.
  pub data IsFailure : Answered → Text → Type 0 where
    is_stopped : (text : Text) → IsFailure (answer_stopped text) text
    is_failed : (text : Text) → IsFailure (answer_failed text) text
    is_unplanned :
        (content text : Text)
        → completion clocks schedule_error now task ≡ cannot_complete text
        → IsFailure (answer_given content) text

  abbrev failed_tables : Text → TaskTables Schedule
  failed_tables text = fail_task_run ended run id text none tables

  failed_again :
      (text e : Text) (later : ℕ)
      → DueAs id
          (fail_task_run ended run id e none (failed_tables text))
          later
          (is_reached row.next_run_at later)
  unfolding fail_task_run failed_row get_task
  failed_again text e later =
      (task_outcomes ended id (failed_tables text) (failed_row ended text none row)
        (get-update ended id tables row held (failed_row ended text none) (λ r. refl)) run later []
        e none).3

  announced :
      (text : Text) (later : ℕ) (o : Option Text)
      → sends text ≡ o
      → DueAs id
          (announce clocks sends schedule_error id run now ended text
            (failed_tables text)
            effects
            pending).tables
          later
          (is_reached row.next_run_at later)
  unfolding announce handle_exception
  announced text later none e =
      rw (e, announce) (task_outcomes ended id tables row held run later [] text none).3
  announced text later (some x) e = rw (e, announce) (failed_again text x later)

  -- A task whose run is never completed, since it is stopped at a tool call, an exception leaves the
  -- model or a tool, or the task cannot be planned again, is due again from the time on at which
  -- this run was due: there is no delay before the next attempt. A run that is completed and then
  -- failed, since its summary could not be sent, is none of these.
  pub close_run-due_again :
      {answer : Answered} {text : Text} (later : ℕ)
      → IsFailure answer text
      → DueAs id (closed answer) later (is_reached row.next_run_at later)
  unfolding close_run handle_exception complete
  close_run-due_again later (is_stopped text) = announced text later (sends text) refl
  close_run-due_again later (is_failed e) =
      (task_outcomes ended id tables row held run later [] e none).3
  close_run-due_again later (is_unplanned content e unplanned) =
      subst
        (λ c.
          DueAs id
            (complete clocks sends schedule_error id run now ended task content c tables effects
              pending).tables
            later (is_reached row.next_run_at later))
        (sym unplanned) (task_outcomes ended id tables row held run later [] e none).3

  module _ (content : Text) where
    abbrev zone_name : Text
    zone_name = or_text task.timezone (codes "UTC")

    abbrev completed_tables : ℕ → TaskTables Schedule
    completed_tables t = complete_task_run ended run id content (some t) false tables

    completed_then_failed :
        (t later : ℕ) (e : Text)
        → DueAs id (fail_task_run ended run id e none (completed_tables t)) later (leb t later)
    unfolding complete_task_run completed_row get_task
    completed_then_failed t later e =
        (task_outcomes ended id (completed_tables t)
          (completed_row ended content (some t) false row)
          (get-update ended id tables row held (completed_row ended content (some t) false)
            (λ r. refl))
          run later [] e none).3

    completed_due :
        (t later : ℕ) (o : Option Text)
        → sends (summary id task content) ≡ o
        → DueAs id
            (complete clocks sends schedule_error id run now ended task content
              (completes (some t) false)
              tables
              effects
              pending).tables
            later
            (leb t later)
    unfolding complete announce handle_exception
    completed_due t later none delivered =
        rw (delivered, announce)
          (task_outcomes ended id tables row held run later content [] (some t)).2
    completed_due t later (some e) lost = rw (lost, announce) (completed_then_failed t later e)

    chosen :
        (t : ℕ)
        → (task.task_type == codes "one_time") ≡ false
        → compute_next_run_at clocks task.task_type task.schedule zone_name now ≡ next_at t
        → completion clocks schedule_error now task ≡ completes (some t) false
    unfolding completion completion_of
    chosen t kind next = rw (next, completion_of) (rw kind refl)

    -- In a zone whose clock is never set, a periodic task whose run gave an answer is due again from
    -- the next time of its schedule on, which is after the time at which the schedule was asked,
    -- whether or not its summary could be sent. In a zone whose clock is set the theorem says
    -- nothing.
    pub close_run-due_later :
        (t ahead later : ℕ)
        → (task.task_type == codes "one_time") ≡ false
        → compute_next_run_at clocks task.task_type task.schedule zone_name now ≡ next_at t
        → IsSteady (resolve_timezone clocks zone_name) ahead
        → (now < t) × DueAs id (closed (answer_given content)) later (leb t later)
    unfolding close_run
    close_run-due_later t ahead later kind next steady = (
      compute_next_run_at-lt clocks task.task_type task.schedule zone_name now ahead steady next,
      subst
          (λ c.
            DueAs id
              (complete clocks sends schedule_error id run now ended task content c tables effects
                pending).tables
              later (leb t later))
          (sym (chosen t kind next)) (completed_due t later (sends (summary id task content)) refl),
    )
