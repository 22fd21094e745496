-- ===== src/Worker/TaskRun/Closing/Settled.antt =====
-- ufoundry/worker.py, `_process_task_run`: how the tables stand when a run has ended.
use ufoundry.Base.{
  ℕ, ◌≡◌, ◌≢◌, refl, ◌∙◌, Bool, true, false, not, ◌&&◌, Option, none, some, List, [], ◌∷◌, Text,
  filter, Bool-cases, inl, inr, if◌then◌else◌,
}
use ufoundry.Policy.Engine.{Pending}
use ufoundry.Storage.Rows.{update_where}
use ufoundry.Storage.Tasks.{
  TaskRow, TaskStatus, active, completed, cancelled, TaskTables, TaskRun, running, success,
  run_failed, is_run, get_task, complete_task_run, fail_task_run, completed_row, failed_row,
}
use ufoundry.Storage.Tasks.Outcomes.{get-update}
use ufoundry.Tasks.Schedule.{Clocks, Schedule}
use ufoundry.Worker.Arguments.{Arguments}
use ufoundry.Worker.TaskRun.Calls.{Effect}
use ufoundry.Worker.TaskRun.Closing.{
  Answered, answer_stopped, answer_failed, answer_given, Completion, cannot_complete, completes,
  completion, handle_exception, announce, complete, close_run,
}

abbrev pub is_running : TaskRun → Bool
is_running r = elim r.run_status [ running ↦ true | success ↦ false | run_failed ↦ false ]

-- The runs that are open, and those of them but one.
abbrev pub open_runs : List TaskRun → List TaskRun
open_runs runs = filter is_running runs

abbrev pub other_runs : ℕ → List TaskRun → List TaskRun
other_runs run runs = filter (λ r. not (is_run run r) && is_running r) runs

-- An update that ends the run.
abbrev Closes : ℕ → (TaskRun → TaskRun) → Type 0
Closes run change = (r : TaskRun) → ((change r).run_id ≡ r.run_id) × (is_running (change r) ≡ false)

closed_runs :
    (run : ℕ) (change : TaskRun → TaskRun) (runs : List TaskRun)
    → Closes run change
    → (open_runs (update_where (is_run run) change runs) ≡ other_runs run runs)
      × (other_runs run (update_where (is_run run) change runs) ≡ other_runs run runs)
unfolding update_where
closed_runs run change [] closes = (refl, refl)
closed_runs run change (r ∷ runs) closes =
    let (same, shut) = closes r in
    let (a, b) = closed_runs run change runs closes in
    elim (Bool-cases (is_run run r)) [
      | inl e ↦ (rw (e, shut) a, rw (e, same, e) b)
      | inr e ↦ elim (Bool-cases (is_running r)) [
        | inl f ↦ (rw (e, f) (cc a), rw (e, f) (rw e (cc b)))
        | inr f ↦ (rw (e, f) a, rw (e, f) (rw e b))
      ]
    ]

module _ (id run : ℕ) (open_before : List TaskRun) where
  -- The task is there, and the open runs, this one left aside, are those of before.
  abbrev pub Holds : TaskRow Schedule → TaskTables Schedule → Type 0
  Holds row tables = (get_task id tables ≡ some row) × (other_runs run tables.runs ≡ open_before)

  -- The run is closed, no other was opened or closed, and the task is free of its lease.
  abbrev pub IsSettled : TaskTables Schedule → Type 0
  IsSettled tables =
      (open_runs tables.runs ≡ open_before)
      × ((row : TaskRow Schedule) × (get_task id tables ≡ some row)
          × (row.lease_until ≡ none)
          × (row.status ≢ cancelled))

  -- A run that was ended, maybe twice.
  abbrev Ended : TaskTables Schedule → Type 0
  Ended tables = IsSettled tables × ((row : TaskRow Schedule) × Holds row tables)

  module _ (row : TaskRow Schedule) (tables : TaskTables Schedule) (holds : Holds row tables)
      (ended : ℕ) where
    fail-Ended : (e : Text) → Ended (fail_task_run ended run id e none tables)
    unfolding fail_task_run failed_row get_task
    fail-Ended e =
        let at_end : TaskRow Schedule = failed_row ended e none row in
        let (shut, others) =
          closed_runs run
            (λ r. record r { run_status = run_failed; finished_at = some ended; error = some e })
            tables.runs (λ r. (refl, refl)) in
        let held = get-update ended id tables row holds.0 (failed_row ended e none) (λ r. refl) in
        ((shut ∙ holds.1, (at_end, held, refl, λ x. cc x)), (at_end, (held, others ∙ holds.1)))

    not_cancelled :
        (terminal : Bool) → ◌≢◌ {A = TaskStatus} (if terminal then completed else active) cancelled
    not_cancelled true x = cc
    not_cancelled false x = cc

    complete-Ended :
        (content : Text) (next : Option ℕ) (terminal : Bool)
        → Ended (complete_task_run ended run id content next terminal tables)
    unfolding complete_task_run completed_row get_task
    complete-Ended content next terminal =
        let at_end : TaskRow Schedule = completed_row ended content next terminal row in
        let (shut, others) =
          closed_runs run
            (λ r. record r {
              run_status = success;
              finished_at = some ended;
              result = some content;
            })
            tables.runs (λ r. (refl, refl)) in
        let held =
          get-update ended id tables row holds.0 (completed_row ended content next terminal)
            (λ r. refl) in
        (
          (shut ∙ holds.1, (at_end, held, refl, not_cancelled terminal)),
          (at_end, (held, others ∙ holds.1)),
        )

  module _ {M : Type 0} (clocks : Clocks) (sends : Text → Option Text) (schedule_error : Text)
      (now ended : ℕ) (effects : List Effect) (pending : Pending Arguments M) where
    announce-Ended :
        (text : Text) (tables : TaskTables Schedule)
        → Ended tables
        → IsSettled
            (announce clocks sends schedule_error id run now ended text tables effects
              pending).tables
    unfolding announce handle_exception
    announce-Ended text tables (settled, (row, holds)) = by_send (sends text) refl
      where
        by_send :
            (o : Option Text)
            → sends text ≡ o
            → IsSettled
                (announce clocks sends schedule_error id run now ended text tables effects
                  pending).tables
        by_send none e = rw (e, announce) settled
        by_send (some x) e = rw (e, announce) (fail-Ended row tables holds ended x).0

    complete-IsSettled :
        (task row : TaskRow Schedule) (tables : TaskTables Schedule) (content : Text)
        (c : Completion)
        → Holds row tables
        → IsSettled
            (complete clocks sends schedule_error id run now ended task content c tables effects
              pending).tables
    unfolding complete handle_exception
    complete-IsSettled task row tables content (cannot_complete e) holds =
        (fail-Ended row tables holds ended e).0
    complete-IsSettled task row tables content (completes next terminal) holds =
        announce-Ended _ _ (complete-Ended row tables holds ended content next terminal)

    pub close_run-IsSettled :
        (task row : TaskRow Schedule) (answer : Answered) (tables : TaskTables Schedule)
        → Holds row tables
        → IsSettled
            (close_run clocks sends schedule_error id run now ended task answer tables effects
              pending).tables
    unfolding close_run handle_exception
    close_run-IsSettled task row (answer_stopped text) tables holds =
        announce-Ended _ _ (fail-Ended row tables holds ended text)
    close_run-IsSettled task row (answer_failed e) tables holds =
        (fail-Ended row tables holds ended e).0
    close_run-IsSettled task row (answer_given content) tables holds =
        complete-IsSettled task row tables content (completion clocks schedule_error now task) holds
