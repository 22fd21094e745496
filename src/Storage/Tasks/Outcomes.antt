-- ===== src/Storage/Tasks/Outcomes.antt =====
-- ufoundry/storage/db.py: when a task is due after its run ended.
use ufoundry.Base.{
  ℕ, ◌≡◌, refl, ap, Bool, true, false, not, ◌&&◌, Bool-cases, inl, inr, Option, some, Text, arith,
  eqb,
}
use ufoundry.Storage.Rows.{select_first, update_where, select_first-update, select_first-some}
use ufoundry.Storage.Tasks.{
  TaskRow, TaskTables, is_cancelled, is_reached, is_task, is_due, get_task, cancelled_row,
  cancel_task, completed_row, complete_task_run, coalesce, failed_row, fail_task_run,
}

-- The task `id` of the tables, which is due at `later` exactly if `verdict` is true.
abbrev pub DueAs : {P : Type 0} → ℕ → TaskTables P → ℕ → Bool → Type 0
DueAs {P = P} id after later verdict =
    (r : TaskRow P) × (get_task id after ≡ some r) × (is_due later r ≡ verdict)

module _ {P : Type 0} (now id : ℕ) (tables : TaskTables P) (row : TaskRow P)
    (held : get_task id tables ≡ some row) where
  -- The row under an id after an update by that id.
  pub get-update :
      (change : TaskRow P → TaskRow P)
      → ((r : TaskRow P) → (change r).id ≡ r.id)
      → select_first (is_task id) (update_where (is_task id) change tables.tasks)
        ≡ some (change row)
  unfolding get_task
  get-update change same =
      let (_, _, _, here, _) = select_first-some (is_task id) tables.tasks row held in
      rw
        (select_first-update (is_task id) (is_task id) change tables.tasks
          (λ r. ap (λ i. eqb i id) (same r)))
        (rw held (rw here refl))

  and_true : (b : Bool) → (b && true) ≡ b
  and_true true = refl
  and_true false = refl

  cancel-DueAs : (later : ℕ) → DueAs id (cancel_task now id tables).1 later false
  unfolding cancel_task cancelled_row get_task is_due
  cancel-DueAs later =
      let (_, _, _, here, _) = select_first-some (is_task id) tables.tasks row held in
      let open_task = λ (r : TaskRow P). is_task id r && not (is_cancelled r.status) in
      let after =
        select_first-update open_task (is_task id) (cancelled_row now) tables.tasks (λ r. refl) in
      elim (Bool-cases (is_cancelled row.status)) [
        | inl e ↦ (row, rw after (rw held (rw (here, e) refl)), ground (arith, e))
        | inr e ↦ (cancelled_row now row, rw after (rw held (rw (here, e) refl)), refl)
      ]

  -- A task that was cancelled, or whose run was completed for good, is due at no time. Whatever
  -- the status of a task was, cancelled or completed included, it is due again after a run that is
  -- completed with a next time exactly when that time is reached, and after a run that failed
  -- exactly when the time given is reached, or without one the time that the task had.
  pub task_outcomes :
      (run later : ℕ) (result error : Text) (next : Option ℕ)
      → DueAs id (cancel_task now id tables).1 later false
        × DueAs id (complete_task_run now run id result next true tables) later false
        × DueAs id
            (complete_task_run now run id result next false tables)
            later
            (is_reached next later)
        × DueAs id
            (fail_task_run now run id error next tables)
            later
            (is_reached (coalesce next row.next_run_at) later)
  unfolding complete_task_run completed_row fail_task_run failed_row get_task is_due
  task_outcomes run later result error next = (
    cancel-DueAs later,
    (
      completed_row now result next true row,
      get-update (completed_row now result next true) (λ r. refl),
      refl,
    ),
    (
      completed_row now result next false row,
      get-update (completed_row now result next false) (λ r. refl),
      and_true (is_reached next later),
    ),
    (
      failed_row now error next row,
      get-update (failed_row now error next) (λ r. refl),
      and_true (is_reached (coalesce next row.next_run_at) later),
    ),
  )
