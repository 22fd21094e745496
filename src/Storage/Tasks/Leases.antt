-- ===== src/Storage/Tasks/Leases.antt =====
-- ufoundry/storage/db.py, `lease_due_tasks`: a task that is leased is not leased again before its
-- lease ends.
use ufoundry.Base.{
  ℕ, ◌≡◌, ◌≤◌, refl, true, false, Bool-cases, inl, inr, ◌==◌, nat_eq, List, [], ◌∷◌, map, All,
  All-filter, All-take, All-map, All-every, All-sort_by, contains, filter, take, sort_by,
  if◌then◌else◌, arith,
}
use ufoundry.Storage.Rows.{update_where}
use ufoundry.Storage.Tasks.{
  TaskRow, TaskTables, is_task, is_due, leased_task, lease_each, due_ids, runs_first,
  lease_due_tasks,
}

-- What holds of the ids of all tasks that are due holds of those that are taken.
due_ids-All :
    {P : Type 0} (now limit : ℕ) (Q : ℕ → Type 0) (tasks : List (TaskRow P))
    → All (λ row. is_due now row ≡ true → Q row.id) tasks
    → All Q (due_ids now limit tasks)
unfolding due_ids
due_ids-All now limit Q tasks h =
    All-map Q (λ row. row.id) (take limit (sort_by runs_first (filter (is_due now) tasks)))
      (All-take (λ row. Q row.id) limit (sort_by runs_first (filter (is_due now) tasks))
        (All-sort_by runs_first (λ row. Q row.id) (filter (is_due now) tasks)
          (All-filter (λ row. is_due now row ≡ true → Q row.id) (λ row. Q row.id) (is_due now) tasks
            (λ row f. f) h)))

module _ {P : Type 0} (now lease : ℕ) where
  -- What the updates of a lease make of a row.
  abbrev after_lease : List ℕ → TaskRow P → TaskRow P
  after_lease ids row = if contains ids row.id then leased_task now lease row else row

  after_lease-cons :
      (id : ℕ) (ids : List ℕ) (row : TaskRow P)
      → after_lease ids (if row.id == id then leased_task now lease row else row)
        ≡ after_lease (id ∷ ids) row
  unfolding leased_task
  after_lease-cons id ids row = elim (Bool-cases (row.id == id)) [
    | inl e ↦ elim (Bool-cases (contains ids row.id)) [
      | inl f ↦ rw (e, f) refl
      | inr f ↦ rw (e, f) refl
    ]
    | inr e ↦ rw e refl
  ]

  map-after_lease :
      (id : ℕ) (ids : List ℕ) (tasks : List (TaskRow P))
      → map (after_lease ids) (update_where (is_task id) (leased_task now lease) tasks)
        ≡ map (after_lease (id ∷ ids)) tasks
  unfolding update_where
  map-after_lease id ids [] = refl
  map-after_lease id ids (row ∷ tasks) =
      cc (after_lease-cons id ids row, map-after_lease id ids tasks)

  map_same : (tasks : List (TaskRow P)) → tasks ≡ map (after_lease []) tasks
  map_same [] = refl
  map_same (row ∷ tasks) = cc (map_same tasks)

  -- The loop of updates changes the tasks of the list, and each in the same way.
  lease_each-map :
      (ids : List ℕ) (tasks : List (TaskRow P))
      → lease_each now lease ids tasks ≡ map (after_lease ids) tasks
  unfolding lease_each
  lease_each-map [] tasks = map_same tasks
  lease_each-map (id ∷ ids) tasks =
      rw (lease_each-map ids (update_where (is_task id) (leased_task now lease) tasks))
        (map-after_lease id ids tasks)

  due-unleased :
      (ids : List ℕ) (later : ℕ) (row : TaskRow P)
      → later ≤ lease
      → is_due later (after_lease ids row) ≡ true
      → contains ids (after_lease ids row).id ≡ false
  unfolding is_due leased_task
  due-unleased ids later row le h = elim (Bool-cases (contains ids row.id)) [
    | inl e ↦ absurd (still_leased row le (rw e at h))
    | inr e ↦ rw e e
  ]
    where
      still_leased :
          (row : TaskRow P) → later ≤ lease → is_due later (leased_task now lease row) ≡ true → ⊥
      still_leased row le h = ground (arith, le, h)

  -- A task that is leased is not leased again at any instant up to the end of its lease, however
  -- many are taken at a time.
  pub lease_due_tasks-once :
      (limit later next_limit : ℕ) (tables : TaskTables P)
      → later ≤ lease
      → All
          (λ id. contains (due_ids now limit tables.tasks) id ≡ false)
          (due_ids later next_limit (lease_due_tasks now lease limit tables).1.tasks)
  unfolding lease_due_tasks due_ids
  lease_due_tasks-once limit later next_limit tables le =
      let ids = due_ids now limit tables.tasks in
      rw (lease_each-map ids tables.tasks) (
        due_ids-All later next_limit (λ id. contains ids id ≡ false)
          (map (after_lease ids) tables.tasks)
          (All-map (λ row. is_due later row ≡ true → contains ids row.id ≡ false) (after_lease ids)
            tables.tasks
            (All-every
              (λ row.
                is_due later (after_lease ids row) ≡ true
                → contains ids (after_lease ids row).id ≡ false)
              tables.tasks (λ row. due-unleased ids later row le))))
