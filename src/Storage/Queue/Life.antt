-- ===== src/Storage/Queue/Life.antt =====
-- ufoundry/storage/db.py, the table `queue_jobs` through any sequence of operations, by any number
-- of workers: each operation holds the database's lock, so they come one after the other.
use ufoundry.Base.{
  ℕ, ◌≡◌, ◌≢◌, refl, ap, Bool, true, false, Bool-cases, inl, inr, some, List, [], ◌∷◌, ◌++◌, Text,
  In, In-append, arith,
}
use ufoundry.Storage.Rows.{
  update_where, IsOrdered-update, IsOrdered-insert, IsOrdered-unique, In-update,
}
use ufoundry.Storage.Queue.{
  JobStatus, queued, leased, done, failed, JobRow, JobTable, is_claimable, leased_row, has_id,
  with_rows, claim_job, new_job, enqueue_job, complete_job, fail_job,
}
use ufoundry.Storage.Queue.Claims.{IsOrderedTable, updated-IsOrdered, claim_job-Claimed}

unfoldable pub is_settled : JobStatus → Bool
is_settled queued = false
is_settled leased = false
is_settled done = true
is_settled failed = true

module _ {P : Type 0} where
  -- One operation on the table.
  pub data JobStep : JobTable P → JobTable P → Type 0 where
    enqueues :
        {t : JobTable P} (now : ℕ) (chat_id channel : Text) (payload : P)
        → JobStep t (enqueue_job now chat_id channel payload t).1
    claims : {t : JobTable P} (now lease : ℕ) → JobStep t (claim_job now lease t).1
    completes : {t : JobTable P} (now id : ℕ) → JobStep t (complete_job now id t)
    fails : {t : JobTable P} (now id : ℕ) (error : Text) → JobStep t (fail_job now id error t)

  pub data JobRun : JobTable P → JobTable P → Type 0 where
    run_none : {t : JobTable P} → JobRun t t
    run_more : {t u v : JobTable P} → JobRun t u → JobStep u v → JobRun t v

  -- The job `id` is done or failed.
  abbrev pub Settled : ℕ → JobTable P → Type 0
  Settled id table =
      (row : JobRow P) × In row table.rows × (row.id ≡ id) × (is_settled row.status ≡ true)

  claim-ordered :
      (now lease : ℕ) (t : JobTable P) → IsOrderedTable t → IsOrderedTable (claim_job now lease t).1
  claim-ordered now lease t h = elim (claim_job-Claimed now lease t h) [
    | inl (_, e) ↦ rw e h
    | inr (row, before, after, (split, _, _, e)) ↦
        rw e (updated-IsOrdered now lease t h row before after split)
  ]

  pub JobStep-ordered : {t u : JobTable P} → JobStep t u → IsOrderedTable t → IsOrderedTable u
  unfolding enqueue_job new_job complete_job fail_job
  JobStep-ordered {t = t} (enqueues now chat_id channel payload) h =
      IsOrdered-insert (λ row. row.id) 0 t.next_id t.rows
        (new_job t.next_id chat_id channel payload now) refl h
  JobStep-ordered {t = t} (claims now lease) h = claim-ordered now lease t h
  JobStep-ordered {t = t} (completes now id) h =
      IsOrdered-update (λ row. row.id) (has_id id)
        (λ row. record row { status = done; updated_at = now }) 0 t.next_id t.rows (λ row. refl) h
  JobStep-ordered {t = t} (fails now id error) h =
      IsOrdered-update (λ row. row.id) (has_id id)
        (λ row. record row { status = failed; last_error = some error; updated_at = now }) 0
        t.next_id t.rows (λ row. refl) h

  -- An update that keeps ids, and settled rows settled, keeps a job settled.
  update-Settled :
      (id : ℕ) (t : JobTable P) (test : JobRow P → Bool) (change : JobRow P → JobRow P)
      → ((row : JobRow P) → (change row).id ≡ row.id)
      → ((row : JobRow P) → is_settled (change row).status ≡ true)
      → Settled id t
      → Settled id (with_rows t (update_where test change t.rows))
  update-Settled id t test change same settles (row, m, e, settled) =
      let kept = In-update test change row t.rows m in
      elim (Bool-cases (test row)) [
        | inl y ↦ (change row, rw y at kept, cc (same row, e), settles row)
        | inr y ↦ (row, rw y at kept, e, settled)
      ]

  -- A claim leases a row that was not settled.
  module _ (now lease id : ℕ) (t : JobTable P) (h : IsOrderedTable t) (s : Settled id t) where
    not_claimable : (row : JobRow P) → is_settled row.status ≡ true → is_claimable now row ≡ false
    unfolding is_settled is_claimable
    not_claimable row e = ground arith

    claim-other :
        (row : JobRow P) (before after : List (JobRow P))
        → t.rows ≡ before ++ row ∷ after
        → is_claimable now row ≡ true
        → row.id ≢ id
    claim-other row before after split e same =
        let (r, m, k, settled) = s in
        let here : In row t.rows =
          rw split ((In-append row before (row ∷ after)).1 (inr (inl refl))) in
        let one = IsOrdered-unique (λ x. x.id) 0 t.next_id t.rows r row h m here (cc (k, same)) in
        cc (e, not_claimable row (rw one at settled))

    claim-Settled : Settled id (claim_job now lease t).1
    unfolding leased_row
    claim-Settled = elim (claim_job-Claimed now lease t h) [
      | inl (_, e) ↦ rw e s
      | inr (row, before, after, (split, y, _, e)) ↦
          let (r, m, k, settled) = s in
          rw e (
            r,
            elim ((In-append r before (row ∷ after)).0 (rw split at m)) [
              | inl left ↦ (In-append r before (leased_row now lease row ∷ after)).1 (inl left)
              | inr (inl same) ↦ absurd (claim-other row before after split y (cc (same, k)))
              | inr (inr right) ↦
                  (In-append r before (leased_row now lease row ∷ after)).1 (inr (inr right))
            ],
            k,
            settled,
          )
    ]

    claim_job-other : (row : JobRow P) → (claim_job now lease t).0 ≡ some row → row.id ≢ id
    unfolding leased_row
    claim_job-other row given = elim (claim_job-Claimed now lease t h) [
      | inl (_, e) ↦ absurd (cc (rw e at given))
      | inr (r, before, after, (split, y, _, e)) ↦
          let same : leased_row now lease r ≡ row = cc (rw e at given) in
          λ k. claim-other r before after split y (cc (ap (λ x. x.id) same, k))
    ]

  JobStep-Settled :
      {t u : JobTable P} (id : ℕ) → JobStep t u → IsOrderedTable t → Settled id t → Settled id u
  unfolding enqueue_job complete_job fail_job is_settled
  JobStep-Settled {t = t} id (enqueues now chat_id channel payload) h (r, m, k, settled) = (
    r,
    (In-append r t.rows (new_job t.next_id chat_id channel payload now ∷ [])).1 (inl m),
    k,
    settled,
  )
  JobStep-Settled {t = t} id (claims now lease) h s = claim-Settled now lease id t h s
  JobStep-Settled {t = t} id (completes now j) h s =
      update-Settled id t (has_id j) (λ row. record row { status = done; updated_at = now })
        (λ row. refl) (λ row. refl) s
  JobStep-Settled {t = t} id (fails now j error) h s =
      update-Settled id t (has_id j)
        (λ row. record row { status = failed; last_error = some error; updated_at = now })
        (λ row. refl) (λ row. refl) s

  pub JobRun-IsOrdered : {t u : JobTable P} → JobRun t u → IsOrderedTable t → IsOrderedTable u
  JobRun-IsOrdered run_none h = h
  JobRun-IsOrdered (run_more run step) h = JobStep-ordered step (JobRun-IsOrdered run h)

  -- A job that is done or failed stays so through all operations on the queue that follow, and no
  -- claim after them hands it out again.
  pub JobRun-Settled :
      {t u : JobTable P} (id : ℕ)
      → JobRun t u
      → IsOrderedTable t
      → Settled id t
      → Settled id u
        × ((now lease : ℕ) (row : JobRow P) → (claim_job now lease u).0 ≡ some row → row.id ≢ id)
  JobRun-Settled {t = t} id run_none h s = (s, λ now lease. claim_job-other now lease id t h s)
  JobRun-Settled {u = u} id (run_more run step) h s =
      let ordered = JobRun-IsOrdered run h in
      let settled = JobStep-Settled id step ordered (JobRun-Settled id run h s).0 in
      (settled, λ now lease. claim_job-other now lease id u (JobStep-ordered step ordered) settled)
