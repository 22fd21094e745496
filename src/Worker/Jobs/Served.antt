-- ===== src/Worker/Jobs/Served.antt =====
-- ufoundry/worker.py and ufoundry/storage/db.py: a job that a worker claims comes to an end.
use ufoundry.Base.{
  ℕ, ◌≡◌, ◌≢◌, refl, ap, Bool, eqb_iff, inl, inr, Option, none, some, [], ◌∷◌, ◌++◌, Text, In,
  In-append, Bool-cases, nat_eq,
}
use ufoundry.Storage.Rows.{update_where, In-update}
use ufoundry.Storage.Queue.{
  JobRow, JobTable, done, failed, has_id, with_rows, leased_row, new_job, claim_job, enqueue_job,
  complete_job, fail_job,
}
use ufoundry.Storage.Queue.Claims.{IsOrderedTable, claim_job-Claimed}
use ufoundry.Storage.Queue.Life.{
  JobStep, enqueues, claims, completes, fails, JobRun, run_none, run_more, JobStep-ordered,
  JobRun-IsOrdered, is_settled, Settled, JobRun-Settled,
}
use ufoundry.Worker.Jobs.{JobHandlers, process_job, end_job, serve}

module _ {P : Type 0} where
  abbrev HasJob : ℕ → JobTable P → Type 0
  HasJob id t = (row : JobRow P) × In row t.rows × (row.id ≡ id)

  update-HasJob :
      (id : ℕ) (t : JobTable P) (test : JobRow P → Bool) (change : JobRow P → JobRow P)
      → ((row : JobRow P) → (change row).id ≡ row.id)
      → HasJob id t
      → HasJob id (with_rows t (update_where test change t.rows))
  update-HasJob id t test change same (row, m, e) =
      let kept = In-update test change row t.rows m in
      elim (Bool-cases (test row)) [
        | inl y ↦ (change row, rw y at kept, cc (same row, e))
        | inr y ↦ (row, rw y at kept, e)
      ]

  claim-HasJob :
      (now lease id : ℕ) (t : JobTable P)
      → IsOrderedTable t
      → HasJob id t
      → HasJob id (claim_job now lease t).1
  unfolding leased_row
  claim-HasJob now lease id t h (r, m, k) = elim (claim_job-Claimed now lease t h) [
    | inl (_, e) ↦ rw e (r, m, k)
    | inr (row, before, after, (split, _, _, e)) ↦
        let new = before ++ leased_row now lease row ∷ after in
        rw e (elim ((In-append r before (row ∷ after)).0 (rw split at m)) [
          | inl left ↦ (r, (In-append r before (leased_row now lease row ∷ after)).1 (inl left), k)
          | inr (inl same) ↦ (
            leased_row now lease row,
            (In-append (leased_row now lease row) before (leased_row now lease row ∷ after)).1
                (inr (inl refl)),
            cc (ap (λ x. x.id) same, k),
          )
          | inr (inr right) ↦
              (r, (In-append r before (leased_row now lease row ∷ after)).1 (inr (inr right)), k)
        ])
  ]

  -- Rows are never taken from the table.
  JobStep-HasJob :
      {t u : JobTable P} (id : ℕ) → JobStep t u → IsOrderedTable t → HasJob id t → HasJob id u
  unfolding enqueue_job complete_job fail_job
  JobStep-HasJob {t = t} id (enqueues now chat_id channel payload) h (r, m, k) =
      (r, (In-append r t.rows (new_job t.next_id chat_id channel payload now ∷ [])).1 (inl m), k)
  JobStep-HasJob {t = t} id (claims now lease) h j = claim-HasJob now lease id t h j
  JobStep-HasJob {t = t} id (completes now other) h j =
      update-HasJob id t (has_id other) (λ row. record row { status = done; updated_at = now })
        (λ row. refl) j
  JobStep-HasJob {t = t} id (fails now other error) h j =
      update-HasJob id t (has_id other)
        (λ row. record row { status = failed; last_error = some error; updated_at = now })
        (λ row. refl) j

  JobRun-HasJob :
      {t u : JobTable P} (id : ℕ) → JobRun t u → IsOrderedTable t → HasJob id t → HasJob id u
  JobRun-HasJob id run_none h j = j
  JobRun-HasJob id (run_more run step) h j =
      JobStep-HasJob id step (JobRun-IsOrdered run h) (JobRun-HasJob id run h j)

  -- A job that is handed out is in the table.
  claimed-HasJob :
      (now lease : ℕ) (t : JobTable P) (job : JobRow P)
      → IsOrderedTable t
      → (claim_job now lease t).0 ≡ some job
      → HasJob job.id (claim_job now lease t).1
  claimed-HasJob now lease t job h given = elim (claim_job-Claimed now lease t h) [
    | inl (_, e) ↦ absurd (cc (rw e at given))
    | inr (row, before, after, (_, _, _, e)) ↦
        let same : leased_row now lease row ≡ job = cc (rw e at given) in
        rw e (
          leased_row now lease row,
          (In-append (leased_row now lease row) before (leased_row now lease row ∷ after)).1
              (inr (inl refl)),
          ap (λ x. x.id) same,
        )
  ]

  end_job-Settled :
      (now : ℕ) (job : JobRow P) (error : Option Text) (t : JobTable P)
      → HasJob job.id t
      → Settled job.id (end_job now job error t)
  unfolding end_job complete_job fail_job is_settled
  end_job-Settled now job none t (row, m, k) =
      let kept =
        In-update (has_id job.id) (λ r. record r { status = done; updated_at = now }) row t.rows
          m in
      (
        record row { status = done; updated_at = now },
        rw ((eqb_iff row.id job.id).1 k) at kept,
        k,
        refl,
      )
  end_job-Settled now job (some e) t (row, m, k) =
      let kept =
        In-update (has_id job.id)
          (λ r. record r { status = failed; last_error = some e; updated_at = now }) row t.rows m in
      (
        record row { status = failed; last_error = some e; updated_at = now },
        rw ((eqb_iff row.id job.id).1 k) at kept,
        k,
        refl,
      )

  end_job-ordered :
      (now : ℕ) (job : JobRow P) (error : Option Text) (t : JobTable P)
      → IsOrderedTable t
      → IsOrderedTable (end_job now job error t)
  unfolding end_job
  end_job-ordered now job none t h = JobStep-ordered (completes now job.id) h
  end_job-ordered now job (some e) t h = JobStep-ordered (fails now job.id e) h

  -- A job that a worker claims is done or failed once the worker's iteration ends, whatever its
  -- handler did and whatever operations of others came in between; and no claim after that, through
  -- any further operations, hands it out again.
  pub serve-Settled :
      (handlers : JobHandlers P) (job_type : P → Option Text) (t : JobTable P) {u v : JobTable P}
      (now lease end : ℕ) (job : JobRow P)
      → IsOrderedTable t
      → (claim_job now lease t).0 ≡ some job
      → JobRun (claim_job now lease t).1 u
      → JobRun (serve handlers job_type end job u) v
      → Settled job.id (serve handlers job_type end job u)
        × ((later until : ℕ) (other : JobRow P)
            → (claim_job later until v).0 ≡ some other
            → other.id ≢ job.id)
  unfolding serve
  serve-Settled handlers job_type t {u = u} now lease end job h given run after =
      let error = process_job handlers job_type job.payload in
      let claimed = JobStep-ordered (claims {t = t} now lease) h in
      let settled =
        end_job-Settled end job error u
          (JobRun-HasJob job.id run claimed (claimed-HasJob now lease t job h given)) in
      let ended = end_job-ordered end job error u (JobRun-IsOrdered run claimed) in
      (settled, (JobRun-Settled job.id after ended settled).1)
