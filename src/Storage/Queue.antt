-- ===== src/Storage/Queue.antt =====
-- ufoundry/storage/db.py, the table `queue_jobs`: `enqueue_job`, `claim_job`, `complete_job` and
-- `fail_job`. The payload's JSON is of a type `P`. The clock is an argument, as is the time that
-- `_future` gives for the lease.
pub mod Claims
pub mod Life
use ufoundry.Base.{
  ℕ, zero, suc, ◌+◌, Bool, true, false, ◌&&◌, ◌||◌, ◌==◌, nat_eq, Option, none, some, List, [], ◌∷◌,
  ◌++◌, Text, ltb, if◌then◌else◌,
}
use ufoundry.Storage.Rows.{select_first, update_where}

pub data JobStatus : Type 0 where
  queued leased done failed : JobStatus

pub record JobRow (P : Type 0) : Type 0 where
  pub id : ℕ
  pub chat_id : Text
  pub channel : Text
  pub payload : P
  pub status : JobStatus
  pub created_at : ℕ
  pub updated_at : ℕ
  pub lease_until : Option ℕ
  pub attempts : ℕ
  pub last_error : Option Text

-- `next_id` is the id that SQLite's AUTOINCREMENT draws next.
pub record JobTable (P : Type 0) : Type 0 where
  pub rows : List (JobRow P)
  pub next_id : ℕ

-- lease_until < now, which is not true of NULL
abbrev pub is_before : Option ℕ → ℕ → Bool
is_before none now = false
is_before (some time) now = ltb time now

module _ {P : Type 0} where
  unfoldable pub new_job : ℕ → Text → Text → P → ℕ → JobRow P
  new_job id chat_id channel payload now = record {
    id = id;
    chat_id = chat_id;
    channel = channel;
    payload = payload;
    status = queued;
    created_at = now;
    updated_at = now;
    lease_until = none;
    attempts = 0;
    last_error = none;
  }

  unfoldable pub enqueue_job : ℕ → Text → Text → P → JobTable P → ℕ × JobTable P
  unfolding new_job
  enqueue_job now chat_id channel payload table = (
    table.next_id,
    record {
      rows = table.rows ++ new_job table.next_id chat_id channel payload now ∷ [];
      next_id = table.next_id + 1;
    },
  )

  -- status = 'queued' OR (status = 'leased' AND lease_until < now)
  unfoldable pub is_claimable : ℕ → JobRow P → Bool
  is_claimable now row = elim row.status [
    | queued ↦ true
    | leased ↦ is_before row.lease_until now
    | done ↦ false
    | failed ↦ false
  ]

  unfoldable pub leased_row : ℕ → ℕ → JobRow P → JobRow P
  leased_row now lease row = record row {
    status = leased;
    lease_until = some lease;
    updated_at = now;
    attempts = row.attempts + 1;
  }

  abbrev pub has_id : ℕ → JobRow P → Bool
  has_id id row = row.id == id

  abbrev pub with_rows : JobTable P → List (JobRow P) → JobTable P
  with_rows table rows = record table { rows = rows }

  -- The update of the row that was found, and the row that is read back.
  pub claim_found : ℕ → ℕ → JobTable P → Option (JobRow P) → Option (JobRow P) × JobTable P
  unfolding leased_row
  claim_found now lease table none = (none, table)
  claim_found now lease table (some row) =
      let rows = update_where (has_id row.id) (leased_row now lease) table.rows in
      (select_first (has_id row.id) rows, with_rows table rows)

  unfoldable pub claim_job : ℕ → ℕ → JobTable P → Option (JobRow P) × JobTable P
  unfolding claim_found
  claim_job now lease table =
      claim_found now lease table (select_first (is_claimable now) table.rows)

  unfoldable pub complete_job : ℕ → ℕ → JobTable P → JobTable P
  complete_job now id table =
      with_rows table (
        update_where (has_id id) (λ row. record row { status = done; updated_at = now }) table.rows)

  unfoldable pub fail_job : ℕ → ℕ → Text → JobTable P → JobTable P
  fail_job now id error table = with_rows table (
      update_where (has_id id)
        (λ row. record row { status = failed; last_error = some error; updated_at = now })
        table.rows)
