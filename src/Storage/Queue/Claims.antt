-- ===== src/Storage/Queue/Claims.antt =====
-- ufoundry/storage/db.py, `claim_job`: which jobs are handed out, and in which order.
use ufoundry.Base.{
  ℕ, zero, suc, ◌≡◌, ◌+◌, ◌≤◌, refl, sym, ap, true, false, inl, inr, ◌⊎◌, Option, none, some, List,
  [], ◌∷◌, ◌++◌, map, take, All, filter, arith, eqb, eqb_iff,
}
use ufoundry.Storage.Rows.{
  select_first, update_where, select_first-some, select_first-none, filter-First, IsOrdered,
  update-at, IsOrdered-update, IsOrdered-least,
}
use ufoundry.Storage.Queue.{
  JobRow, JobTable, is_claimable, leased_row, has_id, with_rows, claim_found, claim_job,
}

abbrev pub IsOrderedTable : {P : Type 0} → JobTable P → Type 0
IsOrderedTable table = IsOrdered (λ row. row.id) 0 table.next_id table.rows

module _ {P : Type 0} (now lease : ℕ) where
  -- The row is found again after its update.
  select-updated :
      (row : JobRow P) (low next : ℕ) (before after : List (JobRow P))
      → IsOrdered (λ r. r.id) low next (before ++ row ∷ after)
      → select_first (has_id row.id) (before ++ leased_row now lease row ∷ after)
        ≡ some (leased_row now lease row)
  unfolding select_first leased_row
  select-updated row low next [] after h = rw ((eqb_iff row.id row.id).1 refl) refl
  select-updated row low next (b ∷ before) after h =
      let later = IsOrdered-least (λ r. r.id) row (b.id + 1) next before after h.1 in
      let other : eqb b.id row.id ≡ false = ground (arith, later) in
      rw other (select-updated row (b.id + 1) next before after h.1)

  -- What a claim does where it finds a row.
  abbrev pub Claimed : JobTable P → JobRow P → List (JobRow P) → List (JobRow P) → Type 0
  Claimed table row before after =
      (table.rows ≡ before ++ row ∷ after)
      × (is_claimable now row ≡ true)
      × All (λ r. is_claimable now r ≡ false) before
      × (claim_job now lease table ≡ (
        some (leased_row now lease row),
        with_rows table (before ++ leased_row now lease row ∷ after),
      ))

  module _ (table : JobTable P) (ordered : IsOrderedTable table) (row : JobRow P)
      (before after : List (JobRow P)) where
    updated :
        table.rows ≡ before ++ row ∷ after
        → update_where (has_id row.id) (leased_row now lease) table.rows
          ≡ before ++ leased_row now lease row ∷ after
    unfolding leased_row
    updated split = rw split (
        update-at (λ r. r.id) (leased_row now lease) row 0 table.next_id before after
          (rw split at ordered))

    pub updated-IsOrdered :
        table.rows ≡ before ++ row ∷ after
        → IsOrderedTable (with_rows table (before ++ leased_row now lease row ∷ after))
    unfolding leased_row
    updated-IsOrdered split = rw (sym (updated split)) (
        IsOrdered-update (λ r. r.id) (has_id row.id) (leased_row now lease) 0 table.next_id
          table.rows (λ r. refl) ordered)

    claimed :
        select_first (is_claimable now) table.rows ≡ some row
        → table.rows ≡ before ++ row ∷ after
        → claim_job now lease table ≡ (
          some (leased_row now lease row),
          with_rows table (before ++ leased_row now lease row ∷ after),
        )
    unfolding claim_job claim_found
    claimed h split =
        rw (h, claim_job)
          (rw (updated split, claim_found)
            (rw (select-updated row 0 table.next_id before after (rw split at ordered)) refl))

  by_found :
      (table : JobTable P) (found : Option (JobRow P))
      → IsOrderedTable table
      → select_first (is_claimable now) table.rows ≡ found
      → ((filter (is_claimable now) table.rows ≡ []) × (claim_job now lease table ≡ (none, table)))
        ⊎ ((row : JobRow P) × (before : List (JobRow P)) × (after : List (JobRow P)) × Claimed table
              row before after)
  unfolding claim_job claim_found
  by_found table none ordered h =
      inl (select_first-none (is_claimable now) table.rows h, rw (h, claim_job) refl)
  by_found table (some row) ordered h =
      let (before, after, split, t, fail) = select_first-some (is_claimable now) table.rows row h in
      inr (row, before, after, (split, t, fail, claimed table ordered row before after h split))

  -- A claim hands out the first row, by id, that is queued or whose lease ran out; it leases that
  -- row until `lease`, counts the attempt, and leaves all other rows as they are. If there is no
  -- such row it hands out nothing and changes nothing.
  pub claim_job-Claimed :
      (table : JobTable P)
      → IsOrderedTable table
      → ((filter (is_claimable now) table.rows ≡ []) × (claim_job now lease table ≡ (none, table)))
        ⊎ ((row : JobRow P) × (before : List (JobRow P)) × (after : List (JobRow P)) × Claimed table
              row before after)
  claim_job-Claimed table ordered =
      by_found table (select_first (is_claimable now) table.rows) ordered refl

  abbrev pub or_cons : Option (JobRow P) → List ℕ → List ℕ
  or_cons none ids = ids
  or_cons (some row) ids = row.id ∷ ids

  -- The ids of the jobs that `n` claims at one instant hand out.
  pub handed_out : ℕ → JobTable P → List ℕ
  handed_out zero table = []
  handed_out (suc n) table =
      let claimed = claim_job now lease table in
      let rest = handed_out n claimed.1 in or_cons claimed.0 rest

  abbrev claimable_ids : JobTable P → List ℕ
  claimable_ids table = map (λ row. row.id) (filter (is_claimable now) table.rows)

  filter-skip :
      (row : JobRow P) (before after : List (JobRow P))
      → All (λ r. is_claimable now r ≡ false) before
      → is_claimable now row ≡ false
      → filter (is_claimable now) (before ++ row ∷ after) ≡ filter (is_claimable now) after
  filter-skip row [] after fail e = rw e refl
  filter-skip row (b ∷ before) after fail e = rw fail.0 (filter-skip row before after fail.1 e)

  leased-not_claimable :
      (row : JobRow P) → now ≤ lease → is_claimable now (leased_row now lease row) ≡ false
  unfolding is_claimable leased_row
  leased-not_claimable row le = ground (arith, le)

  handed_out-none :
      (n : ℕ) (table : JobTable P)
      → claim_job now lease table ≡ (none, table)
      → handed_out n table ≡ []
  unfolding handed_out
  handed_out-none zero table e = refl
  handed_out-none (suc n) table e = rw (e, handed_out) (handed_out-none n table e)

  -- The claims that are made at one instant hand out the jobs that are queued or whose lease ran
  -- out, in the order of their ids and each job once, until there are none left: `n` claims hand
  -- out the first `n` of them.
  pub handed_out-claimable :
      (n : ℕ) (table : JobTable P)
      → now ≤ lease
      → IsOrderedTable table
      → handed_out n table ≡ take n (map (λ row. row.id) (filter (is_claimable now) table.rows))
  unfolding handed_out leased_row
  handed_out-claimable zero table le ordered = refl
  handed_out-claimable (suc n) table le ordered = elim (claim_job-Claimed table ordered) [
    | inl (empty, e) ↦ rw empty (handed_out-none (suc n) table e)
    | inr (row, before, after, (split, t, fail, e)) ↦
        let new = with_rows table (before ++ leased_row now lease row ∷ after) in
        let rest =
          handed_out-claimable n new le (updated-IsOrdered table ordered row before after split) in
        let left =
          filter-skip (leased_row now lease row) before after fail (leased-not_claimable row le) in
        let all_of = filter-First (is_claimable now) table.rows row t before after fail in
        rw (e, handed_out) (rw (split, all_of) (ap (λ ids. row.id ∷ ids) (rw left at rest)))
  ]
