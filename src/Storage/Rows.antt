-- ===== src/Storage/Rows.antt =====
-- Tables: selection, update and insertion of rows by id.
use ufoundry.Base.{
  ℕ, ◌≡◌, ◌+◌, ◌<◌, refl, ap, Bool, true, false, Bool-cases, inl, inr, ◌==◌, nat_eq, Option, none,
  some, List, [], ◌∷◌, ◌++◌, map, All, In, filter, if◌then◌else◌, arith, eqb, eqb_iff,
}

module _ {R : Type 0} where
  -- SELECT ... WHERE test ORDER BY id LIMIT 1
  unfoldable pub select_first : (R → Bool) → List R → Option R
  select_first test [] = none
  select_first test (row ∷ rows) =
      let next = select_first test rows in if test row then some row else next

  -- UPDATE ... SET change WHERE test
  unfoldable pub update_where : (R → Bool) → (R → R) → List R → List R
  update_where test change rows = map (λ row. if test row then change row else row) rows

  -- Where `select_first` finds its row, and that those before it fail the test.
  abbrev pub First : (R → Bool) → List R → R → Type 0
  First test rows row =
      (before : List R) × (after : List R) × (rows ≡ before ++ row ∷ after)
      × (test row ≡ true)
      × All (λ r. test r ≡ false) before

  pub select_first-some :
      (test : R → Bool) (rows : List R) (row : R)
      → select_first test rows ≡ some row
      → First test rows row
  unfolding select_first
  select_first-some test [] row h = cc h
  select_first-some test (r ∷ rows) row h = elim (Bool-cases (test r)) [
    | inl e ↦ let same : r ≡ row = ground arith in ([], rows, cc same, rw same at e, tt)
    | inr e ↦
        let (before, after, split, t, fail) = select_first-some test rows row (rw e at h) in
        (r ∷ before, after, cc split, t, (e, fail))
  ]

  pub select_first-none :
      (test : R → Bool) (rows : List R) → select_first test rows ≡ none → filter test rows ≡ []
  unfolding select_first
  select_first-none test [] h = refl
  select_first-none test (r ∷ rows) h = elim (Bool-cases (test r)) [
    | inl e ↦ cc (rw e at h)
    | inr e ↦ rw e (select_first-none test rows (rw e at h))
  ]

  pub filter-First :
      (test : R → Bool) (rows : List R) (row : R)
      → test row ≡ true
      → (before after : List R) → All (λ r. test r ≡ false) before
      → filter test (before ++ row ∷ after) ≡ row ∷ filter test after
  filter-First test rows row t [] after fail = rw t refl
  filter-First test rows row t (b ∷ before) after fail =
      rw fail.0 (filter-First test rows row t before after fail.1)

-- `key` is the column `id`.
module _ {R : Type 0} (key : R → ℕ) where
  -- Ids ascend, from `low` on, and are below `next`.
  abbrev pub IsOrdered : ℕ → ℕ → List R → Type 0
  IsOrdered low next [] = low < next + 1
  IsOrdered low next (row ∷ rows) = (low < key row + 1) × IsOrdered (key row + 1) next rows

  pub IsOrdered-insert :
      (low next : ℕ) (rows : List R) (row : R)
      → key row ≡ next
      → IsOrdered low next rows
      → IsOrdered low (next + 1) (rows ++ row ∷ [])
  IsOrdered-insert low next [] row e h = (omega (arith, e, h), omega (arith, e))
  IsOrdered-insert low next (r ∷ rows) row e h =
      (h.0, IsOrdered-insert (key r + 1) next rows row e h.1)

  pub IsOrdered-update :
      (test : R → Bool) (change : R → R) (low next : ℕ) (rows : List R)
      → ((row : R) → key (change row) ≡ key row)
      → IsOrdered low next rows
      → IsOrdered low next (update_where test change rows)
  unfolding update_where
  IsOrdered-update test change low next [] same h = h
  IsOrdered-update test change low next (r ∷ rows) same h = elim (Bool-cases (test r)) [
    | inl e ↦ rw (e, same r) (h.0, IsOrdered-update test change (key r + 1) next rows same h.1)
    | inr e ↦ rw e (h.0, IsOrdered-update test change (key r + 1) next rows same h.1)
  ]

  -- Rows whose ids are from `low` on are not touched by an update at a smaller id.
  pub update-below :
      (change : R → R) (id low next : ℕ) (rows : List R)
      → id < low
      → IsOrdered low next rows
      → update_where (λ r. key r == id) change rows ≡ rows
  unfolding update_where
  update-below change id low next [] less h = refl
  update-below change id low next (r ∷ rows) less h =
      let other : eqb (key r) id ≡ false = ground (arith, h.0) in
      rw other (cc (update-below change id (key r + 1) next rows (omega (arith, less, h.0)) h.1))

  pub IsOrdered-least :
      (row : R) (low next : ℕ) (before after : List R)
      → IsOrdered low next (before ++ row ∷ after)
      → low < key row + 1
  IsOrdered-least row low next [] after h = h.0
  IsOrdered-least row low next (b ∷ before) after h =
      omega (arith, h.0, IsOrdered-least row (key b + 1) next before after h.1)

  -- An update by the id of one row changes that row only.
  pub update-at :
      (change : R → R) (row : R) (low next : ℕ) (before after : List R)
      → IsOrdered low next (before ++ row ∷ after)
      → update_where (λ r. key r == key row) change (before ++ row ∷ after)
        ≡ before ++ change row ∷ after
  unfolding update_where
  update-at change row low next [] after h =
      rw ((eqb_iff (key row) (key row)).1 refl)
        (cc (update-below change (key row) (key row + 1) next after (omega arith) h.1))
  update-at change row low next (b ∷ before) after h =
      let later = IsOrdered-least row (key b + 1) next before after h.1 in
      let other : eqb (key b) (key row) ≡ false = ground (arith, later) in
      rw other (cc (update-at change row (key b + 1) next before after h.1))

  In-least :
      (row : R) (low next : ℕ) (rows : List R)
      → IsOrdered low next rows
      → In row rows
      → low < key row + 1
  In-least row low next [] h m = absurd m
  In-least row low next (r ∷ rows) h (inl e) = omega (arith, h.0, ap key e)
  In-least row low next (r ∷ rows) h (inr m) =
      omega (arith, h.0, In-least row (key r + 1) next rows h.1 m)

  -- An id stands for one row.
  pub IsOrdered-unique :
      (low next : ℕ) (rows : List R) (r s : R)
      → IsOrdered low next rows
      → In r rows
      → In s rows
      → key r ≡ key s
      → r ≡ s
  IsOrdered-unique low next [] r s h m k e = absurd m
  IsOrdered-unique low next (x ∷ rows) r s h (inl a) (inl b) e = cc (a, b)
  IsOrdered-unique low next (x ∷ rows) r s h (inl a) (inr b) e =
      absurd (omega (arith, ap key a, e, In-least s (key x + 1) next rows h.1 b))
  IsOrdered-unique low next (x ∷ rows) r s h (inr a) (inl b) e =
      absurd (omega (arith, ap key b, e, In-least r (key x + 1) next rows h.1 a))
  IsOrdered-unique low next (x ∷ rows) r s h (inr a) (inr b) e =
      IsOrdered-unique (key x + 1) next rows r s h.1 a b e

-- A row that stays where its table is updated.
pub In-update :
    {R : Type 0} (test : R → Bool) (change : R → R) (row : R) (rows : List R)
    → In row rows
    → In (if test row then change row else row) (update_where test change rows)
unfolding update_where
In-update test change row [] m = absurd m
In-update test change row (r ∷ rows) (inl e) = inl (rw e refl)
In-update test change row (r ∷ rows) (inr m) = inr (In-update test change row rows m)

abbrev pub on_row : {R : Type 0} → (R → R) → Option R → Option R
on_row f none = none
on_row f (some row) = some (f row)

-- The row that a table holds under a test, after an update that the test does not notice.
pub select_first-update :
    {R : Type 0} (test sought : R → Bool) (change : R → R) (rows : List R)
    → ((row : R) → sought (change row) ≡ sought row)
    → select_first sought (update_where test change rows)
      ≡ on_row (λ row. if test row then change row else row) (select_first sought rows)
unfolding select_first update_where
select_first-update test sought change [] same = refl
select_first-update test sought change (r ∷ rows) same =
    let rest = select_first-update test sought change rows same in
    elim (Bool-cases (test r)) [
      | inl e ↦ elim (Bool-cases (sought r)) [
        | inl f ↦ rw (e, same r, f) (rw e refl)
        | inr f ↦ rw (e, same r, f) rest
      ]
      | inr e ↦ elim (Bool-cases (sought r)) [
        | inl f ↦ rw (e, f) (rw e refl)
        | inr f ↦ rw (e, f) rest
      ]
    ]
