-- ===== src/Storage/Sessions/Found.antt =====
-- ufoundry/storage/db.py: a session is found again, and so are its last messages.
use ufoundry.Base.{
  ℕ, suc, ◌+◌, ◌≡◌, ◌≢◌, refl, sym, ap, subst, ◌∙◌, Bool, true, ==_iff, ==_refl, Bool-cases, inl,
  inr, Option, some, none, List, [], ◌∷◌, ◌++◌, map, reverse, append-nil, Text, text_eq, filter,
  take, if◌then◌else◌, arith, eqb, eqb_iff,
}
use mathlib.Core.List.{reverse-append, map-append}
use ufoundry.Storage.Rows.{select_first}
use ufoundry.Storage.Sessions.{
  SessionKey, SessionRow, MessageRow, SessionTables, is_key, has_key, find_session, new_session,
  get_or_create_session, new_message, add_message, of_session, list_recent_messages,
}

is_key_iff : (a b : SessionKey) → (is_key a b ≡ true) → a ≡ b
is_key_iff a b h =
    ground (
      arith,
      ==_iff b.chat_id a.chat_id,
      ==_iff b.channel a.channel,
      ==_iff b.connector a.connector,
    )

is_key_refl : (a : SessionKey) → is_key a a ≡ true
is_key_refl a = rw (==_refl a.chat_id, ==_refl a.channel, ==_refl a.connector) refl

abbrev or_row : {R : Type 0} → Option R → Option R → Option R
or_row (some r) later = some r
or_row none later = later

-- The first of the rows in front, or else the row behind them.
select_first-behind :
    {R : Type 0} (test : R → Bool) (row : R) (rows : List R)
    → select_first test (rows ++ row ∷ [])
      ≡ or_row (select_first test rows) (if test row then some row else none)
unfolding select_first
select_first-behind test row [] = refl
select_first-behind test row (r ∷ rows) = elim (Bool-cases (test r)) [
  | inl e ↦ rw e refl
  | inr e ↦ rw e (select_first-behind test row rows)
]

or_row-none : {R : Type 0} (o : Option R) → or_row o none ≡ o
or_row-none none = refl
or_row-none (some r) = refl

module _ (now : ℕ) (key : SessionKey) (tables : SessionTables) where
  abbrev got : ℕ × SessionTables
  got = get_or_create_session now key tables

  -- The session is found again, and no other is touched.
  abbrev pub FoundAgain : ℕ × SessionTables → Type 0
  FoundAgain r =
      ((later : ℕ) → get_or_create_session later key r.1 ≡ r)
      × ((other : SessionKey) → other ≢ key → find_session other r.1 ≡ find_session other tables)
      × (r.1.messages ≡ tables.messages)

  abbrev inserted : SessionTables
  inserted = record tables {
    sessions = tables.sessions ++ new_session now key tables ∷ [];
    next_session = tables.next_session + 1;
  }

  inserted-FoundAgain : find_session key tables ≡ none → FoundAgain (tables.next_session, inserted)
  unfolding get_or_create_session find_session new_session
  inserted-FoundAgain e =
      let new = new_session now key tables in
      let own : find_session key inserted ≡ some new =
        rw (select_first-behind (has_key key) new tables.sessions) (rw (e, is_key_refl key) refl) in
      (
        λ later. rw (own, get_or_create_session) refl,
        λ other apart. elim (Bool-cases (is_key other key)) [
          | inl h ↦ absurd (apart (is_key_iff other key h))
          | inr h ↦
              rw (select_first-behind (has_key other) new tables.sessions)
                (rw h (or_row-none (find_session other tables)))
        ],
        refl,
      )

  by_search : (o : Option SessionRow) → find_session key tables ≡ o → FoundAgain got
  unfolding get_or_create_session
  by_search (some row) e =
      let found : got ≡ (row.id, tables) = rw (e, get_or_create_session) refl in
      subst FoundAgain (sym found)
        ((λ later. rw (e, get_or_create_session) refl), (λ other apart. refl), refl)
  by_search none e =
      let created : got ≡ (tables.next_session, inserted) = rw (e, get_or_create_session) refl in
      subst FoundAgain (sym created) (inserted-FoundAgain e)

  -- Asking again for a session, at any time, gives the same id and changes nothing. A session of
  -- another chat, channel or connector is found as before, and no message is changed.
  pub get_or_create_session-FoundAgain : FoundAgain got
  get_or_create_session-FoundAgain = by_search (find_session key tables) refl

filter-append :
    {R : Type 0} (test : R → Bool) (xs : List R) (x : R)
    → filter test (xs ++ x ∷ []) ≡ filter test xs ++ (if test x then x ∷ [] else [])
filter-append test [] x = elim (Bool-cases (test x)) [ inl e ↦ rw e refl | inr e ↦ rw e refl ]
filter-append test (y ∷ xs) x = elim (Bool-cases (test y)) [
  | inl e ↦ rw e (cc (filter-append test xs x))
  | inr e ↦ rw e (filter-append test xs x)
]

module _ (now id : ℕ) (role content : Text) (limit : ℕ) (tables : SessionTables) where
  -- A message that is added is the last of the recent messages of its session, behind the recent
  -- ones from before; the recent messages of other sessions stay.
  pub list_recent_messages-add_message :
      (list_recent_messages id (suc limit) (add_message now id role content tables).1
        ≡ list_recent_messages id limit tables ++ (role, content) ∷ [])
      × ((other : ℕ)
          → other ≢ id
          → list_recent_messages other limit (add_message now id role content tables).1
            ≡ list_recent_messages other limit tables)
  unfolding list_recent_messages add_message new_message
  list_recent_messages-add_message =
      let new = new_message now id role content tables in
      let old = filter (of_session id) tables.messages in
      let shown : MessageRow → Text × Text = λ row. (row.role, row.content) in
      (
        rw (filter-append (of_session id) tables.messages new) (
            rw ((eqb_iff id id).1 refl) (
              rw (reverse-append old (new ∷ [])) (
                ap (map shown) (reverse-append (new ∷ []) (take limit (reverse old)))
                ∙ map-append shown (reverse (take limit (reverse old))) (new ∷ [])))),
        λ other apart. elim (Bool-cases (eqb id other)) [
          | inl h ↦ absurd (apart (sym ((eqb_iff id other).0 h)))
          | inr h ↦
              rw (filter-append (of_session other) tables.messages new) (rw h (rw append-nil refl))
        ],
      )
