-- ===== src/Policy/Engine/Filed.antt =====
-- ufoundry/policy/engine.py: each waiting confirmation is filed under its own chat and token.
use ufoundry.Base.{
  ◌≡◌, refl, inl, inr, ◌⊎◌, ◌∙◌, ◌||◌, codes, strip, upper, starts_with, after_space, true, Option,
  none, some, List, [], ◌∷◌, Text, text_eq, pair_eq, ◌==◌, ==_iff, Bool-cases, All, store, without,
  lookup,
}
use ufoundry.Tools.Registry.{ToolRegistry}
use ufoundry.Policy.Engine.Verdicts.{evaluate_cases}
use ufoundry.Policy.Engine.Tokens.{consume_confirmation_once}
use ufoundry.Policy.Engine.{
  Key, ToolCall, Origin, PendingConfirmation, Pending, confirmation, create_confirmation,
  request_confirmation, pop_found, first_key, last_key, of_chat, of_token, consume_token,
  consume_confirmation, evaluate,
}

module _ {A M : Type 0} where
  abbrev pub IsFiled : Pending A M → Type 0
  IsFiled = All (λ (entry : Key × PendingConfirmation A M).
      (entry.1.chat_id ≡ entry.0.0) × (entry.1.token ≡ entry.0.1))

  store-IsFiled :
      (key : Key) (p : PendingConfirmation A M) (pending : Pending A M)
      → p.chat_id ≡ key.0
      → p.token ≡ key.1
      → IsFiled pending
      → IsFiled (store key p pending)
  unfolding store
  store-IsFiled key p [] c t h = ((c, t), tt)
  store-IsFiled key p ((k, q) ∷ pending) c t h = elim (Bool-cases (k == key)) [
    | inl e ↦ let same = (==_iff k key).0 e in rw e ((rw same c, rw same t), h.1)
    | inr e ↦ rw e (h.0, store-IsFiled key p pending c t h.1)
  ]

  without-IsFiled :
      (key : Key) (pending : Pending A M) → IsFiled pending → IsFiled (without key pending)
  unfolding without
  without-IsFiled key [] h = tt
  without-IsFiled key ((k, q) ∷ pending) h = elim (Bool-cases (k == key)) [
    | inl e ↦ rw e (without-IsFiled key pending h.1)
    | inr e ↦ rw e (h.0, without-IsFiled key pending h.1)
  ]

  pop_found-IsFiled :
      (pending : Pending A M) (found : Option Key)
      → IsFiled pending
      → IsFiled (pop_found pending found).1
  unfolding pop_found
  pop_found-IsFiled pending none h = h
  pop_found-IsFiled pending (some key) h = without-IsFiled key pending h

  consume_token-IsFiled :
      (pending : Pending A M) (chat_id token : Text)
      → IsFiled pending
      → IsFiled (consume_token pending chat_id token).1
  unfolding consume_token
  consume_token-IsFiled pending chat_id token h = go (lookup (chat_id, token) pending)
    where
      go :
          (own : Option (PendingConfirmation A M))
          → IsFiled
              (elim own as (λ _. Option (PendingConfirmation A M) × Pending A M) [
                | some p ↦ (some p, without (chat_id, token) pending)
                | none ↦ pop_found pending (first_key (of_token token) pending)
              ]).1
      go (some p) = without-IsFiled (chat_id, token) pending h
      go none = pop_found-IsFiled pending (first_key (of_token token) pending) h

  consume_confirmation-IsFiled :
      (pending : Pending A M) (chat_id text : Text)
      → IsFiled pending
      → IsFiled (consume_confirmation pending chat_id text).1
  unfolding consume_confirmation
  consume_confirmation-IsFiled pending chat_id text h =
      let capitals = upper (strip text) in
      elim (Bool-cases (capitals == codes "Y" || capitals == codes "YES")) [
        | inl e ↦ rw e (pop_found-IsFiled pending (last_key (of_chat chat_id) pending) h)
        | inr e ↦ elim (Bool-cases (starts_with capitals (codes "YES "))) [
          | inl f ↦ rw (e, f) (consume_token-IsFiled pending chat_id _ h)
          | inr f ↦ rw (e, f) h
        ]
      ]

  create_confirmation-IsFiled :
      (pending : Pending A M) (token : Text) (call : ToolCall A M) (origin : Origin A M)
      → IsFiled pending
      → IsFiled (create_confirmation pending token call origin)
  unfolding create_confirmation
  create_confirmation-IsFiled pending token call origin h =
      store-IsFiled (origin.chat_id, token) (confirmation token call origin) pending refl refl h

  lookup-IsFiled :
      (key : Key) (pending : Pending A M) (p : PendingConfirmation A M)
      → IsFiled pending
      → lookup key pending ≡ some p
      → (p.chat_id ≡ key.0) × (p.token ≡ key.1)
  unfolding lookup
  lookup-IsFiled key [] p h e = cc
  lookup-IsFiled key ((k, q) ∷ pending) p h e = elim (Bool-cases (k == key)) [
    | inl f ↦
        let same = (==_iff k key).0 f in
        let e' : some q ≡ some p = rw f at e in let found : q ≡ p = cc in rw (← same, ← found) h.0
    | inr f ↦ lookup-IsFiled key pending p h.1 (rw f at e)
  ]

-- The steps that change the waiting confirmations, from an engine that was just made.
module _ {S A M : Type 0} (H : Type 0) (check : A → S → Option Text) where
  pub data Reach : Pending A M → Type 0 where
    start : Reach []
    evaluated :
        {pending : Pending A M} (tools : ToolRegistry S H) (allowed : List Text) (token : Text)
        (call : ToolCall A M) (origin : Origin A M)
        → Reach pending
        → Reach (evaluate check tools allowed pending token call origin).1
    requested :
        {pending : Pending A M} (token : Text) (call : ToolCall A M) (origin : Origin A M)
        (reason : Option Text)
        → Reach pending
        → Reach (request_confirmation pending token call origin reason).1
    consumed :
        {pending : Pending A M} (chat_id text : Text)
        → Reach pending
        → Reach (consume_confirmation pending chat_id text).1

  evaluate-IsFiled :
      (tools : ToolRegistry S H) (allowed : List Text) (call : ToolCall A M) (pending : Pending A M)
      (token : Text) (origin : Origin A M)
      → IsFiled pending
      → IsFiled (evaluate check tools allowed pending token call origin).1
  evaluate-IsFiled tools allowed call pending token origin h =
      elim (evaluate_cases check tools allowed call pending token origin) [
        | inl ((reason, e), _) ↦ rw e h
        | inr (inl (name, tool, p, (red, e))) ↦
            rw e (create_confirmation-IsFiled pending token call origin h)
        | inr (inr (name, tool, p, (other, e))) ↦ rw e h
      ]

  Reach-IsFiled : {pending : Pending A M} → Reach pending → IsFiled pending
  unfolding request_confirmation
  Reach-IsFiled start = tt
  Reach-IsFiled (evaluated tools allowed token call origin r) =
      evaluate-IsFiled tools allowed call _ token origin (Reach-IsFiled r)
  Reach-IsFiled (requested token call origin reason r) =
      create_confirmation-IsFiled _ token call origin (Reach-IsFiled r)
  Reach-IsFiled (consumed chat_id text r) =
      consume_confirmation-IsFiled _ chat_id text (Reach-IsFiled r)

  -- Whatever was evaluated, requested and consumed before, a reply of a chat consumes only a
  -- confirmation that was filed for that chat, or one whose token stands behind "YES " in it.
  pub consumed_matches :
      {pending : Pending A M} (chat_id text : Text) (p : PendingConfirmation A M)
      → Reach pending
      → (consume_confirmation pending chat_id text).0 ≡ some p
      → (p.chat_id ≡ chat_id)
        ⊎ (starts_with (upper (strip text)) (codes "YES ") ≡ true)
          × (p.token ≡ strip (after_space (strip text)))
  consumed_matches {pending} chat_id text p r h =
      let (key, taken, there, after, gone) = consume_confirmation_once pending chat_id text p h in
      let (c, t) = lookup-IsFiled key pending p (Reach-IsFiled r) there in
      elim taken [ inl own ↦ inl (c ∙ own) | inr (yes_token, named) ↦ inr (yes_token, t ∙ named) ]
