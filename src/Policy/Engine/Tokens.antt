-- ===== src/Policy/Engine/Tokens.antt =====
-- ufoundry/policy/engine.py: a confirmation is consumed once, and by whom.
use ufoundry.Base.{
  ◌≡◌, refl, ◌∙◌, ◌⊎◌, inl, inr, Bool, true, false, ◌||◌, Option, none, some, [], ◌∷◌, ◌++◌, Text,
  codes, text_eq, pair_eq, ◌==◌, ==_iff, Bool-cases, arith, is_empty, strip, upper, starts_with,
  after_space, IsSolid, is_space, text_beq, strip-ends, strip-solid, lookup, without,
  lookup-store_self, lookup-without_self,
}
use ufoundry.Policy.Engine.{
  Key, ToolCall, Origin, PendingConfirmation, Pending, confirmation, create_confirmation, pop_found,
  last_key, first_key, of_chat, of_token, consume_token, consume_confirmation,
}

-- Whom a reply of the chat lets consume.
abbrev pub Taken : Text → Text → Key → Type 0
Taken chat_id text key =
    (key.0 ≡ chat_id)
    ⊎ (starts_with (upper (strip text)) (codes "YES ") ≡ true)
      × (key.1 ≡ strip (after_space (strip text)))

-- The text of a token: `token_hex` gives hexadecimal digits.
abbrev pub IsToken : Text → Type 0
IsToken token = (is_empty token ≡ false) × IsSolid token

module _ {A M : Type 0} where
  first_key-test :
      (test : Key → Bool) (pending : Pending A M) {key : Key}
      → first_key test pending ≡ some key
      → test key ≡ true
  unfolding first_key
  first_key-test test [] h = cc
  first_key-test test ((k, p) ∷ rest) h = elim (Bool-cases (test k)) [
    | inl e ↦ ground arith
    | inr e ↦ first_key-test test rest (rw e at h)
  ]

  last_key-test :
      (test : Key → Bool) (pending : Pending A M) {key : Key}
      → last_key test pending ≡ some key
      → test key ≡ true
  unfolding last_key
  last_key-test test [] h = cc
  last_key-test test ((k, p) ∷ rest) {key} h =
      go (last_key test rest) refl (λ e. last_key-test test rest e)
    where
      go :
          (later : Option Key)
          → last_key test rest ≡ later
          → (last_key test rest ≡ some key → test key ≡ true)
          → test key ≡ true
      go none e ih = elim (Bool-cases (test k)) [
        | inl now ↦ ground arith
        | inr other ↦ ground arith
      ]
      go (some j) e ih = ih (e ∙ (rw (e, last_key) at h))

  -- What it takes for an entry to be consumed.
  abbrev pub Consumes :
      Pending A M
      → (Option (PendingConfirmation A M) × Pending A M)
      → (Key → Type 0)
      → PendingConfirmation A M
      → Type 0
  Consumes pending r Q p =
      (key : Key) × Q key
      × (lookup key pending ≡ some p)
      × (r.1 ≡ without key pending)
      × (lookup key r.1 ≡ none)

  pop_found-Consumes :
      (Q : Key → Type 0) (pending : Pending A M) (found : Option Key) (p : PendingConfirmation A M)
      → ((key : Key) → found ≡ some key → Q key)
      → (pop_found pending found).0 ≡ some p
      → Consumes pending (pop_found pending found) Q p
  unfolding pop_found
  pop_found-Consumes Q pending none p q h = cc
  pop_found-Consumes Q pending (some key) p q h =
      (key, q key refl, h, refl, lookup-without_self key pending)

  consume_token-Consumes :
      (pending : Pending A M) (chat_id token : Text) (p : PendingConfirmation A M)
      → (consume_token pending chat_id token).0 ≡ some p
      → Consumes pending (consume_token pending chat_id token) (λ key. key.1 ≡ token) p
  unfolding consume_token
  consume_token-Consumes pending chat_id token p h = go (lookup (chat_id, token) pending) refl
    where
      go :
          (own : Option (PendingConfirmation A M))
          → lookup (chat_id, token) pending ≡ own
          → Consumes pending (consume_token pending chat_id token) (λ key. key.1 ≡ token) p
      go (some q) e =
          rw (e, consume_token)
            (
              (chat_id, token),
              refl,
              e ∙ (rw (e, consume_token) at h),
              refl,
              lookup-without_self (chat_id, token) pending,
            )
      go none e =
          rw (e, consume_token)
            (pop_found-Consumes (λ key. key.1 ≡ token) pending (first_key (of_token token) pending)
              p
              (λ key found. (==_iff key.1 token).0 (first_key-test (of_token token) pending found))
              (rw (e, consume_token) at h))

  -- A reply that consumes a confirmation gives back the entry of one key and removes it, so that
  -- the key cannot be consumed again. A plain "y" or "yes" takes an entry of the chat itself. A
  -- longer reply takes one whose token stands behind "YES ", which may be of another chat.
  pub consume_confirmation_once :
      (pending : Pending A M) (chat_id text : Text) (p : PendingConfirmation A M)
      → (consume_confirmation pending chat_id text).0 ≡ some p
      → Consumes pending (consume_confirmation pending chat_id text) (Taken chat_id text) p
  unfolding consume_confirmation
  consume_confirmation_once pending chat_id text p h =
      let capitals = upper (strip text) in
      let plain = capitals == codes "Y" || capitals == codes "YES" in
      let longer = starts_with capitals (codes "YES ") in
      elim (Bool-cases plain) [
        | inl e ↦ rw e (
            pop_found-Consumes (Taken chat_id text) pending (last_key (of_chat chat_id) pending) p
              (λ key found.
                inl ((==_iff key.0 chat_id).0 (last_key-test (of_chat chat_id) pending found)))
              (rw e at h))
        | inr e ↦ elim (Bool-cases longer) [
          | inl f ↦
              rw (e, f)
                (let (key, named, there, after, gone) =
                    consume_token-Consumes pending chat_id (strip (after_space (strip text))) p
                      (rw (e, f) at h) in
                  (key, inr (refl, named), there, after, gone))
          | inr f ↦ cc (rw (e, f) at h)
        ]
      ]

  -- A confirmation that was requested under a token is the one that "YES <token>" from the same
  -- chat consumes, and its key is free afterwards.
  pub consume-request :
      (pending : Pending A M) (token : Text) (call : ToolCall A M) (origin : Origin A M)
      → IsToken token
      → consume_confirmation
          (create_confirmation pending token call origin)
          origin.chat_id
          (codes "YES " ++ token)
        ≡ (
          some (confirmation token call origin),
          without (origin.chat_id, token) (create_confirmation pending token call origin),
        )
  unfolding consume_confirmation consume_token create_confirmation
  consume-request pending token call origin (solid, ink) =
      let message : strip (codes "YES " ++ token) ≡ codes "YES " ++ token =
        strip-ends 89 (codes "ES ") token (unfold is_space in refl) solid ink in
      rw message (
        unfold text_beq upper starts_with after_space in
        rw (strip-solid token solid ink) (
          let stored =
            lookup-store_self (origin.chat_id, token) (confirmation token call origin) pending in
          rw (stored, consume_token)))
