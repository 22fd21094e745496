-- ===== src/Connectors/Resilience/Breaker.antt =====
-- ufoundry/connectors/telegram_resilience.py, CircuitBreaker: against a specification without its
-- counters.
use ufoundry.Base.{
  ℕ, ◌≡◌, refl, ◌+◌, ◌-◌, ◌≤◌, Bool, true, false, Bool-cases, inl, inr, List, [], ◌∷◌, leb,
  if◌then◌else◌, arith, leb→le, le→leb,
}
use ufoundry.Connectors.Resilience.{
  CbState, closed, opened, half_open, CircuitBreaker, new_breaker, is_open, record_success,
  record_failure,
}

pub data Event : Type 0 where
  asks fails : ℕ → Event
  succeeds : Event

-- A resource that works after `n` failures in a row, one that is shut off since a time, and one
-- that is tried again.
pub data Phase : Type 0 where
  healthy shut : ℕ → Phase
  probing : Phase

module _ (threshold cooldown : ℕ) where
  -- The answers of `is_open` to a sequence of events.
  pub answers : List Event → CircuitBreaker → List Bool
  answers [] b = []
  answers (asks now ∷ events) b =
      let asked = is_open cooldown now b in asked.0 ∷ answers events asked.1
  answers (succeeds ∷ events) b = answers events (record_success b)
  answers (fails now ∷ events) b = answers events (record_failure threshold now b)

  -- What the breaker promises: it opens at the threshold of failures in a row; while open it blocks
  -- until the cooldown has passed since the last failure; then it lets calls through until one
  -- succeeds, which closes it, or fails, which opens it again.
  pub promised : List Event → Phase → List Bool
  promised [] phase = []
  promised (asks now ∷ events) (healthy n) = false ∷ promised events (healthy n)
  promised (asks now ∷ events) probing = false ∷ promised events probing
  promised (asks now ∷ events) (shut since) =
      let open_now = true ∷ promised events (shut since) in
      if leb cooldown (now - since) then false ∷ promised events probing else open_now
  promised (succeeds ∷ events) phase = promised events (healthy 0)
  promised (fails now ∷ events) (healthy n) =
      let counted_on = promised events (healthy (n + 1)) in
      if leb threshold (n + 1) then promised events (shut now) else counted_on
  promised (fails now ∷ events) (shut since) = promised events (shut now)
  promised (fails now ∷ events) probing = promised events (shut now)

  abbrev phase_of : CircuitBreaker → Phase
  phase_of b = elim b.state [
    | closed ↦ healthy b.failure_count
    | opened ↦ shut b.opened_at
    | half_open ↦ probing
  ]

  -- A breaker that is not closed has counted up to its threshold.
  abbrev Counts : CircuitBreaker → Type 0
  Counts b = elim b.state [
    | closed ↦ Unit
    | opened ↦ threshold ≤ b.failure_count
    | half_open ↦ threshold ≤ b.failure_count
  ]

  answers-promised :
      (events : List Event) (state : CbState) (n at : ℕ)
      → Counts (record { state = state; failure_count = n; opened_at = at })
      → answers events (record { state = state; failure_count = n; opened_at = at })
        ≡ promised events (phase_of (record { state = state; failure_count = n; opened_at = at }))
  unfolding answers promised is_open record_success record_failure
  answers-promised [] state n at h = refl
  answers-promised (succeeds ∷ events) state n at h = answers-promised events closed 0 at tt
  answers-promised (asks now ∷ events) closed n at h = cc (answers-promised events closed n at h)
  answers-promised (asks now ∷ events) half_open n at h =
      cc (answers-promised events half_open n at h)
  answers-promised (asks now ∷ events) opened n at h = elim (Bool-cases (leb cooldown (now - at))) [
    | inl e ↦ rw e (cc (answers-promised events half_open n at h))
    | inr e ↦ rw e (cc (answers-promised events opened n at h))
  ]
  answers-promised (fails now ∷ events) closed n at h = elim (Bool-cases (leb threshold (n + 1))) [
    | inl e ↦ rw e (answers-promised events opened (n + 1) now (leb→le threshold (n + 1) e))
    | inr e ↦ rw e (answers-promised events closed (n + 1) at tt)
  ]
  answers-promised (fails now ∷ events) half_open n at h =
      answers-promised events opened (n + 1) now (omega (arith, h))
  answers-promised (fails now ∷ events) opened n at h =
      let reached : threshold ≤ n + 1 = omega (arith, h) in
      rw (le→leb threshold (n + 1) reached) (answers-promised events opened (n + 1) now reached)

  -- A new breaker answers every sequence of checks, successes and failures as its specification
  -- does, which knows no count of failures but that of a resource that works: it opens at the
  -- threshold of failures in a row, blocks until the cooldown has passed since the last failure,
  -- and then lets all calls through until one succeeds or fails.
  pub answers-promised_new :
      (events : List Event) → answers events new_breaker ≡ promised events (healthy 0)
  answers-promised_new events = answers-promised events closed 0 0 tt
