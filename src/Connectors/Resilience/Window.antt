-- ===== src/Connectors/Resilience/Window.antt =====
-- ufoundry/connectors/telegram_resilience.py, `_wait_for_slot`: the send limit.
use ufoundry.Base.{
  ℕ, ◌≡◌, refl, sym, le→leb, lt→ltb, ◌+◌, ◌-◌, ◌≤◌, ◌<◌, true, Bool-cases, inl, inr, List, [], ◌∷◌,
  ◌++◌, All, length, length-append, ltb, ltb→lt, leb, if◌then◌else◌, arith,
}
use ufoundry.Connectors.Resilience.{expire, try_slot, full_slot, slot_taken, slot_wait}

module _ (second margin limit : ℕ) where
  length-expire-le : (now : ℕ) (window : List ℕ) → length (expire second now window) ≤ length window
  unfolding expire
  length-expire-le now [] = omega arith
  length-expire-le now (time ∷ window) = elim (Bool-cases (leb second (now - time))) [
    | inl e ↦ rw e (omega (arith, length-expire-le now window))
    | inr e ↦ rw e (omega arith)
  ]

  All-expire :
      (now bound : ℕ) (window : List ℕ)
      → All (λ t. t ≤ bound) window
      → All (λ t. t ≤ bound) (expire second now window)
  unfolding expire
  All-expire now bound [] h = tt
  All-expire now bound (time ∷ window) h = elim (Bool-cases (leb second (now - time))) [
    | inl e ↦ rw e (All-expire now bound window h.1)
    | inr e ↦ rw e h
  ]

  -- After the nap the first entry is gone.
  napped :
      (now nap time : ℕ) (rest : List ℕ)
      → time ≤ now
      → nap ≡ second - (now - time) + margin
      → length (expire second (now + nap) (time ∷ rest)) ≤ length rest
  unfolding expire
  napped now nap time rest le e =
      let gone : leb second (now + nap - time) ≡ true =
        le→leb second (now + nap - time) (omega (arith, le, e)) in
      rw gone (length-expire-le (now + nap) rest)

  wakes :
      (now nap : ℕ) (live found : List ℕ)
      → (if ltb (length live) limit
          then slot_taken (live ++ now ∷ [])
          else full_slot second margin now live)
        ≡ slot_wait nap found
      → length live ≤ limit
      → All (λ t. t ≤ now) live
      → (found ≡ live) × (length (expire second (now + nap) found) < limit)
  unfolding full_slot
  wakes now nap live found h bound past = elim (Bool-cases (ltb (length live) limit)) [
    | inl e ↦ absurd (cc (rw e at h))
    | inr e ↦ full live (rw e at h) bound past
  ]
    where
      full :
          (live : List ℕ)
          → full_slot second margin now live ≡ slot_wait nap found
          → length live ≤ limit
          → All (λ t. t ≤ now) live
          → (found ≡ live) × (length (expire second (now + nap) found) < limit)
      full [] h bound past = cc h
      full (time ∷ rest) h bound past =
          let same : found ≡ time ∷ rest = cc h in
          (same, rw same (omega (arith, bound, napped now nap time rest past.0 (cc h))))

  -- A call that has to sleep sleeps long enough: if the window is as the call left it when it
  -- wakes up, the next iteration finds room and the call goes on. The window holds at most `limit`
  -- entries, none later than the clock.
  pub try_slot-wakes :
      (now nap : ℕ) (window live : List ℕ)
      → length window ≤ limit
      → All (λ t. t ≤ now) window
      → try_slot second margin limit now window ≡ slot_wait nap live
      → try_slot second margin limit (now + nap) live
        ≡ slot_taken (expire second (now + nap) live ++ (now + nap) ∷ [])
  unfolding try_slot
  try_slot-wakes now nap window live bound past h =
      let fits = length-expire-le now window in
      let (_, room) =
        wakes now nap (expire second now window) live h (omega (arith, fits, bound))
          (All-expire now now window past) in
      rw (lt→ltb (length (expire second (now + nap) live)) limit room) refl

  -- A call that goes on leaves at most `limit` entries in the window.
  pub try_slot-bound :
      (now : ℕ) (window later : List ℕ)
      → try_slot second margin limit now window ≡ slot_taken later
      → length later ≤ limit
  unfolding try_slot
  try_slot-bound now window later h =
      elim (Bool-cases (ltb (length (expire second now window)) limit)) [
        | inl e ↦
            let made : expire second now window ++ now ∷ [] ≡ later = cc (rw e at h) in
            rw (sym made) (
              omega (
                arith,
                length-append (expire second now window) (now ∷ []),
                ltb→lt (length (expire second now window)) limit e,
              ))
        | inr e ↦ absurd (full (expire second now window) (rw e at h))
      ]
    where
      full : (live : List ℕ) → full_slot second margin now live ≡ slot_taken later → ⊥
      full [] h = cc h
      full (time ∷ rest) h = cc h
