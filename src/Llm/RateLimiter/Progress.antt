-- ===== src/Llm/RateLimiter/Progress.antt =====
-- ufoundry/llm/rate_limiter.py: a request within the budget is granted, and one above it never is.
use ufoundry.Base.{
  ℕ, zero, suc, ◌+◌, ◌-◌, ◌≤◌, ◌<◌, ◌≡◌, refl, true, false, List, [], ◌∷◌, ◌++◌, leb, arith,
  Bool-cases, inl, inr, ◌⊎◌, length, All, leb→le, le→leb,
}
use ufoundry.Llm.RateLimiter.{
  Entry, span, expire, used, blocked, attempt, Acquired, at_time, raised, out_of_fuel, acquire,
}

-- No entry is of the future.
abbrev pub IsPast : ℕ → List Entry → Type 0
IsPast now = All (λ (e : Entry). e.0 ≤ now)

length-expire-le : (now : ℕ) (window : List Entry) → length (expire now window) ≤ length window
unfolding expire
length-expire-le now [] = omega arith
length-expire-le now ((t, k) ∷ window) = ground (arith, length-expire-le now window)

IsPast-later :
    (now later : ℕ) (window : List Entry) → now ≤ later → IsPast now window → IsPast later window
IsPast-later now later [] h p = tt
IsPast-later now later (e ∷ window) h p = (omega arith, IsPast-later now later window h p.1)

IsPast-expire : (now : ℕ) (window : List Entry) → IsPast now window → IsPast now (expire now window)
unfolding expire
IsPast-expire now [] p = tt
IsPast-expire now ((t, k) ∷ window) p = elim (Bool-cases (leb span (now - t))) [
  | inl e ↦ rw e (IsPast-expire now window p.1)
  | inr e ↦ rw e p
]

-- After the sleep that `attempt` asks for, the oldest entry has expired.
expire-after_sleep :
    (t k now : ℕ) (window : List Entry)
    → t ≤ now
    → length (expire (now + (span - (now - t) + 10)) ((t, k) ∷ window)) ≤ length window
unfolding expire
expire-after_sleep t k now window h =
    let later = now + (span - (now - t) + 10) in
    rw (le→leb span (later - t) (omega arith)) (length-expire-le later window)

-- How the loop goes on after an iteration.
module _ (fuel limit tokens now : ℕ) (window : List Entry) where
  acquire-fits :
      leb (used (expire now window) + tokens) limit ≡ true
      → acquire (suc fuel) limit tokens now window
        ≡ at_time now (expire now window ++ (now, tokens) ∷ [])
  unfolding acquire attempt
  acquire-fits h = rw (h, acquire, attempt)

  acquire-empty :
      leb (used (expire now window) + tokens) limit ≡ false
      → expire now window ≡ []
      → acquire (suc fuel) limit tokens now window ≡ raised
  unfolding acquire attempt blocked
  acquire-empty h e = rw (h, acquire, attempt) (rw (e, blocked))

  acquire-waits :
      (t k : ℕ) (live : List Entry)
      → leb (used (expire now window) + tokens) limit ≡ false
      → expire now window ≡ (t, k) ∷ live
      → acquire (suc fuel) limit tokens now window
        ≡ acquire fuel limit tokens (now + (span - (now - t) + 10)) ((t, k) ∷ live)
  unfolding acquire attempt blocked
  acquire-waits t k live h e = rw (h, acquire, attempt) (rw (e, blocked))

-- The answer of the loop, decided by whether the request is within the limit.
abbrev Answers : ℕ → ℕ → Acquired → Type 0
Answers limit tokens (at_time t after) = tokens ≤ limit
Answers limit tokens raised = limit < tokens
Answers limit tokens out_of_fuel = ⊥

acquire-Answers :
    (fuel limit tokens now : ℕ) (window : List Entry)
    → IsPast now window
    → length (expire now window) < fuel
    → Answers limit tokens (acquire fuel limit tokens now window)
acquire-Answers zero limit tokens now window p h = elim h [ ]
acquire-Answers (suc fuel) limit tokens now window p h =
    by_test (λ later live q m. acquire-Answers fuel limit tokens later live q m) (expire now window)
      refl (IsPast-expire now window p) (Bool-cases (leb (used (expire now window) + tokens) limit))
  where
    full :
        leb (used (expire now window) + tokens) limit ≡ false
        → limit < used (expire now window) + tokens
    full e = ground arith

    by_test :
        ((later : ℕ) (live : List Entry)
          → IsPast later live
          → length (expire later live) < fuel
          → Answers limit tokens (acquire fuel limit tokens later live))
        → (live : List Entry) → expire now window ≡ live
        → IsPast now (expire now window)
        → (leb (used (expire now window) + tokens) limit ≡ true)
          ⊎ (leb (used (expire now window) + tokens) limit ≡ false)
        → Answers limit tokens (acquire (suc fuel) limit tokens now window)
    by_test ih live e q (inl fits) =
        rw (acquire-fits fuel limit tokens now window fits)
          (omega (arith, leb→le (used (expire now window) + tokens) limit fits))
    by_test ih [] e q (inr over) =
        rw (acquire-empty fuel limit tokens now window over e)
          (unfold used in omega (arith, rw e at (full over)))
    by_test ih ((t, k) ∷ live) e q (inr over) =
        rw (acquire-waits fuel limit tokens now window t k live over e) (
          let past : IsPast now ((t, k) ∷ live) = rw e at q in
          let later = now + (span - (now - t) + 10) in
          let count : length ((t, k) ∷ live) < suc fuel = rw e at h in
          ih later ((t, k) ∷ live) (IsPast-later now later ((t, k) ∷ live) (omega arith) past)
            (omega (arith, expire-after_sleep t k now live past.0)))

-- The loop of one caller ends, by a grant exactly if the request is within the limit. One that
-- asks for more than the limit ends by an IndexError once the window is empty. As fuel the number
-- of entries that the window still holds, and one more round, are enough.
pub acquire_ends :
    (fuel limit tokens now : ℕ) (window : List Entry)
    → IsPast now window
    → length (expire now window) < fuel
    → ((t : ℕ) × (after : List Entry) × (acquire fuel limit tokens now window ≡ at_time t after)
        × (tokens ≤ limit))
      ⊎ ((acquire fuel limit tokens now window ≡ raised) × (limit < tokens))
acquire_ends fuel limit tokens now window p h =
    by_answer (acquire fuel limit tokens now window)
      (acquire-Answers fuel limit tokens now window p h)
  where
    by_answer :
        (a : Acquired)
        → Answers limit tokens a
        → ((t : ℕ) × (after : List Entry) × (a ≡ at_time t after) × (tokens ≤ limit))
          ⊎ ((a ≡ raised) × (limit < tokens))
    by_answer (at_time t after) h = inl (t, after, refl, h)
    by_answer raised h = inr (refl, h)
    by_answer out_of_fuel h = absurd h
