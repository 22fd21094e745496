-- ===== src/Llm/Scheduler/Retries.antt =====
-- ufoundry/llm/scheduler.py: how often a call is tried.
use ufoundry.Base.{
  ℕ, zero, suc, ◌+◌, ◌^◌, ◌≤◌, ◌<◌, ◌≡◌, ◌∙◌, refl, ◌⊎◌, inl, inr, true, Option, none, some, [],
  ◌∷◌, arith, Bool-cases, take,
}
use ufoundry.Llm.Scheduler.{Reply, result, failure, is_transient, attempts, call_client}

module _ {R : Type 0} where
  -- An exception that is worth another attempt.
  abbrev pub Retriable : Reply R → Type 0
  Retriable (result r) = ⊥
  Retriable (failure e) = is_transient e ≡ true

  Retriable-cases : (r : Reply R) → Retriable r ⊎ ¬ Retriable r
  Retriable-cases (result r) = inr (λ h. h)
  Retriable-cases (failure e) = elim (Bool-cases (is_transient e)) [
    | inl h ↦ inl h
    | inr h ↦ inr (λ k. cc)
  ]

  module _ (client : ℕ → Reply R) (left attempt : ℕ) (last : Option (Reply R)) where
    attempts_stop :
        ¬ Retriable (client attempt) ⊎ (2 ≤ attempt)
        → attempts client (suc left) attempt last ≡ (some (client attempt), [])
    unfolding attempts
    attempts_stop h = by_reply (client attempt) refl h
      where
        by_reply :
            (r : Reply R)
            → client attempt ≡ r
            → ¬ Retriable r ⊎ (2 ≤ attempt)
            → attempts client (suc left) attempt last ≡ (some (client attempt), [])
        by_reply (result x) e k = rw (e, attempts)
        by_reply (failure x) e (inl no_retry) = elim (Bool-cases (is_transient x)) [
          | inl t ↦ absurd (no_retry t)
          | inr f ↦ rw (e, attempts) (rw f)
        ]
        by_reply (failure x) e (inr late) = rw (e, attempts) (ground arith)

    attempts_again :
        Retriable (client attempt)
        → attempt < 2
        → attempts client (suc left) attempt last ≡ (
          (attempts client left (attempt + 1) (some (client attempt))).0,
          2 ^ attempt ∷ (attempts client left (attempt + 1) (some (client attempt))).1,
        )
    unfolding attempts
    attempts_again h k = by_reply (client attempt) refl h
      where
        by_reply :
            (r : Reply R)
            → client attempt ≡ r
            → Retriable r
            → attempts client (suc left) attempt last ≡ (
              (attempts client left (attempt + 1) (some (client attempt))).0,
              2 ^ attempt ∷ (attempts client left (attempt + 1) (some (client attempt))).1,
            )
        by_reply (result x) e t = absurd t
        by_reply (failure x) e t = ground (arith, e, t)

  -- The attempt `k` is the last one: those before it were retriable, and it is not, or it is the
  -- third.
  pub record EndsAt (client : ℕ → Reply R) (k : ℕ) : Type 0 where
    pub within : k ≤ 2
    pub before : (j : ℕ) → j < k → Retriable (client j)
    pub stops : k < 2 → ¬ Retriable (client k)

  none_before : (client : ℕ → Reply R) (j : ℕ) → j < 0 → Retriable (client j)
  none_before client j h = absurd (omega arith)

  one_before :
      (client : ℕ → Reply R) → Retriable (client 0) → (j : ℕ) → j < 1 → Retriable (client j)
  one_before client r0 zero h = r0
  one_before client r0 (suc j) h = absurd (omega arith)

  two_before :
      (client : ℕ → Reply R)
      → Retriable (client 0)
      → Retriable (client 1)
      → (j : ℕ) → j < 2
      → Retriable (client j)
  two_before client r0 r1 zero h = r0
  two_before client r0 r1 (suc zero) h = r1
  two_before client r0 r1 (suc (suc j)) h = absurd (omega arith)

  -- The call ends with the reply of the first attempt that is not a transient failure, or of the
  -- third attempt, and it slept one and then two seconds between the attempts.
  pub call_client-EndsAt :
      (client : ℕ → Reply R)
      → (k : ℕ) × EndsAt client k × (call_client client ≡ (some (client k), take k (1 ∷ 2 ∷ [])))
  unfolding call_client
  call_client-EndsAt client = elim (Retriable-cases (client 0)) [
    | inr s0 ↦ (
      0,
      record { within = omega arith; before = none_before client; stops = λ _. s0 },
      attempts_stop client 2 0 none (inl s0),
    )
    | inl r0 ↦
        let again0 = attempts_again client 2 0 none r0 (omega arith) in
        elim (Retriable-cases (client 1)) [
          | inr s1 ↦ (
            1,
            record { within = omega arith; before = one_before client r0; stops = λ _. s1 },
            again0 ∙ rw (attempts_stop client 1 1 (some (client 0)) (inl s1)) refl,
          )
          | inl r1 ↦ (
            2,
            record {
              within = omega arith;
              before = two_before client r0 r1;
              stops = λ h. absurd (omega arith);
            },
            again0
                ∙ rw (attempts_again client 1 1 (some (client 0)) r1 (omega arith))
                    (rw (attempts_stop client 0 2 (some (client 1)) (inr (omega arith))) refl),
          )
        ]
  ]
