-- ===== src/Agents/Trim/Tail.antt =====
-- ufoundry/agents/agent.py, `_trim_messages`: where the tail begins.
use ufoundry.Base.{
  ℕ, zero, suc, ◌+◌, ◌-◌, ◌≤◌, ◌<◌, ◌≡◌, refl, true, false, List, [], ◌∷◌, ◌++◌, codes, text_eq,
  text_beq, leb, leb→le, length, take, drop, arith, Bool-cases, inl, inr, ◌⊎◌, All,
}
use native.Mathlib.Decide.{ℕ_discrete}
use ufoundry.Agents.Trim.{Message, is_boundary, boundary_at, walk_left, trim_messages}

module _ (messages : List Message) (keep_head : ℕ) where
  -- The walk stops at the last boundary up to where it begins, or at the head.
  record Stops (from to : ℕ) : Type 0 where
    up_to : to ≤ from
    passed : (i : ℕ) → to < i → i ≤ from → boundary_at messages i ≡ false
    stopped : (to ≤ keep_head) ⊎ (boundary_at messages to ≡ true)

  walk_left-Stops : (n : ℕ) → Stops n (walk_left messages keep_head n)
  unfolding walk_left
  walk_left-Stops zero = record {
    up_to = omega arith;
    passed = λ i h k. absurd (omega arith);
    stopped = inl (omega arith);
  }
  walk_left-Stops (suc n) =
      let ih = walk_left-Stops n in
      elim (Bool-cases (leb (suc n) keep_head)) [
        | inl e ↦ rw e (record {
          up_to = omega arith;
          passed = λ i h k. absurd (omega arith);
          stopped = inl (leb→le (suc n) keep_head e);
        })
        | inr e ↦ elim (Bool-cases (boundary_at messages (suc n))) [
          | inl b ↦
              rw (e, b)
                (record {
                  up_to = omega arith;
                  passed = λ i h k. absurd (omega arith);
                  stopped = inr b;
                })
          | inr b ↦
              rw (e, b)
                (record {
                  up_to = omega (arith, ih.up_to);
                  passed = λ i h k. elim (ℕ_discrete i (suc n)) [
                    | yes same ↦ rw same b
                    | no other ↦ ih.passed i h (omega arith)
                  ];
                  stopped = ih.stopped;
                })
        ]
      ]

  -- What is cut out of the middle: the tail begins behind the head, at a system or user message,
  -- and no such message stands between it and the place where `keep_tail` messages are left.
  pub record IsCut (keep_tail start : ℕ) : Type 0 where
    pub behind_head : keep_head < start
    pub room : start ≤ length messages - keep_tail
    pub at_boundary : boundary_at messages start ≡ true
    pub last_boundary :
        (i : ℕ) → start < i → i ≤ length messages - keep_tail → boundary_at messages i ≡ false

  -- Trimming gives back the messages as they are, or the head and a tail that holds at least
  -- `keep_tail` messages and begins at the last possible boundary, so never at a tool's result.
  pub trim_messages_cases :
      (keep_tail : ℕ)
      → (trim_messages messages keep_head keep_tail ≡ messages)
        ⊎ ((start : ℕ) × IsCut keep_tail start
            × (trim_messages messages keep_head keep_tail
                ≡ take keep_head messages ++ drop start messages))
  unfolding trim_messages
  trim_messages_cases keep_tail =
      let from = length messages - keep_tail in
      let start = walk_left messages keep_head from in
      let stops = walk_left-Stops from in
      elim (Bool-cases (leb (length messages) (keep_head + keep_tail))) [
        | inl e ↦ inl (rw e)
        | inr e ↦ elim (Bool-cases (leb start keep_head)) [
          | inl f ↦ inl (rw (e, f))
          | inr f ↦ inr (
            start,
            record {
              behind_head = ground arith;
              room = stops.up_to;
              at_boundary = elim stops.stopped [ inl le ↦ absurd (ground arith) | inr b ↦ b ];
              last_boundary = stops.passed;
            },
            rw (e, f),
          )
        ]
      ]

-- A message that the loop of an agent adds.
abbrev pub IsAdded : Message → Type 0
IsAdded m = (m.role ≡ codes "assistant") ⊎ (m.role ≡ codes "tool")

added-inside : (rest : List Message) (i : ℕ) → All IsAdded rest → boundary_at rest i ≡ false
unfolding is_boundary text_beq
added-inside [] i h = refl
added-inside (m ∷ rest) zero h = elim h.0 [ inl e ↦ rw e refl | inr e ↦ rw e refl ]
added-inside (m ∷ rest) (suc i) h = added-inside rest i h.1

-- Where the messages behind the first two are of the assistant and of tools only, trimming with a
-- head of two keeps every message, whatever the length of the tail is to be.
pub trim_messages-added :
    (first second : Message) (rest : List Message) (keep_tail : ℕ)
    → All IsAdded rest
    → trim_messages (first ∷ second ∷ rest) 2 keep_tail ≡ first ∷ second ∷ rest
trim_messages-added first second rest keep_tail h =
    elim (trim_messages_cases (first ∷ second ∷ rest) 2 keep_tail) [
      | inl e ↦ e
      | inr (start, cut, e) ↦ absurd (no_boundary start cut.behind_head cut.at_boundary)
    ]
  where
    no_boundary : (start : ℕ) → 2 < start → boundary_at (first ∷ second ∷ rest) start ≡ true → ⊥
    no_boundary zero lt b = omega arith
    no_boundary (suc zero) lt b = omega arith
    no_boundary (suc (suc i)) lt b = cc (added-inside rest i h)
