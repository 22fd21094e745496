-- ===== src/Llm/RateLimiter/Budget.antt =====
-- ufoundry/llm/rate_limiter.py: no 60 seconds see more tokens granted than the limit.
use ufoundry.Base.{
  ℕ, ◌+◌, ◌≤◌, ◌≡◌, refl, List, [], ◌∷◌, ◌++◌, if◌then◌else◌, leb, ltb, ◌&&◌, arith, Bool-cases,
  inl, inr, leb→le,
}
use native.Mathlib.Nat.{le_refl}
use ufoundry.Llm.RateLimiter.{Entry, span, expire, used, granted, sleeps, blocked, attempt}

-- The tokens granted less than 60 seconds before `now`, or later.
abbrev recent : ℕ → List Entry → ℕ
recent now [] = 0
recent now ((t, tokens) ∷ log) = (if ltb now (t + span) then tokens else 0) + recent now log

-- The tokens granted in the 60 seconds that end at `now`.
abbrev pub granted_before : ℕ → List Entry → ℕ
granted_before now [] = 0
granted_before now ((t, tokens) ∷ log) =
    (if leb t now && ltb now (t + span) then tokens else 0) + granted_before now log

-- The limiter with its clock, and the log of all grants, the newest first.
pub record State : Type 0 where
  pub clock : ℕ
  pub window : List Entry
  pub log : List Entry

abbrev pub initial : State
initial = record { clock = 0; window = []; log = [] }

-- Time passes, or one iteration of some caller's loop runs.
pub data Step (limit : ℕ) : State → State → Type 0 where
  tick : (s : State) (now : ℕ) → s.clock ≤ now → Step limit s (record s { clock = now })
  grant :
      (s : State) (tokens : ℕ) (after : List Entry)
      → attempt limit tokens s.clock s.window ≡ granted after
      → Step limit s (record s { window = after; log = (s.clock, tokens) ∷ s.log })
  wait :
      (s : State) (tokens time : ℕ) (after : List Entry)
      → attempt limit tokens s.clock s.window ≡ sleeps time after
      → Step limit s (record s { window = after })

pub data Reach (limit : ℕ) : State → Type 0 where
  start : Reach limit initial
  next : {s t : State} → Reach limit s → Step limit s t → Reach limit t

expire-recent :
    (now later : ℕ) (window : List Entry)
    → now ≤ later
    → recent later (expire now window) ≡ recent later window
unfolding expire
expire-recent now later [] h = refl
expire-recent now later ((t, tokens) ∷ window) h = ground (arith, expire-recent now later window h)

recent-le-used : (now : ℕ) (window : List Entry) → recent now window ≤ used window
unfolding used
recent-le-used now [] = omega arith
recent-le-used now ((t, tokens) ∷ window) = ground (arith, recent-le-used now window)

recent-snoc :
    (now t tokens : ℕ) (window : List Entry)
    → recent now (window ++ (t, tokens) ∷ [])
      ≡ (if ltb now (t + span) then tokens else 0) + recent now window
recent-snoc now t tokens [] = refl
recent-snoc now t tokens ((u, k) ∷ window) = ground (arith, recent-snoc now t tokens window)

-- At each grant the tokens of the last 60 seconds, its own included, fit.
abbrev Fits : ℕ → List Entry → Type 0
Fits limit [] = Unit
Fits limit ((t, tokens) ∷ log) = (recent t ((t, tokens) ∷ log) ≤ limit) × Fits limit log

record Inv (limit : ℕ) (s : State) : Type 0 where
  tracked : (now : ℕ) → s.clock ≤ now → recent now s.log ≤ recent now s.window
  fits : Fits limit s.log

blocked-ne-granted : (now : ℕ) (live after : List Entry) → blocked now live ≡ granted after → ⊥
unfolding blocked
blocked-ne-granted now [] after h = cc
blocked-ne-granted now ((t, k) ∷ live) after h = cc

blocked-sleeps :
    (now : ℕ) (live : List Entry) {time : ℕ} {after : List Entry}
    → blocked now live ≡ sleeps time after
    → after ≡ live
unfolding blocked
blocked-sleeps now [] h = cc
blocked-sleeps now ((t, k) ∷ live) h = cc

attempt-granted :
    (limit tokens now : ℕ) (window after : List Entry)
    → attempt limit tokens now window ≡ granted after
    → (used (expire now window) + tokens ≤ limit)
      × (after ≡ expire now window ++ (now, tokens) ∷ [])
unfolding attempt
attempt-granted limit tokens now window after h =
    let live = expire now window in
    elim (Bool-cases (leb (used live + tokens) limit)) [
      | inl fits ↦ (leb→le (used live + tokens) limit fits, cc (rw fits at h))
      | inr full ↦ absurd (blocked-ne-granted now live after (rw full at h))
    ]

attempt-sleeps :
    (limit tokens now : ℕ) (window after : List Entry) {time : ℕ}
    → attempt limit tokens now window ≡ sleeps time after
    → after ≡ expire now window
unfolding attempt
attempt-sleeps limit tokens now window after h =
    let live = expire now window in
    elim (Bool-cases (leb (used live + tokens) limit)) [
      | inl fits ↦ cc (rw fits at h)
      | inr full ↦ blocked-sleeps now live (rw full at h)
    ]

grant-Inv :
    (limit tokens : ℕ) (s : State)
    → Inv limit s
    → used (expire s.clock s.window) + tokens ≤ limit
    → Inv limit (record s {
      window = expire s.clock s.window ++ (s.clock, tokens) ∷ [];
      log = (s.clock, tokens) ∷ s.log;
    })
grant-Inv limit tokens s inv fits = record {
  tracked = λ now h. omega (
    arith,
    recent-snoc now s.clock tokens (expire s.clock s.window),
    expire-recent s.clock now s.window h,
    inv.tracked now h,
  );
  fits = (
    omega (
      arith,
      recent-le-used s.clock (expire s.clock s.window),
      expire-recent s.clock s.clock s.window (le_refl s.clock),
      inv.tracked s.clock (le_refl s.clock),
      own s.clock tokens,
    ),
    inv.fits,
  );
}
  where
    own : (t tokens : ℕ) → (if ltb t (t + span) then tokens else 0) ≡ tokens
    own t tokens = ground arith

Step-Inv : {limit : ℕ} {s t : State} → Step limit s t → Inv limit s → Inv limit t
Step-Inv (tick s now h) inv = record {
  tracked = λ later k. inv.tracked later (omega arith);
  fits = inv.fits;
}
Step-Inv {limit} (grant s tokens after h) inv =
    let (fits, same) = attempt-granted limit tokens s.clock s.window after h in
    rw same (grant-Inv limit tokens s inv fits)
Step-Inv {limit} (wait s tokens time after h) inv =
    let same = attempt-sleeps limit tokens s.clock s.window after h in
    rw same (record {
      tracked = λ now k. omega (arith, expire-recent s.clock now s.window k, inv.tracked now k);
      fits = inv.fits;
    })

Reach-Inv : {limit : ℕ} {s : State} → Reach limit s → Inv limit s
Reach-Inv start = record { tracked = λ now h. omega arith; fits = tt }
Reach-Inv (next r step) = Step-Inv step (Reach-Inv r)

granted_before-le-recent :
    (t now : ℕ) (log : List Entry) → t ≤ now → granted_before now log ≤ recent t log
granted_before-le-recent t now [] h = omega arith
granted_before-le-recent t now ((u, k) ∷ log) h =
    ground (arith, granted_before-le-recent t now log h)

Fits-granted_before :
    (limit now : ℕ) (log : List Entry) → Fits limit log → granted_before now log ≤ limit
Fits-granted_before limit now [] h = omega arith
Fits-granted_before limit now ((t, tokens) ∷ log) h = elim (Bool-cases (leb t now)) [
  | inl e ↦ omega (arith, granted_before-le-recent t now ((t, tokens) ∷ log) (leb→le t now e), h.0)
  | inr e ↦ rw e (omega (arith, Fits-granted_before limit now log h.1))
]

-- However the callers' iterations and the passing of time interleave, the tokens granted in the
-- 60 seconds that end at any instant never exceed the limit.
pub granted_before-le-limit :
    (limit : ℕ) (s : State) (now : ℕ) → Reach limit s → granted_before now s.log ≤ limit
granted_before-le-limit limit s now r = Fits-granted_before limit now s.log (Reach-Inv r).fits
