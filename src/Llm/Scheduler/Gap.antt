-- ===== src/Llm/Scheduler/Gap.antt =====
-- ufoundry/llm/scheduler.py: the pause between background calls, and what it holds up.
use ufoundry.Base.{
  ℕ, ◌+◌, ◌≤◌, ◌≡◌, ◌∙◌, refl, sym, List, [], ◌∷◌, some, ◌==◌, nat_eq, arith, Bool-cases, inl, inr,
  ◌⊎◌, eqb_iff,
}
use ufoundry.Llm.Scheduler.{
  Job, Scheduler, make, generate, throttle, mark_start, take_job, p2, Activity, idle, waits, calls,
  Run, begin, Step, tick, enqueue, take, wake, done, Reach, here, next,
}

-- Each instant comes at least `gap` after the one before it.
abbrev pub Spaced : ℕ → List ℕ → Type 0
Spaced gap [] = Unit
Spaced gap (t ∷ []) = Unit
Spaced gap (t ∷ u ∷ starts) = (u + gap ≤ t) × Spaced gap (u ∷ starts)

-- The newest instant, if there is one, is `last`.
abbrev Newest : ℕ → List ℕ → Type 0
Newest last [] = Unit
Newest last (t ∷ starts) = t ≡ last

-- A background job that waits goes on only after the gap.
abbrev WaitsEnough : {P : Type 0} → ℕ → ℕ → Activity P → Type 0
WaitsEnough gap last idle = Unit
WaitsEnough gap last (calls j) = Unit
WaitsEnough gap last (waits j until) = j.priority ≡ p2 → last + gap ≤ until

record Inv {P : Type 0} (gap : ℕ) (r : Run P) : Type 0 where
  fixed : r.scheduler.p2_min_gap ≡ gap
  past : r.scheduler.last_p2 ≤ r.clock
  newest : Newest r.scheduler.last_p2 r.p2_starts
  enough : WaitsEnough gap r.scheduler.last_p2 r.activity
  spaced : Spaced gap r.p2_starts

throttle-le :
    {P : Type 0} (s : Scheduler P) (j : Job P) (now : ℕ)
    → s.last_p2 ≤ now
    → j.priority ≡ p2
    → s.last_p2 + s.p2_min_gap ≤ throttle s j now
unfolding throttle
throttle-le s j now h p = ground arith

-- What `take_job` gives and leaves.
pub take_job-some :
    {P : Type 0} (s t : Scheduler P) (j : Job P)
    → take_job s ≡ some (j, t)
    → (s.queue ≡ j ∷ t.queue)
      × (t.p2_min_gap ≡ s.p2_min_gap)
      × (t.last_p2 ≡ s.last_p2)
      × (t.seq ≡ s.seq)
unfolding take_job
take_job-some s t j h = ground arith

Spaced-cons :
    (gap last now : ℕ) (starts : List ℕ)
    → Newest last starts
    → last + gap ≤ now
    → Spaced gap starts
    → Spaced gap (now ∷ starts)
Spaced-cons gap last now [] n h s = tt
Spaced-cons gap last now (t ∷ starts) n h s = (omega arith, s)

Step-Inv : {P : Type 0} {gap : ℕ} {r t : Run P} → Step r t → Inv gap r → Inv gap t
unfolding generate take_job mark_start
Step-Inv (tick r now h) inv = record {
  fixed = inv.fixed;
  past = omega arith;
  newest = inv.newest;
  enough = inv.enough;
  spaced = inv.spaced;
}
Step-Inv (enqueue r request priority) inv = record {
  fixed = inv.fixed;
  past = inv.past;
  newest = inv.newest;
  enough = inv.enough;
  spaced = inv.spaced;
}
Step-Inv {gap} (take r j s at_rest taken) inv =
    let (queued, kept_gap, kept_last, kept_seq) = take_job-some r.scheduler s j taken in
    record {
      fixed = kept_gap ∙ inv.fixed;
      past = omega arith;
      newest = rw kept_last inv.newest;
      enough =
          λ background. omega (arith, throttle-le s j r.clock (omega arith) background, inv.fixed);
      spaced = inv.spaced;
    }
Step-Inv {gap} (wake r j until waiting over) inv =
    let enough : WaitsEnough gap r.scheduler.last_p2 (waits j until) = rw waiting at (inv.enough) in
    elim (Bool-cases (j.priority == p2)) [
      | inl e ↦ rw e (record {
        fixed = inv.fixed;
        past = omega arith;
        newest = refl;
        enough = tt;
        spaced =
            Spaced-cons gap r.scheduler.last_p2 r.clock r.p2_starts inv.newest
              (omega (arith, enough ((eqb_iff j.priority p2).0 e))) inv.spaced;
      })
      | inr e ↦ rw e (record {
        fixed = inv.fixed;
        past = inv.past;
        newest = inv.newest;
        enough = tt;
        spaced = inv.spaced;
      })
    ]
Step-Inv (done r j calling) inv = record {
  fixed = inv.fixed;
  past = inv.past;
  newest = inv.newest;
  enough = tt;
  spaced = inv.spaced;
}

Inv-begin : {P : Type 0} (gap : ℕ) → Inv gap (begin {P = P} gap)
unfolding make
Inv-begin gap = record { fixed = refl; past = omega arith; newest = tt; enough = tt; spaced = tt }

Reach-Inv : {P : Type 0} {gap : ℕ} {r : Run P} → Reach (begin gap) r → Inv gap r
Reach-Inv {gap} here = Inv-begin gap
Reach-Inv (next h step) = Step-Inv step (Reach-Inv h)

-- From a new scheduler, however requests arrive and time passes, the calls of background jobs
-- go on at least `p2_min_gap` apart.
pub Reach-Spaced : {P : Type 0} (gap : ℕ) (r : Run P) → Reach (begin gap) r → Spaced gap r.p2_starts
Reach-Spaced gap r h = (Reach-Inv h).spaced

-- The consumer still waits for the job, or its time has come.
abbrev pub StillWaits : {P : Type 0} → Job P → ℕ → Run P → Type 0
StillWaits j until r = (r.activity ≡ waits j until) ⊎ (until ≤ r.clock)

Step-StillWaits :
    {P : Type 0} {j : Job P} {until : ℕ} {r t : Run P}
    → Step r t
    → StillWaits j until r
    → StillWaits j until t
Step-StillWaits (tick r now h) (inl e) = inl e
Step-StillWaits (tick r now h) (inr e) = inr (omega arith)
Step-StillWaits (enqueue r request priority) (inl e) = inl e
Step-StillWaits (enqueue r request priority) (inr e) = inr e
Step-StillWaits (take r k s at_rest taken) (inl e) = cc
Step-StillWaits (take r k s at_rest taken) (inr e) = inr e
Step-StillWaits {j} {until} (wake r k end waiting over) (inl e) =
    let same : waits k end ≡ waits j until = sym waiting ∙ e in
    let ends : end ≡ until = cc in inr (omega arith)
Step-StillWaits (wake r k end waiting over) (inr e) = inr e
Step-StillWaits (done r k calling) (inl e) = cc
Step-StillWaits (done r k calling) (inr e) = inr e

-- A job that is taken is waited for first: until its wait is over the consumer does nothing else,
-- whatever arrives in the meantime, jobs of the most urgent priority included.
pub Reach-StillWaits :
    {P : Type 0} (j : Job P) (until : ℕ) (r t : Run P)
    → r.activity ≡ waits j until
    → Reach r t
    → (t.activity ≡ waits j until) ⊎ (until ≤ t.clock)
Reach-StillWaits j until r t h here = inl h
Reach-StillWaits j until r t h (next s step) =
    Step-StillWaits step (Reach-StillWaits j until r _ h s)
