-- ===== src/Llm/Scheduler/Order.antt =====
-- ufoundry/llm/scheduler.py: which job is taken next.
use ufoundry.Base.{
  ℕ, ◌+◌, ◌≤◌, ◌<◌, ◌≡◌, List, [], ◌∷◌, some, nat_eq, arith, All, insert_by, All-insert_by, ◌⊎◌,
  inl, inr, Bool-cases,
}
use ufoundry.Llm.Scheduler.{
  Job, goes_before, Scheduler, make, generate, mark_start, take_job, Run, begin, Step, tick,
  enqueue, take, wake, done, Reach, here, next,
}
use ufoundry.Llm.Scheduler.Gap.{take_job-some}

module _ {P : Type 0} where
  -- The job is more urgent, or as urgent and enqueued earlier.
  abbrev pub Precedes : Job P → Job P → Type 0
  Precedes j k = (j.priority < k.priority) ⊎ (j.priority ≡ k.priority) × (j.seq < k.seq)

  abbrev Ordered : List (Job P) → Type 0
  Ordered [] = Unit
  Ordered (j ∷ queue) = All (Precedes j) queue × Ordered queue

  abbrev NumberedTo : ℕ → List (Job P) → Type 0
  NumberedTo seq = All (λ (j : Job P). j.seq ≤ seq)

  more_urgent :
      (x y : Job P) (queue : List (Job P))
      → x.priority < y.priority
      → All (Precedes y) queue
      → All (Precedes x) queue
  more_urgent x y [] h a = tt
  more_urgent x y (z ∷ queue) h a = (omega arith, more_urgent x y queue h a.1)

  insert-Ordered :
      (x : Job P) (queue : List (Job P)) (seq : ℕ)
      → seq < x.seq
      → NumberedTo seq queue
      → Ordered queue
      → Ordered (insert_by goes_before x queue)
  unfolding insert_by
  insert-Ordered x [] seq new n o = (tt, tt)
  insert-Ordered x (y ∷ queue) seq new n o = elim (Bool-cases (goes_before x y)) [
    | inl e ↦
        let first : x.priority < y.priority = ground arith in
        rw e ((inl first, more_urgent x y queue first o.0), o)
    | inr e ↦
        let later : Precedes y x = ground arith in
        rw e (
          All-insert_by goes_before (Precedes y) x queue later o.0,
          insert-Ordered x queue seq new n.1 o.1,
        )
  ]

  renumbered :
      (old new : ℕ) (queue : List (Job P)) → old ≤ new → NumberedTo old queue → NumberedTo new queue
  renumbered old new [] h n = tt
  renumbered old new (j ∷ queue) h n = (omega arith, renumbered old new queue h n.1)

  record Inv (r : Run P) : Type 0 where
    ordered : Ordered r.scheduler.queue
    numbered : NumberedTo r.scheduler.seq r.scheduler.queue

  generate-Inv :
      (s : Scheduler P) (request : P) (priority : ℕ)
      → Ordered s.queue
      → NumberedTo s.seq s.queue
      → Ordered (generate s request priority).queue
        × NumberedTo (generate s request priority).seq (generate s request priority).queue
  unfolding generate
  generate-Inv s request priority o n = (
    insert-Ordered _ s.queue s.seq (omega arith) n o,
    All-insert_by goes_before (λ (j : Job P). j.seq ≤ s.seq + 1) _ s.queue (omega arith)
        (renumbered s.seq (s.seq + 1) s.queue (omega arith) n),
  )

  Step-Inv : {r t : Run P} → Step r t → Inv r → Inv t
  unfolding mark_start
  Step-Inv (tick r now h) inv = record { ordered = inv.ordered; numbered = inv.numbered }
  Step-Inv (enqueue r request priority) inv =
      let (o, n) = generate-Inv r.scheduler request priority inv.ordered inv.numbered in
      record { ordered = o; numbered = n }
  Step-Inv (take r j s at_rest taken) inv =
      let (queued, kept_gap, kept_last, kept_seq) = take_job-some r.scheduler s j taken in
      let ordered : Ordered (j ∷ s.queue) = rw queued at (inv.ordered) in
      let numbered : NumberedTo r.scheduler.seq (j ∷ s.queue) = rw queued at (inv.numbered) in
      record { ordered = ordered.1; numbered = rw kept_seq (numbered.1) }
  Step-Inv (wake r j until waiting over) inv = record {
    ordered = inv.ordered;
    numbered = inv.numbered;
  }
  Step-Inv (done r j calling) inv = record { ordered = inv.ordered; numbered = inv.numbered }

  Reach-Inv : (gap : ℕ) {r : Run P} → Reach (begin gap) r → Inv r
  unfolding make
  Reach-Inv gap here = record { ordered = tt; numbered = tt }
  Reach-Inv gap (next h step) = Step-Inv step (Reach-Inv gap h)

  -- The job that the consumer takes precedes every job that stays: it is more urgent, or as
  -- urgent and enqueued earlier.
  pub take_job-Precedes :
      (gap : ℕ) (r : Run P) (j : Job P) (s : Scheduler P)
      → Reach (begin gap) r
      → take_job r.scheduler ≡ some (j, s)
      → All (Precedes j) s.queue
  take_job-Precedes gap r j s h taken =
      let (queued, kept_gap, kept_last, kept_seq) = take_job-some r.scheduler s j taken in
      let ordered : Ordered (j ∷ s.queue) = rw queued at ((Reach-Inv gap h).ordered) in ordered.0
