-- ===== src/Llm/Tests.antt =====
-- The theorems on the rate limiter and the scheduler at concrete inputs.
use ufoundry.Base.{
  ℕ, zero, suc, ◌≡◌, ◌≤◌, ◌<◌, refl, ◌⊎◌, List, [], ◌∷◌, some, codes, take, arith, insert_by,
}
use ufoundry.Llm.RateLimiter.{Entry, at_time, raised, acquire, expire, attempt, used}
use ufoundry.Llm.RateLimiter.Budget.{
  start, next, grant, State, granted_before, initial, granted_before-le-limit,
}
use ufoundry.Llm.RateLimiter.Progress.{acquire_ends}
use ufoundry.Llm.Scheduler.{
  Reply, result, failure, call_client, Run, begin, Job, idle, calls, p2, generate, make, take_job,
  mark_start, throttle,
}
use ufoundry.Llm.Scheduler
use ufoundry.Llm.Scheduler.Retries.{EndsAt, call_client-EndsAt}
use ufoundry.Llm.Scheduler.Gap.{Spaced, Reach-Spaced}

abbrev spent : State
spent = record initial { window = (0, 20) ∷ []; log = (0, 20) ∷ [] }

granted_before-le-limit_example : granted_before 100 spent.log ≤ 50
granted_before-le-limit_example =
    granted_before-le-limit 50 spent 100
      (next start (grant initial 20 ((0, 20) ∷ []) (unfold attempt expire used in refl)))

acquire_ends_example :
    ((t : ℕ) × (after : List Entry) × (acquire 2 50 80 0 [] ≡ at_time t after) × (80 ≤ 50))
    ⊎ ((acquire 2 50 80 0 [] ≡ raised) × (50 < 80))
acquire_ends_example = acquire_ends 2 50 80 0 [] tt (unfold expire in omega arith)

abbrev client : ℕ → Reply ℕ
client zero = failure (codes "connection reset by peer")
client (suc n) = result 7

call_client-EndsAt_example :
    (k : ℕ) × EndsAt client k × (call_client client ≡ (some (client k), take k (1 ∷ 2 ∷ [])))
call_client-EndsAt_example = call_client-EndsAt client

-- Two background jobs that arrive at once: the first is called at 40, the second at 70.
abbrev job : ℕ → ℕ → Job ℕ
job seq request = record { priority = p2; seq = seq; request = request }

abbrev loaded : Scheduler.Scheduler ℕ
loaded = record { p2_min_gap = 30; queue = job 1 4 ∷ job 2 5 ∷ []; seq = 2; last_p2 = 0 }

abbrev at_rest : Run ℕ
at_rest = record { scheduler = loaded; clock = 40; activity = idle; p2_starts = [] }

abbrev first_call : Run ℕ
first_call = record {
  scheduler = record loaded { queue = job 2 5 ∷ []; last_p2 = 40 };
  clock = 40;
  activity = calls (job 1 4);
  p2_starts = 40 ∷ [];
}

abbrev second_call : Run ℕ
second_call = record {
  scheduler = record loaded { queue = []; last_p2 = 70 };
  clock = 70;
  activity = calls (job 2 5);
  p2_starts = 70 ∷ 40 ∷ [];
}

abbrev queued : Run ℕ
queued = record (begin {P = ℕ} 30) { scheduler = record loaded { queue = job 1 4 ∷ []; seq = 1 } }

rest_reached : Scheduler.Reach (begin 30) at_rest
unfolding generate make insert_by
rest_reached =
    let one = Scheduler.next Scheduler.here (Scheduler.enqueue (begin {P = ℕ} 30) 4 2) in
    let two = Scheduler.next one (Scheduler.enqueue queued 5 2) in
    Scheduler.next two (Scheduler.tick (record at_rest { clock = 0 }) 40 (omega arith))

first_reached : Scheduler.Reach (begin 30) first_call
unfolding take_job mark_start throttle
first_reached =
    let taken =
      Scheduler.next rest_reached
        (Scheduler.take at_rest (job 1 4) (record loaded { queue = job 2 5 ∷ [] }) refl refl) in
    Scheduler.next taken (Scheduler.wake _ (job 1 4) 40 refl (omega arith))

second_reached : Scheduler.Reach (begin 30) second_call
unfolding take_job mark_start throttle
second_reached =
    let rested = Scheduler.next first_reached (Scheduler.done first_call (job 1 4) refl) in
    let taken =
      Scheduler.next rested
        (Scheduler.take _ (job 2 5) (record loaded { queue = []; last_p2 = 40 }) refl refl) in
    let later = Scheduler.next taken (Scheduler.tick _ 70 (omega arith)) in
    Scheduler.next later (Scheduler.wake _ (job 2 5) 70 refl (omega arith))

Reach-Spaced_example : Spaced 30 (70 ∷ 40 ∷ [])
Reach-Spaced_example = Reach-Spaced 30 second_call second_reached
