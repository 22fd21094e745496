-- ===== src/Llm/Scheduler.antt =====
-- ufoundry/llm/scheduler.py: one consumer serves the requests to a model by priority. `P` is the
-- type of a request (messages and tools), `R` that of a response. The client is an argument: its
-- answer to each attempt. Times are natural numbers in one unit, `p2_min_gap` included.
pub mod Order
pub mod Gap
pub mod Retries
use ufoundry.Base.{
  ℕ, zero, suc, ◌+◌, ◌-◌, ◌≤◌, ◌≡◌, ◌^◌, Bool, true, false, not, ◌&&◌, ◌||◌, ◌==◌, nat_eq, Option,
  none, some, List, [], ◌∷◌, Text, codes, if◌then◌else◌, ltb, leb, any, insert_by, lower, is_infix,
}

abbrev pub p1 : ℕ
p1 = 1

abbrev pub p2 : ℕ
p2 = 2

pub record Job (P : Type 0) : Type 0 where
  pub priority : ℕ
  pub seq : ℕ
  pub request : P

-- The order of the tuples (priority, seq, ...) in the priority queue.
abbrev pub goes_before : {P : Type 0} → Job P → Job P → Bool
goes_before j k = ltb j.priority k.priority || j.priority == k.priority && leb j.seq k.seq

-- What the heap of `asyncio.PriorityQueue` holds, in the order in which `get` gives it out.
pub record Scheduler (P : Type 0) : Type 0 where
  pub p2_min_gap : ℕ
  pub queue : List (Job P)
  pub seq : ℕ
  pub last_p2 : ℕ

unfoldable pub make : {P : Type 0} → ℕ → Scheduler P
make p2_min_gap = record { p2_min_gap = p2_min_gap; queue = []; seq = 0; last_p2 = 0 }

-- `generate`, up to the await of the future
unfoldable pub generate : {P : Type 0} → Scheduler P → P → ℕ → Scheduler P
generate s request priority = record s {
  seq = s.seq + 1;
  queue =
      insert_by goes_before (record { priority = priority; seq = s.seq + 1; request = request })
        s.queue;
}

-- `await self._queue.get()`: none while the queue is empty
unfoldable pub take_job : {P : Type 0} → Scheduler P → Option (Job P × Scheduler P)
take_job s = elim s.queue [ [] ↦ none | j ∷ rest ↦ some (j, record s { queue = rest }) ]

-- Until when a job that is taken at `now` waits before its call.
unfoldable pub throttle : {P : Type 0} → Scheduler P → Job P → ℕ → ℕ
throttle s j now =
    let elapsed = now - s.last_p2 in
    if j.priority == p2
    then (if ltb elapsed s.p2_min_gap then now + (s.p2_min_gap - elapsed) else now)
    else now

-- The call of a job goes on at `now`.
unfoldable pub mark_start : {P : Type 0} → Scheduler P → Job P → ℕ → Scheduler P
mark_start s j now = record s { last_p2 = if j.priority == p2 then now else s.last_p2 }

pub data Reply (R : Type 0) : Type 0 where
  result : R → Reply R
  failure : Text → Reply R

abbrev pub transient_signals : List Text
transient_signals =
    codes "ssl"
    ∷ codes "connection reset"
    ∷ codes "connection refused"
    ∷ codes "broken pipe"
    ∷ codes "timeout"
    ∷ codes "temporarily unavailable"
    ∷ codes "service unavailable"
    ∷ codes "overloaded"
    ∷ codes "rate limit"
    ∷ codes "too many requests"
    ∷ codes "bad record mac"
    ∷ codes "eof occurred"
    ∷ codes "remote end closed connection"
    ∷ []

-- An exception is its text.
pub is_transient : Text → Bool
is_transient message = any (λ s. is_infix s (lower message)) transient_signals

module _ {R : Type 0} where
  -- The loop over `range(3)`, with `left` attempts left: the last reply, and the sleeps. If the
  -- attempts run out the reply is the exception of the last one.
  pub attempts : (ℕ → Reply R) → ℕ → ℕ → Option (Reply R) → Option (Reply R) × List ℕ
  unfolding is_transient
  attempts client zero attempt last = (last, [])
  attempts client (suc left) attempt last =
      let again = attempts client left (attempt + 1) (some (client attempt)) in
      elim (client attempt) [
        | result r ↦ (some (result r), [])
        | failure e ↦
            if is_transient e && ltb attempt 2
            then (again.0, 2 ^ attempt ∷ again.1)
            else (some (failure e), [])
      ]

  pub call_client : (ℕ → Reply R) → Option (Reply R) × List ℕ
  unfolding attempts
  call_client client = attempts client 3 0 none

  -- A future is settled at most once: a reply for one that is done is dropped.
  pub settle : Option (Reply R) → Option (Reply R) → Option (Reply R)
  settle none reply = reply
  settle (some done) reply = some done

  -- The client is not called for a future that is done when its turn comes. It may be cancelled
  -- during the call too: `during` is its state after the call.
  pub serve : Option (Reply R) → Option (Reply R) → (ℕ → Reply R) → Option (Reply R)
  unfolding call_client settle
  serve (some done) during client = some done
  serve none during client = settle during (call_client client).0

-- What the consumer task does.
pub data Activity (P : Type 0) : Type 0 where
  idle : Activity P
  waits : Job P → ℕ → Activity P
  calls : Job P → Activity P

-- The scheduler, its clock and its consumer. `p2_starts` records when the calls of background jobs
-- went on, the newest first.
pub record Run (P : Type 0) : Type 0 where
  pub scheduler : Scheduler P
  pub clock : ℕ
  pub activity : Activity P
  pub p2_starts : List ℕ

abbrev pub begin : {P : Type 0} → ℕ → Run P
begin p2_min_gap = record {
  scheduler = make p2_min_gap;
  clock = 0;
  activity = idle;
  p2_starts = [];
}

-- The steps of `_run`, with callers of `generate` and the passing of time between its awaits.
pub data Step {P : Type 0} : Run P → Run P → Type 0 where
  tick : (r : Run P) (now : ℕ) → r.clock ≤ now → Step r (record r { clock = now })
  enqueue :
      (r : Run P) (request : P) (priority : ℕ)
      → Step r (record r { scheduler = generate r.scheduler request priority })
  take :
      (r : Run P) (j : Job P) (s : Scheduler P)
      → r.activity ≡ idle
      → take_job r.scheduler ≡ some (j, s)
      → Step r (record r { scheduler = s; activity = waits j (throttle s j r.clock) })
  wake :
      (r : Run P) (j : Job P) (until : ℕ)
      → r.activity ≡ waits j until
      → until ≤ r.clock
      → Step r (record r {
        scheduler = mark_start r.scheduler j r.clock;
        activity = calls j;
        p2_starts = if j.priority == p2 then r.clock ∷ r.p2_starts else r.p2_starts;
      })
  done : (r : Run P) (j : Job P) → r.activity ≡ calls j → Step r (record r { activity = idle })

pub data Reach {P : Type 0} (r : Run P) : Run P → Type 0 where
  here : Reach r r
  next : {s t : Run P} → Reach r s → Step s t → Reach r t
