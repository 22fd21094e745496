-- ===== src/Connectors/Resilience.antt =====
-- ufoundry/connectors/telegram_resilience.py: circuit breakers, the window of the send limiter and
-- the ceiling of the reconnection delay. Times are numbers of a unit of which `second` make one
-- second; the monotonic clock is an argument and does not go back.
pub mod Breaker
pub mod Window
use ufoundry.Base.{
  ℕ, ◌+◌, ◌-◌, ◌*◌, ◌^◌, Bool, true, false, Option, none, some, List, [], ◌∷◌, ◌++◌, Text, codes,
  text_eq, Dict, lookup, store, leb, ltb, length, if◌then◌else◌,
}

pub data CbState : Type 0 where
  closed opened half_open : CbState

-- A breaker's own fields, without its threshold and cooldown.
pub record CircuitBreaker : Type 0 where
  pub state : CbState
  pub failure_count : ℕ
  pub opened_at : ℕ

abbrev pub new_breaker : CircuitBreaker
new_breaker = record { state = closed; failure_count = 0; opened_at = 0 }

-- Whether calls are blocked, and the breaker.
pub is_open : ℕ → ℕ → CircuitBreaker → Bool × CircuitBreaker
is_open cooldown now b = elim b.state [
  | closed ↦ (false, b)
  | half_open ↦ (false, b)
  | opened ↦
      if leb cooldown (now - b.opened_at)
      then (false, record b { state = half_open })
      else (true, b)
]

pub record_success : CircuitBreaker → CircuitBreaker
record_success b = record b { state = closed; failure_count = 0 }

abbrev reopened : ℕ → CircuitBreaker → CircuitBreaker
reopened now b = record { state = opened; failure_count = b.failure_count + 1; opened_at = now }

-- Opens where the count reaches the threshold.
abbrev counted : ℕ → ℕ → CircuitBreaker → CircuitBreaker
counted threshold now b =
    if leb threshold (b.failure_count + 1)
    then reopened now b
    else record b { failure_count = b.failure_count + 1 }

pub record_failure : ℕ → ℕ → CircuitBreaker → CircuitBreaker
record_failure threshold now b = elim b.state [
  | half_open ↦ reopened now b
  | closed ↦ counted threshold now b
  | opened ↦ counted threshold now b
]

-- `ChatCircuitBreakers.get`: the chat's breaker, made where there is none.
pub get_breaker : Text → Dict Text CircuitBreaker → CircuitBreaker × Dict Text CircuitBreaker
get_breaker chat_id breakers = elim (lookup chat_id breakers) [
  | some b ↦ (b, breakers)
  | none ↦ (new_breaker, store chat_id new_breaker breakers)
]

-- The loop that takes the entries older than one second from the left.
pub expire : ℕ → ℕ → List ℕ → List ℕ
expire second now [] = []
expire second now (time ∷ window) =
    let rest = expire second now window in if leb second (now - time) then rest else time ∷ window

pub data Slot : Type 0 where
  slot_taken : List ℕ → Slot
  slot_wait : ℕ → List ℕ → Slot
  index_error : Slot

-- A full window: the time to sleep is what is left of the first entry's second and a margin of
-- 0.01 seconds.
pub full_slot : ℕ → ℕ → ℕ → List ℕ → Slot
full_slot second margin now [] = index_error
full_slot second margin now (time ∷ rest) = slot_wait (second - (now - time) + margin) (time ∷ rest)

-- One iteration of `_wait_for_slot`: the entry is made, or the time to sleep. A limit of zero
-- indexes the empty window.
unfoldable pub try_slot : ℕ → ℕ → ℕ → ℕ → List ℕ → Slot
unfolding expire full_slot
try_slot second margin limit now window =
    let live = expire second now window in
    if ltb (length live) limit
    then slot_taken (live ++ now ∷ [])
    else full_slot second margin now live

-- min(cap, base * 2 ** attempt), from which `random.uniform` draws
pub backoff_ceiling : ℕ → ℕ → ℕ → ℕ
backoff_ceiling attempt base cap =
    let raised = base * 2 ^ attempt in if leb cap raised then cap else raised
