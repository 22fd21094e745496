-- ===== src/Llm/RateLimiter.antt =====
-- ufoundry/llm/rate_limiter.py. Times are in hundredths of a second: 60.0 is 6000 and 0.1 is 10.
-- One iteration of the loop in `acquire` is `attempt`; between two iterations the lock is free and
-- other coroutines run, which the steps of `Step` interleave in any order.
pub mod Budget
pub mod Progress
use ufoundry.Base.{
  ℕ, zero, suc, ◌+◌, ◌-◌, ◌≤◌, Bool, true, false, List, [], ◌∷◌, ◌++◌, if◌then◌else◌, leb,
}

-- The time and the tokens of a grant.
abbrev pub Entry : Type 0
Entry = ℕ × ℕ

abbrev pub span : ℕ
span = 6000

-- `while self._window and now - self._window[0][0] >= 60.0: self._window.popleft()`
unfoldable pub expire : ℕ → List Entry → List Entry
expire now [] = []
expire now ((t, tokens) ∷ window) =
    let rest = expire now window in if leb span (now - t) then rest else (t, tokens) ∷ window

-- sum(t for _, t in self._window)
unfoldable pub used : List Entry → ℕ
used [] = 0
used ((t, tokens) ∷ window) = tokens + used window

-- How one iteration ends: the caller returns, sleeps for a time, or meets the IndexError of
-- `self._window[0]` on an empty window.
pub data Outcome : Type 0 where
  granted : List Entry → Outcome
  sleeps : ℕ → List Entry → Outcome
  index_error : Outcome

pub blocked : ℕ → List Entry → Outcome
blocked now [] = index_error
blocked now ((t, tokens) ∷ window) = sleeps (span - (now - t) + 10) ((t, tokens) ∷ window)

unfoldable pub attempt : ℕ → ℕ → ℕ → List Entry → Outcome
attempt limit tokens now window =
    let live = expire now window in
    if leb (used live + tokens) limit
    then granted (live ++ (now, tokens) ∷ [])
    else blocked now live

-- The loop of one caller, while no other coroutine changes the window and each sleep takes its
-- exact time. With the fuel spent the answer is none.
pub data Acquired : Type 0 where
  at_time : ℕ → List Entry → Acquired
  raised : Acquired
  out_of_fuel : Acquired

pub acquire : ℕ → ℕ → ℕ → ℕ → List Entry → Acquired
acquire zero limit tokens now window = out_of_fuel
acquire (suc fuel) limit tokens now window = elim (attempt limit tokens now window) [
  | granted after ↦ at_time now after
  | sleeps wait live ↦ acquire fuel limit tokens (now + wait) live
  | index_error ↦ raised
]
