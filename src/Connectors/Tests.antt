-- ===== src/Connectors/Tests.antt =====
-- The theorems on the connectors at concrete inputs.
use ufoundry.Base.{◌≡◌, List, [], ◌∷◌}
use ufoundry.Connectors.Resilience.{new_breaker}
use ufoundry.Connectors.Resilience.Breaker.{
  Event, asks, fails, succeeds, healthy, answers, promised, answers-promised_new,
}

abbrev events : List Event
events =
    fails 1 ∷ fails 2 ∷ asks 3 ∷ asks 50 ∷ asks 51 ∷ fails 52 ∷ asks 53 ∷ succeeds ∷ asks 54 ∷ []

answers-promised_new_example : answers 2 30 events new_breaker ≡ promised 2 30 events (healthy 0)
answers-promised_new_example = answers-promised_new 2 30 events
