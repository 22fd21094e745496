-- ===== src/Worker/AgentReply.antt =====
-- ufoundry/worker.py: an agent's request for the user's approval (`request_approval` in
-- `_run_with_orchestrator`) and `resolve_orchestrator_approval`, which the replies from the control
-- panel come to. The token of `secrets.token_hex` is an argument; so are the replies that arrive
-- within the 300 seconds of the wait, in order. The event that asks the user is left out.
pub mod First
use ufoundry.Base.{
  Bool, false, Option, none, some, List, [], ◌∷◌, Text, text_eq, Dict, lookup, store, without,
}

-- self._pending_orchestrator_approvals: the futures by token, each with its result if it has one
abbrev pub Approvals : Type 0
Approvals = Dict Text (Option Bool)

unfoldable pub resolve_orchestrator_approval : Text → Bool → Approvals → Approvals
resolve_orchestrator_approval token approved futures = elim (lookup token futures) [
  | none ↦ futures
  | some none ↦ store token (some approved) futures
  | some (some earlier) ↦ futures
]

-- The replies of other agents' requests among them.
unfoldable pub resolve_all : List (Text × Bool) → Approvals → Approvals
unfolding resolve_orchestrator_approval
resolve_all [] futures = futures
resolve_all ((token, approved) ∷ replies) futures =
    resolve_all replies (resolve_orchestrator_approval token approved futures)

-- The result of the future, or False where the wait timed out.
pub result_of : Option (Option Bool) → Bool
result_of none = false
result_of (some none) = false
result_of (some (some approved)) = approved

unfoldable pub await_approval : Text → List (Text × Bool) → Approvals → Bool × Approvals
unfolding resolve_all result_of
await_approval token replies futures =
    let after = resolve_all replies (store token none futures) in
    (result_of (lookup token after), without token after)
