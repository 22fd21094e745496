-- ===== src/Worker/AgentReply/First.antt =====
-- ufoundry/worker.py: the reply that an agent's request for approval is answered by.
use ufoundry.Base.{
  ◌≡◌, refl, ap, ◌∙◌, Bool, false, Option, none, some, List, [], ◌∷◌, Text, text_eq, ◌==◌, ==_iff,
  Bool-cases, inl, inr, if◌then◌else◌, lookup, store, lookup-store, lookup-store_self,
  lookup-without_self,
}
use ufoundry.Worker.AgentReply.{
  Approvals, resolve_orchestrator_approval, resolve_all, result_of, await_approval,
}

-- The first reply with the token, and a refusal if there is none.
abbrev pub first_reply : Text → List (Text × Bool) → Bool
first_reply token [] = false
first_reply token ((other, approved) ∷ replies) =
    if other == token then approved else first_reply token replies

-- A reply to another token does not touch the future.
lookup-resolve_other :
    (token other : Text) (approved : Bool) (futures : Approvals)
    → other == token ≡ false
    → lookup token (resolve_orchestrator_approval other approved futures) ≡ lookup token futures
unfolding resolve_orchestrator_approval
lookup-resolve_other token other approved futures ne = go (lookup other futures) refl
  where
    go :
        (found : Option (Option Bool))
        → lookup other futures ≡ found
        → lookup token (resolve_orchestrator_approval other approved futures) ≡ lookup token futures
    go none e = rw (e, resolve_orchestrator_approval) refl
    go (some none) e =
        rw (e, resolve_orchestrator_approval)
          (rw (lookup-store other token (some approved) futures) (rw ne refl))
    go (some (some earlier)) e = rw (e, resolve_orchestrator_approval) refl

-- The first reply to a future is its result, and a later one changes nothing.
lookup-resolve_first :
    (token : Text) (approved : Bool) (futures : Approvals)
    → lookup token futures ≡ some none
    → lookup token (resolve_orchestrator_approval token approved futures) ≡ some (some approved)
unfolding resolve_orchestrator_approval
lookup-resolve_first token approved futures waits =
    rw (resolve_orchestrator_approval, waits) (lookup-store_self token (some approved) futures)

lookup-resolve_again :
    (token : Text) (approved result : Bool) (futures : Approvals)
    → lookup token futures ≡ some (some result)
    → lookup token (resolve_orchestrator_approval token approved futures) ≡ some (some result)
unfolding resolve_orchestrator_approval
lookup-resolve_again token approved result futures done =
    rw (resolve_orchestrator_approval, done) done

-- A future that has its result keeps it.
lookup-resolve_done :
    (token : Text) (result : Bool) (replies : List (Text × Bool)) (futures : Approvals)
    → lookup token futures ≡ some (some result)
    → lookup token (resolve_all replies futures) ≡ some (some result)
unfolding resolve_all
lookup-resolve_done token result [] futures done = done
lookup-resolve_done token result ((other, approved) ∷ replies) futures done =
    lookup-resolve_done token result replies (resolve_orchestrator_approval other approved futures)
      (elim (Bool-cases (other == token)) [
        | inl same ↦
            rw ((==_iff other token).0 same)
              (lookup-resolve_again token approved result futures done)
        | inr ne ↦ lookup-resolve_other token other approved futures ne ∙ done
      ])

-- A future without a result gets that of the first reply.
result_of-resolve_all :
    (token : Text) (replies : List (Text × Bool)) (futures : Approvals)
    → lookup token futures ≡ some none
    → result_of (lookup token (resolve_all replies futures)) ≡ first_reply token replies
unfolding resolve_all result_of
result_of-resolve_all token [] futures waits = rw waits refl
result_of-resolve_all token ((other, approved) ∷ replies) futures waits =
    elim (Bool-cases (other == token)) [
      | inl same ↦ rw same (
          ap result_of (
            lookup-resolve_done token approved replies
              (resolve_orchestrator_approval other approved futures)
              (rw ((==_iff other token).0 same)
                (lookup-resolve_first token approved futures waits))))
      | inr ne ↦ rw ne (
          result_of-resolve_all token replies (resolve_orchestrator_approval other approved futures)
            (lookup-resolve_other token other approved futures ne ∙ waits))
    ]

-- An agent's request for approval is answered by the first reply with its token, or refused if
-- none arrives within the wait; replies with other tokens do not count. Its token is unknown
-- afterwards.
pub await_approval-first :
    (token : Text) (replies : List (Text × Bool)) (futures : Approvals)
    → ((await_approval token replies futures).0 ≡ first_reply token replies)
      × (lookup token (await_approval token replies futures).1 ≡ none)
unfolding await_approval
await_approval-first token replies futures = (
  result_of-resolve_all token replies (store token none futures)
      (lookup-store_self token none futures),
  lookup-without_self token (resolve_all replies (store token none futures)),
)
