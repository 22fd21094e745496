-- ===== src/Gateway/Events/Confirmed.antt =====
-- ufoundry/gateway.py: the way of a confirmation from the worker's request to the job that runs it.
use ufoundry.Base.{
  ℕ, zero, suc, ◌<◌, ◌≡◌, ◌≢◌, ◌∙◌, ap, sym, ◌==◌, ==_iff, Bool-cases, inl, inr, lookup-store,
  lookup-without, false, refl, true, false, some, none, List, [], ◌∷◌, ◌++◌, Text, codes, text_eq,
  pair_eq, length, lookup, without, lookup-without_self, arith, starts_with,
}
use ufoundry.Policy.Engine.{Key, Pending, ToolCall, Origin, confirmation, create_confirmation}
use ufoundry.Policy.Engine.Tokens.{IsToken, consume-request}
use ufoundry.Storage.Queue.{enqueue_job}
use ufoundry.Gateway.Router.{control, Routed, is_control, route}
use ufoundry.Gateway.Events.{
  WsEvent, confirm, GatewayState, GatewayConfig, incoming, is_agent_reply, hint_of, policy_at,
  set_policy, on_ws_event, act_on_routed, accept, worker_requests,
}

module _ {A M : Type 0} where
  pub policy_at-set_policy :
      (n : ℕ) (p : Pending A M) (ps : List (Pending A M))
      → n < length ps
      → policy_at n (set_policy n p ps) ≡ p
  unfolding policy_at set_policy
  policy_at-set_policy n p [] h = absurd (omega arith)
  policy_at-set_policy zero p (q ∷ ps) h = refl
  policy_at-set_policy (suc n) p (q ∷ ps) h = policy_at-set_policy n p ps (omega arith)

  pub policy_at-set_other :
      (n m : ℕ) (p : Pending A M) (ps : List (Pending A M))
      → n ≢ m
      → policy_at n (set_policy m p ps) ≡ policy_at n ps
  unfolding policy_at set_policy
  policy_at-set_other n m p [] h = refl
  policy_at-set_other zero zero p (q ∷ ps) h = absurd (h refl)
  policy_at-set_other zero (suc m) p (q ∷ ps) h = refl
  policy_at-set_other (suc n) zero p (q ∷ ps) h = refl
  policy_at-set_other (suc n) (suc m) p (q ∷ ps) h =
      policy_at-set_other n m p ps (λ e. h (ap suc e))

  pub set_policy_twice :
      (n : ℕ) (p q : Pending A M) (ps : List (Pending A M))
      → set_policy n p (set_policy n q ps) ≡ set_policy n p ps
  unfolding set_policy
  set_policy_twice n p q [] = refl
  set_policy_twice zero p q (r ∷ ps) = refl
  set_policy_twice (suc n) p q (r ∷ ps) = cc (set_policy_twice n p q ps)

  pub length-set_policy :
      (n : ℕ) (p : Pending A M) (ps : List (Pending A M)) → length (set_policy n p ps) ≡ length ps
  unfolding set_policy
  length-set_policy n p [] = refl
  length-set_policy zero p (q ∷ ps) = refl
  length-set_policy (suc n) p (q ∷ ps) = omega (arith, length-set_policy n p ps)

ne_key : {own : Key} (key : Key) → key ≢ own → own == key ≡ false
ne_key {own} key other = elim (Bool-cases (own == key)) [
  | inl e ↦ absurd (other (sym ((==_iff own key).0 e)))
  | inr e ↦ e
]

module _ {A M : Type 0} (cfg : GatewayConfig) (now : ℕ) (connector channel mode : Text)
    (event : WsEvent) (s : GatewayState A M) (token : Text) (call : ToolCall A M)
    (origin : Origin A M) where
  abbrev asked : GatewayState A M
  asked = worker_requests token call origin s

  abbrev answered : GatewayState A M
  answered = on_ws_event cfg now connector channel mode event asked

  abbrev made : Pending A M
  made = create_confirmation (policy_at s.worker_policy s.policies) token call origin

  abbrev left : Pending A M
  left = without (origin.chat_id, token) made

  abbrev accepted : Routed A M
  accepted = record { kind = control; pending_confirmation = some (confirmation token call origin) }

  module _ (is_token : IsToken token)
      (controls : is_control cfg.manager cfg.control
          (hint_of mode)
          (incoming connector channel event)
        ≡ true)
      (says : event.text ≡ codes "YES " ++ token) (chat : event.chat_id ≡ origin.chat_id) where
    routed :
        route cfg.manager cfg.control (hint_of mode) (incoming connector channel event) made
        ≡ (accepted, left)
    unfolding route
    routed =
        let consumed =
          consume-request (policy_at s.worker_policy s.policies) token call origin is_token in
        rw controls (rw (says, chat) (rw consumed refl))

    others_wait :
        (key : Key)
        → key ≢ (origin.chat_id, token)
        → lookup key left ≡ lookup key (policy_at s.worker_policy s.policies)
    unfolding create_confirmation
    others_wait key other =
        let pending = policy_at s.worker_policy s.policies in
        let differs : (origin.chat_id, token) == key ≡ false = ne_key key other in
        rw (lookup-without (origin.chat_id, token) key made, differs)
          (rw
            (
              lookup-store (origin.chat_id, token) key (confirmation token call origin) pending,
              differs,
            )
            refl)

    policy_at-set_policy_twice :
        (n : ℕ)
        → n ≢ s.worker_policy
        → policy_at n (set_policy s.worker_policy left (set_policy s.worker_policy made s.policies))
          ≡ policy_at n s.policies
    policy_at-set_policy_twice n other =
        policy_at-set_other n s.worker_policy left (set_policy s.worker_policy made s.policies)
          other
        ∙ policy_at-set_other n s.worker_policy made s.policies other

    no_agent_reply : is_agent_reply event.text ≡ false
    unfolding starts_with
    no_agent_reply = rw says refl

    -- A tool call that the worker holds under a token, which is not empty and has no blanks, is run
    -- once its chat answers "YES" and the token in a control message: a job is enqueued with just
    -- this call, for the chat and channel it came from, and the audit log gets one entry for it.
    -- This confirmation is gone; all others, those of other engines included, are as they were
    -- before the worker asked, and so are the sessions. The router and the worker have to use one
    -- engine, which is one of those that exist.
    pub on_ws_event-confirms :
        s.router_policy ≡ s.worker_policy
        → s.worker_policy < length s.policies
        → (answered.jobs
            ≡ (enqueue_job now origin.chat_id origin.channel
                (confirm (confirmation token call origin))
                s.jobs).1)
          × (answered.audits ≡ s.audits ++ (origin.chat_id, call.name) ∷ [])
          × (lookup (origin.chat_id, token) (policy_at answered.router_policy answered.policies)
              ≡ none)
          × ((key : Key)
              → key ≢ (origin.chat_id, token)
              → lookup key (policy_at answered.router_policy answered.policies)
                ≡ lookup key (policy_at s.router_policy s.policies))
          × ((n : ℕ) → n ≢ s.router_policy → policy_at n answered.policies ≡ policy_at n s.policies)
          × (answered.sessions ≡ s.sessions)
    unfolding on_ws_event act_on_routed accept worker_requests confirmation
    on_ws_event-confirms one known =
        let there = policy_at-set_policy s.worker_policy made s.policies known in
        let after =
          policy_at-set_policy s.worker_policy left (set_policy s.worker_policy made s.policies)
            (omega (arith, length-set_policy s.worker_policy made s.policies, known)) in
        rw one (
          rw there (
            rw routed (
              rw no_agent_reply (
                refl,
                refl,
                rw after (lookup-without_self (origin.chat_id, token) made),
                λ key other. rw after (others_wait key other),
                λ n other. policy_at-set_policy_twice n other,
                refl,
              ))))
