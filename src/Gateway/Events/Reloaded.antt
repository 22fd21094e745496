-- ===== src/Gateway/Events/Reloaded.antt =====
-- ufoundry/gateway.py: confirmations after `reload`.
use ufoundry.Base.{
  ℕ, zero, suc, ◌+◌, ◌<◌, ◌≡◌, ◌≢◌, refl, ap, ◌∙◌, Bool-cases, inl, inr, Option, some, none, List,
  [], ◌∷◌, ◌++◌, Text, codes, text_eq, pair_eq, ◌==◌, split_colon, length, lookup,
  lookup-store_self, arith,
}
use ufoundry.Policy.Engine.{Pending, ToolCall, Origin, confirmation, create_confirmation}
use ufoundry.Gateway.Router.{Routed, route}
use ufoundry.Gateway.Events.{
  WsEvent, GatewayState, GatewayConfig, get_connector_role, incoming, is_agent_reply, hint_of,
  policy_at, set_policy, enqueue, agent_reply, accept, take_listener, take_own, take_message,
  act_on_routed, on_ws_event, worker_requests, reload,
}
use ufoundry.Gateway.Events.Confirmed.{policy_at-set_policy}

pub record Arrival : Type 0 where
  pub now : ℕ
  pub connector : Text
  pub channel : Text
  pub mode : Text
  pub event : WsEvent

module _ {A M : Type 0} where
  policy_at-set_policy_other :
      (n m : ℕ) (p : Pending A M) (ps : List (Pending A M))
      → n ≢ m
      → policy_at n (set_policy m p ps) ≡ policy_at n ps
  unfolding policy_at set_policy
  policy_at-set_policy_other n m p [] h = refl
  policy_at-set_policy_other zero zero p (q ∷ ps) h = absurd (h refl)
  policy_at-set_policy_other zero (suc m) p (q ∷ ps) h = refl
  policy_at-set_policy_other (suc n) zero p (q ∷ ps) h = refl
  policy_at-set_policy_other (suc n) (suc m) p (q ∷ ps) h =
      policy_at-set_policy_other n m p ps (λ e. h (ap suc e))

  -- The worker's engine, its confirmations, and the router's engine stay the same.
  abbrev Keeps : GatewayState A M → GatewayState A M → Type 0
  Keeps s t =
      (t.worker_policy ≡ s.worker_policy)
      × (t.router_policy ≡ s.router_policy)
      × (policy_at s.worker_policy t.policies ≡ policy_at s.worker_policy s.policies)

  module _ (cfg : GatewayConfig) where
    agent_reply-Keeps :
        (now : ℕ) (channel : Text) (parts : Option (Text × Text)) (s : GatewayState A M)
        → Keeps s (agent_reply now channel parts s)
    unfolding agent_reply
    agent_reply-Keeps now channel none s = (refl, refl, refl)
    agent_reply-Keeps now channel (some (head, [])) s = (refl, refl, refl)
    agent_reply-Keeps now channel (some (head, c ∷ token)) s = (refl, refl, refl)

    act_on_routed-Keeps :
        (now : ℕ) (connector channel : Text) (event : WsEvent) (routed : Routed A M)
        (s : GatewayState A M)
        → Keeps s (act_on_routed cfg now connector channel event routed s)
    unfolding act_on_routed accept take_message take_listener take_own enqueue
    act_on_routed-Keeps now connector channel event routed s =
        by_pending routed.pending_confirmation refl
      where
        by_pending :
            (o : _)
            → routed.pending_confirmation ≡ o
            → Keeps s (act_on_routed cfg now connector channel event routed s)
        by_pending (some p) e = rw (e, act_on_routed) (refl, refl, refl)
        by_pending none e =
            elim (Bool-cases (get_connector_role cfg.roles connector == codes "listener")) [
              | inl l ↦ rw (e, act_on_routed) (rw l (refl, refl, refl))
              | inr l ↦ rw (e, act_on_routed) (rw l (refl, refl, refl))
            ]

    on_ws_event-Keeps :
        (a : Arrival) (s : GatewayState A M)
        → s.worker_policy ≢ s.router_policy
        → Keeps s (on_ws_event cfg a.now a.connector a.channel a.mode a.event s)
    unfolding on_ws_event
    on_ws_event-Keeps a s apart =
        let (routed, pending) =
          route cfg.manager cfg.control (hint_of a.mode) (incoming a.connector a.channel a.event)
            (policy_at s.router_policy s.policies) in
        let written : GatewayState A M = record s {
          policies = set_policy s.router_policy pending s.policies;
        } in
        let (w, r, same) = act_on_routed-Keeps a.now a.connector a.channel a.event routed written in
        elim (Bool-cases (is_agent_reply a.event.text)) [
          | inl e ↦ rw e (agent_reply-Keeps a.now a.channel (split_colon a.event.text) s)
          | inr e ↦ rw e (
            w,
            r,
            same
                ∙ policy_at-set_policy_other s.worker_policy s.router_policy pending s.policies
                    apart,
          )
        ]

    -- The messages that arrive, one after the other.
    pub on_ws_events : List Arrival → GatewayState A M → GatewayState A M
    on_ws_events [] s = s
    on_ws_events (a ∷ arrivals) s =
        on_ws_events arrivals (on_ws_event cfg a.now a.connector a.channel a.mode a.event s)

    on_ws_events-same :
        (arrivals : List Arrival) (s : GatewayState A M)
        → s.worker_policy ≢ s.router_policy
        → policy_at s.worker_policy (on_ws_events arrivals s).policies
          ≡ policy_at s.worker_policy s.policies
    unfolding on_ws_events on_ws_event policy_at
    on_ws_events-same [] s apart = refl
    on_ws_events-same (a ∷ arrivals) s apart =
        let (w, r, same) = on_ws_event-Keeps a s apart in
        let rest =
          on_ws_events-same arrivals (on_ws_event cfg a.now a.connector a.channel a.mode a.event s)
            (λ e. apart (cc (w, r, e))) in
        (rw w at rest) ∙ same

    length-append_one :
        (p : Pending A M) (ps : List (Pending A M)) → length (ps ++ p ∷ []) ≡ length ps + 1
    length-append_one p [] = omega arith
    length-append_one p (q ∷ ps) = omega (arith, length-append_one p ps)

    -- A tool call that the worker holds after the configuration was reloaded waits for ever: no
    -- messages, also not its chat's "YES" and token from the control panel, take the confirmation
    -- out, since the router looks into the policy engine from before.
    pub reload-waits :
        (s : GatewayState A M) (token : Text) (call : ToolCall A M) (origin : Origin A M)
        (arrivals : List Arrival)
        → s.router_policy < length s.policies
        → lookup
            (origin.chat_id, token)
            (policy_at
              (length s.policies)
              (on_ws_events arrivals (worker_requests token call origin (reload s))).policies)
          ≡ some (confirmation token call origin)
    unfolding reload worker_requests create_confirmation
    reload-waits s token call origin arrivals known =
        let before = policy_at (length s.policies) (s.policies ++ [] ∷ []) in
        let kept =
          on_ws_events-same arrivals (worker_requests token call origin (reload s))
            (λ e. omega (arith, e, known)) in
        let held =
          policy_at-set_policy (length s.policies) (create_confirmation before token call origin)
            (s.policies ++ [] ∷ []) (omega (arith, length-append_one [] s.policies)) in
        rw kept (
          rw held
            (lookup-store_self (origin.chat_id, token) (confirmation token call origin) before))
