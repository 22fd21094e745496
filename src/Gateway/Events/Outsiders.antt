-- ===== src/Gateway/Events/Outsiders.antt =====
-- ufoundry/gateway.py: what a message that is no control message can do.
use ufoundry.Base.{
  ℕ, zero, suc, ◌≡◌, refl, false, Bool-cases, inl, inr, Option, some, none, List, [], ◌∷◌, ◌++◌,
  append-nil, Text, codes, text_eq, ◌==◌, All, split_colon,
}
use ufoundry.Policy.Engine.{Pending}
use ufoundry.Storage.Queue.{JobRow, new_job, enqueue_job}
use ufoundry.Gateway.Router.{external, is_control, route}
use ufoundry.Gateway.Events.{
  WsEvent, JobPayload, confirm, agent_approve, message, GatewayState, GatewayConfig, incoming,
  is_agent_reply, hint_of, get_connector_role, policy_at, set_policy, enqueue, agent_reply,
  message_job, take_listener, take_own, take_message, act_on_routed, on_ws_event,
}

module _ {A M : Type 0} where
  set_policy_same : (n : ℕ) (ps : List (Pending A M)) → set_policy n (policy_at n ps) ps ≡ ps
  unfolding policy_at set_policy
  set_policy_same n [] = refl
  set_policy_same zero (p ∷ ps) = refl
  set_policy_same (suc n) (p ∷ ps) = cc (set_policy_same n ps)

  -- A job that hands a message that is no control message to the worker, or the reply to an agent's
  -- request.
  abbrev pub IsOutside : JobPayload A M → Type 0
  IsOutside (confirm p) = ⊥
  IsOutside (agent_approve token approved) = Unit
  IsOutside (message job) = job.kind ≡ external

  -- The job rows that are added, with no confirmation touched.
  pub record AddsOnly (before after : GatewayState A M) : Type 0 where
    pub added : List (JobRow (JobPayload A M))
    pub jobs_are : after.jobs.rows ≡ before.jobs.rows ++ added
    pub outside_only : All (λ row. IsOutside row.payload) added
    pub policies_are : after.policies ≡ before.policies
    pub audits_are : after.audits ≡ before.audits

  module _ (now : ℕ) (s : GatewayState A M) where
    agent_reply-AddsOnly :
        (channel : Text) (parts : Option (Text × Text))
        → AddsOnly s (agent_reply now channel parts s)
    unfolding agent_reply enqueue_job new_job
    agent_reply-AddsOnly channel none = record {
      added = [];
      jobs_are = rw append-nil refl;
      outside_only = tt;
      policies_are = refl;
      audits_are = refl;
    }
    agent_reply-AddsOnly channel (some (head, [])) = record {
      added = [];
      jobs_are = rw append-nil refl;
      outside_only = tt;
      policies_are = refl;
      audits_are = refl;
    }
    agent_reply-AddsOnly channel (some (head, c ∷ token)) = record {
      added =
          new_job s.jobs.next_id (codes "admin") channel
            (agent_approve (c ∷ token) (head == codes "AGENT_APPROVE")) now
          ∷ [];
      jobs_are = refl;
      outside_only = (tt, tt);
      policies_are = refl;
      audits_are = refl;
    }

    module _ (cfg : GatewayConfig) (connector channel : Text) (event : WsEvent) where
      take_message-AddsOnly : AddsOnly s (take_message cfg now external connector channel event s)
      unfolding take_message take_listener take_own enqueue enqueue_job new_job message_job
      take_message-AddsOnly =
          elim (Bool-cases (get_connector_role cfg.roles connector == codes "listener")) [
            | inl e ↦ rw e (record {
              added = _ ∷ [];
              jobs_are = refl;
              outside_only = (refl, tt);
              policies_are = refl;
              audits_are = refl;
            })
            | inr e ↦ rw e (record {
              added = _ ∷ [];
              jobs_are = refl;
              outside_only = (refl, tt);
              policies_are = refl;
              audits_are = refl;
            })
          ]

      -- A message that is no control message accepts no confirmation: whatever its text, the tables
      -- of all policy engines and the log stay as they are, and each job that is added is a reply to
      -- an agent's request for approval or hands the message to the worker as an external one.
      pub on_ws_event-AddsOnly :
          (mode : Text)
          → is_control cfg.manager cfg.control (hint_of mode) (incoming connector channel event)
            ≡ false
          → AddsOnly s (on_ws_event cfg now connector channel mode event s)
      unfolding on_ws_event act_on_routed route
      on_ws_event-AddsOnly mode outside = elim (Bool-cases (is_agent_reply event.text)) [
        | inl e ↦ rw e (agent_reply-AddsOnly channel (split_colon event.text))
        | inr e ↦
            rw (e, outside) (rw (set_policy_same s.router_policy s.policies) take_message-AddsOnly)
      ]
