-- ===== src/Worker/Gate/Reach.antt =====
-- ufoundry/worker.py, `_process_message`: which tool calls reach a handler.
use ufoundry.Base.{
  ◌≡◌, ◌≢◌, ◌↔◌, refl, Bool-cases, inl, inr, List, [], ◌∷◌, ◌++◌, Text, text_eq, Option, none, some,
  lookup, codes, if◌then◌else◌,
}
use ufoundry.Tools.Registry.{Tool, get, risk_red}
use ufoundry.Policy.Engine.{ToolCall, Origin, Pending, held, allowed_decision, create_confirmation}
use ufoundry.Policy.Engine.Verdicts.{Passes, evaluate_cases, Held-or_Runs}
use ufoundry.Worker.Arguments.{Arguments}
use ufoundry.Worker.Gate.{
  denied, asked, reaches, Gated, gate, declared_step, security_step, fetch_step, risk_step, act_on,
  check_allowed, find_tool, ask, refuse,
}
use ufoundry.Worker.Gate.Guards.{
  Audit, auto_approved, confirmation_requested, Declared, declared_pass, declared_deny,
  declared_ask, Fetch, fetch_pass, fetch_blocked, fetch_crash, Access, access_granted,
  access_denied, Flow, Settings, approves, listener_guard, declared_guard, security_guard,
  fetch_guard,
}

module _ {S H M : Type 0} (check : Arguments → S → Option Text) (set : Settings S H) (flow : Flow)
    (allowed_tools : List Text) (name : Text) (arguments : Arguments) (token : Text)
    (origin : Origin Arguments M) where
  abbrev made : ToolCall Arguments M
  made = record { name = some name; arguments = arguments }

  -- The guards before the guard of tool calls let the call pass.
  abbrev pub Cleared : List Audit → Type 0
  Cleared audits =
      (listener_guard flow name ≡ none)
      × (declared_guard set flow allowed_tools name arguments ≡ declared_pass audits)
      × (security_guard set flow name ≡ access_granted)
      × (fetch_guard set arguments ≡ fetch_pass)

  abbrev gated : Pending Arguments M → Gated S H M
  gated pending = gate check set flow allowed_tools name arguments token origin pending

  Cleared-gate :
      (audits : List Audit) (pending : Pending Arguments M)
      → Cleared audits
      → gated pending
        ≡ risk_step check set flow allowed_tools name arguments token origin audits pending
  unfolding gate declared_step security_step fetch_step
  Cleared-gate audits pending (a, b, c, d) =
      rw (a, gate) (rw (b, declared_step) (rw (c, security_step) (rw (d, fetch_step) refl)))

  module _ (pending : Pending Arguments M) (tool : Tool S H) where
    abbrev Reached : Gated S H M → Type 0
    Reached g = g.answer ≡ reaches tool

    by_fetch :
        (audits : List Audit) (f : Fetch)
        → fetch_guard set arguments ≡ f
        → Reached
            (fetch_step check set flow allowed_tools name arguments token origin audits pending)
        → f ≡ fetch_pass
    unfolding fetch_step refuse
    by_fetch audits fetch_pass e h = refl
    by_fetch audits fetch_crash e h = cc (rw (e, fetch_step) at h)
    by_fetch audits (fetch_blocked url x) e h = cc (rw (e, fetch_step) at h)

    by_security :
        (audits : List Audit) (a : Access)
        → security_guard set flow name ≡ a
        → Reached
            (security_step check set flow allowed_tools name arguments token origin audits pending)
        → (security_guard set flow name ≡ access_granted) × (fetch_guard set arguments ≡ fetch_pass)
    unfolding security_step refuse
    by_security audits access_granted e h =
        (e, by_fetch audits (fetch_guard set arguments) refl (rw (e, security_step) at h))
    by_security audits (access_denied r) e h = cc (rw (e, security_step) at h)

    by_declared :
        (d : Declared)
        → declared_guard set flow allowed_tools name arguments ≡ d
        → listener_guard flow name ≡ none
        → Reached (declared_step check set flow allowed_tools name arguments token origin pending)
        → (audits : List Audit) × Cleared audits
    unfolding declared_step refuse ask
    by_declared (declared_pass audits) e l h =
        let (s, f) =
          by_security audits (security_guard set flow name) refl (rw (e, declared_step) at h) in
        (audits, (l, e, s, f))
    by_declared (declared_deny r) e l h = cc (rw (e, declared_step) at h)
    by_declared (declared_ask r) e l h = cc (rw (e, declared_step) at h)

    by_listener :
        (m : Option Text)
        → listener_guard flow name ≡ m
        → Reached (gated pending)
        → (audits : List Audit) × Cleared audits
    unfolding gate refuse
    by_listener none e h =
        by_declared (declared_guard set flow allowed_tools name arguments) refl e
          (rw (e, gate) at h)
    by_listener (some m) e h = cc (rw (e, gate) at h)

  -- The guard of tool calls lets the call of `tool` pass at once.
  abbrev pub Eligible : Tool S H → Type 0
  Eligible tool = Passes check set.tools allowed_tools made name tool × (tool.risk_level ≢ risk_red)

  module _ (audits : List Audit) (pending : Pending Arguments M) where
    abbrev last_step : Gated S H M
    last_step = risk_step check set flow allowed_tools name arguments token origin audits pending

    abbrev stored : Pending Arguments M
    stored = create_confirmation pending token made origin

    Eligible-risk_step : (tool : Tool S H) → Eligible tool → last_step.answer ≡ reaches tool
    unfolding risk_step act_on check_allowed find_tool get
    Eligible-risk_step tool (passes, calm) =
        elim (Held-or_Runs check set.tools allowed_tools made pending token origin name tool
          passes) [
            | inl (red, _) ↦ absurd (calm red)
            | inr (_, runs) ↦ rw (runs, risk_step) (rw (passes.3, find_tool) refl)
          ]

    held_stops :
        {tool : Tool S H}
        → (act_on check set flow allowed_tools name arguments token origin
            (held none token)
            audits
            stored).answer
          ≡ reaches tool
        → ⊥
    unfolding act_on check_allowed refuse ask
    held_stops h = elim (Bool-cases (approves set flow allowed_tools name arguments)) [
      | inl e ↦ cc (rw e at h)
      | inr e ↦ cc (rw e at h)
    ]

    found_reaches :
        {tool : Tool S H} (other : Tool S H)
        → lookup name set.tools ≡ some other
        → (act_on check set flow allowed_tools name arguments token origin allowed_decision audits
            pending).answer
          ≡ reaches tool
        → other ≡ tool
    unfolding act_on check_allowed find_tool get
    found_reaches other found h = cc (rw (found, find_tool) at h)

    held_result :
        act_on check set flow allowed_tools name arguments token origin
          (held none token)
          audits
          stored
        ≡ (if approves set flow allowed_tools name arguments
            then record {
              answer = denied (codes "Tool denied: None");
              audits = audits ++ auto_approved (codes "risk_policy") ∷ [];
              pending = stored;
            }
            else record {
              answer = asked token;
              audits = audits ++ confirmation_requested token ∷ [];
              pending = stored;
            })
    unfolding act_on check_allowed refuse ask
    held_result = elim (Bool-cases (approves set flow allowed_tools name arguments)) [
      | inl e ↦ rw e refl
      | inr e ↦ rw e refl
    ]

    risk_step-Eligible : (tool : Tool S H) → last_step.answer ≡ reaches tool → Eligible tool
    unfolding risk_step act_on check_allowed find_tool get refuse ask
    risk_step-Eligible tool h =
        elim (evaluate_cases check set.tools allowed_tools made pending token origin) [
          | inl ((reason, e), _) ↦ absurd (cc (rw (e, risk_step) at h))
          | inr (inl (other_name, other, passes, (red, e))) ↦
              absurd (held_stops (rw (e, risk_step) at h))
          | inr (inr (other_name, other, passes, (calm, e))) ↦
              let same_name : other_name ≡ name = cc passes.0 in
              let own = rw same_name at passes in
              let same = found_reaches other own.3 (rw (e, risk_step) at h) in
              (rw same at own, rw same at calm)
        ]

  -- The handler of a tool is called exactly where the guards on Gmail's tools, the declarative
  -- rules, the access layer and the check of the address let the call pass, the tool is on the
  -- list of allowed tools and registered under the call's name, the arguments fit its schema, and
  -- its risk level is not RED.
  pub gate-reaches :
      (pending : Pending Arguments M) (tool : Tool S H)
      → ((gated pending).answer ≡ reaches tool)
        ↔ ((audits : List Audit) × Cleared audits × Eligible tool)
  gate-reaches pending tool = (
    λ h.
        let (audits, cleared) = by_listener pending tool (listener_guard flow name) refl h in
        (
          audits,
          cleared,
          risk_step-Eligible audits pending tool (rw (Cleared-gate audits pending cleared) at h),
        ),
    λ h. rw (Cleared-gate h.0 pending h.1) (Eligible-risk_step h.0 pending tool h.2),
  )

  -- A call of a RED tool that passes all the guards before leaves a confirmation under its token.
  -- Where the settings approve it without asking it is refused all the same, with no reason and
  -- with nobody asked; else the user is asked.
  pub gate-red :
      (pending : Pending Arguments M) (tool : Tool S H) (audits : List Audit)
      → Cleared audits
      → Passes check set.tools allowed_tools made name tool
      → tool.risk_level ≡ risk_red
      → gated pending ≡ (
          if approves set flow allowed_tools name arguments
          then record {
            answer = denied (codes "Tool denied: None");
            audits = audits ++ auto_approved (codes "risk_policy") ∷ [];
            pending = create_confirmation pending token made origin;
          }
          else record {
            answer = asked token;
            audits = audits ++ confirmation_requested token ∷ [];
            pending = create_confirmation pending token made origin;
          })
  unfolding risk_step act_on check_allowed refuse ask
  gate-red pending tool audits cleared passes red =
      elim (Held-or_Runs check set.tools allowed_tools made pending token origin name tool passes) [
        | inr (calm, _) ↦ absurd (calm red)
        | inl (_, e) ↦
            rw (Cleared-gate audits pending cleared)
              (rw (e, risk_step) (held_result audits pending))
      ]
