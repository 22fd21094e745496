-- ===== src/Worker/AgentGuard/Passes.antt =====
-- ufoundry/worker.py, `_build_agent_tool_guard`: which calls of an agent pass.
use ufoundry.Base.{
  ◌≡◌, ◌≢◌, ◌↔◌, refl, true, false, Bool-cases, inl, inr, ◌⊎◌, List, [], ◌∷◌, Text, text_eq, ◌==◌,
  ==_iff, Option, none, some, contains, codes, arith, All, is_empty,
}
use ufoundry.Tools.Registry.{Tool, get, validate_args, risk_red}
use ufoundry.Policy.Rules.{CompiledRule, decide_tool}
use ufoundry.Worker.Arguments.{Arguments}
use ufoundry.Worker.Approval.{is_auto_mode}
use ufoundry.Worker.Gate.Guards.{
  Flow, Settings, approves, tool_context, Access, access_granted, access_denied, security_guard,
}
use ufoundry.Worker.AgentGuard.{
  GuardError, first_raised, as_object, args_guard, rule_effect, rule_guard, access_guard,
  address_guard, risk_guard, tool_guards, known_guard, agent_tool_guard,
}

none_raised :
    (guards : List (Option GuardError)) → first_raised guards ≡ none → All (λ e. e ≡ none) guards
unfolding first_raised
none_raised [] h = tt
none_raised (none ∷ rest) h = (refl, none_raised rest h)
none_raised (some e ∷ rest) h = cc h

module _ {S H : Type 0} (check : Arguments → S → Option Text) (set : Settings S H) (flow : Flow)
    (allowed_tools : List Text) (name : Text) (arguments : Arguments) where
  abbrev own_args : Arguments
  own_args = as_object arguments

  abbrev Approved : Type 0
  Approved = approves set flow allowed_tools name own_args ≡ true

  abbrev effect : Text
  effect = (decide_tool set.rules name (tool_context flow)).effect

  -- What the guard demands of a tool that is registered.
  abbrev pub Accepts : Tool S H → Type 0
  Accepts tool =
      (get set.tools name ≡ some tool)
      × (validate_args check set.tools name own_args ≡ none)
      × (effect ≢ codes "deny")
      × (effect ≡ codes "require_confirmation" → Approved)
      × (security_guard set flow name ≡ access_granted)
      × (address_guard check set flow allowed_tools name arguments ≡ none)
      × (tool.risk_level ≡ risk_red → Approved)

  args_ok :
      args_guard check set flow allowed_tools name arguments ≡ none
      → validate_args check set.tools name own_args ≡ none
  unfolding args_guard
  args_ok h = go (validate_args check set.tools name own_args) refl
    where
      go :
          (o : Option Text)
          → validate_args check set.tools name own_args ≡ o
          → validate_args check set.tools name own_args ≡ none
      go none e = e
      go (some m) e = cc (rw (e, args_guard) at h)

  access_ok :
      access_guard check set flow allowed_tools name arguments ≡ none
      → security_guard set flow name ≡ access_granted
  unfolding access_guard
  access_ok h = go (security_guard set flow name) refl
    where
      go :
          (a : Access)
          → security_guard set flow name ≡ a
          → security_guard set flow name ≡ access_granted
      go access_granted e = e
      go (access_denied r) e = cc (rw (e, access_guard) at h)

  risk_ok :
      (tool : Tool S H)
      → risk_guard check set flow allowed_tools name arguments tool ≡ none
      → tool.risk_level ≡ risk_red
      → Approved
  unfolding risk_guard
  risk_ok tool h red = ground (arith, (==_iff tool.risk_level risk_red).1 red)

  rule_effect_ok :
      (kind reason : Text)
      → rule_effect check set flow allowed_tools name arguments kind reason ≡ none
      → (kind ≢ codes "deny") × (kind ≡ codes "require_confirmation" → Approved)
  unfolding rule_effect
  rule_effect_ok kind reason h = elim (Bool-cases (kind == codes "deny")) [
    | inl e ↦ absurd (cc (rw e at h))
    | inr e ↦ (
      λ x. cc (e, (==_iff kind (codes "deny")).1 x),
      λ x. ground (arith, (rw e at h), (==_iff kind (codes "require_confirmation")).1 x),
    )
  ]

  rule_ok :
      (rules : List CompiledRule)
      → set.rules ≡ rules
      → rule_guard check set flow allowed_tools name arguments ≡ none
      → (effect ≢ codes "deny") × (effect ≡ codes "require_confirmation" → Approved)
  unfolding rule_guard decide_tool
  rule_ok [] e h = (λ x. cc (rw e at x), λ x. absurd (cc (rw e at x)))
  rule_ok (r ∷ rules) e h =
      let some_rule : is_empty set.rules ≡ false = rw e refl in
      rule_effect_ok effect (decide_tool set.rules name (tool_context flow)).reason
        (rw (some_rule, rule_guard) at h)

  known_ok :
      (found : Option (Tool S H))
      → get set.tools name ≡ found
      → known_guard check set flow allowed_tools name arguments ≡ none
      → (tool : Tool S H) × Accepts tool
  unfolding known_guard tool_guards
  known_ok none e h = cc (rw (e, known_guard) at h)
  known_ok (some tool) e h =
      let (a, (r, (s, (f, (k, _))))) =
        none_raised (tool_guards check set flow allowed_tools name arguments tool)
          (rw (e, known_guard) at h) in
      let (not_denied, asks) = rule_ok set.rules refl r in
      (tool, (e, args_ok a, not_denied, asks, access_ok s, f, risk_ok tool k))

  -- The other way round: where all this holds no guard raises.
  rule_passes :
      (kind reason : Text)
      → kind ≢ codes "deny"
      → (kind ≡ codes "require_confirmation" → Approved)
      → rule_effect check set flow allowed_tools name arguments kind reason ≡ none
  unfolding rule_effect
  rule_passes kind reason not_denied asks = elim (Bool-cases (kind == codes "deny")) [
    | inl e ↦ absurd (not_denied ((==_iff kind (codes "deny")).0 e))
    | inr e ↦ elim (Bool-cases (kind == codes "require_confirmation")) [
      | inl f ↦ rw (e, f, asks ((==_iff kind (codes "require_confirmation")).0 f)) refl
      | inr f ↦ rw (e, f) refl
    ]
  ]

  rules_pass :
      effect ≢ codes "deny"
      → (effect ≡ codes "require_confirmation" → Approved)
      → rule_guard check set flow allowed_tools name arguments ≡ none
  unfolding rule_guard
  rules_pass not_denied asks = elim (Bool-cases (is_empty set.rules)) [
    | inl e ↦ rw e refl
    | inr e ↦ rw e (rule_passes effect _ not_denied asks)
  ]

  risk_passes :
      (tool : Tool S H)
      → (tool.risk_level ≡ risk_red → Approved)
      → risk_guard check set flow allowed_tools name arguments tool ≡ none
  unfolding risk_guard
  risk_passes tool asks = elim (Bool-cases (tool.risk_level == risk_red)) [
    | inl e ↦ rw (e, asks ((==_iff tool.risk_level risk_red).0 e)) refl
    | inr e ↦ rw e refl
  ]

  known_passes :
      (tool : Tool S H)
      → Accepts tool
      → known_guard check set flow allowed_tools name arguments ≡ none
  unfolding known_guard tool_guards args_guard access_guard first_raised
  known_passes tool (registered, fits, not_denied, asks, granted, address, risk) =
      rw (registered, known_guard)
        (rw (fits, args_guard)
          (rw (rules_pass not_denied asks)
            (rw (granted, access_guard) (rw (address, risk_passes tool risk) refl))))

  -- Where agents' calls are not approved automatically the guard lets each call pass. Where they
  -- are, a call passes exactly if it names a registered tool on the list, its arguments fit the
  -- schema, the rules do not deny it, the access layer grants it, its address is not blocked, and
  -- the settings approve it where the rules or the RED risk level hold it for confirmation.
  pub agent_tool_guard-Accepts :
      (agent_tool_guard check set flow allowed_tools name arguments ≡ none) ↔ (
        (is_auto_mode set.policy ≡ false)
        ⊎ ((contains allowed_tools name ≡ true) × (tool : Tool S H) × Accepts tool))
  unfolding agent_tool_guard
  agent_tool_guard-Accepts = (
    λ h. elim (Bool-cases (is_auto_mode set.policy)) [
      | inr e ↦ inl e
      | inl e ↦ elim (Bool-cases (contains allowed_tools name)) [
        | inr f ↦ absurd (cc (rw (e, f) at h))
        | inl f ↦
            let (tool, ok) = known_ok (get set.tools name) refl (rw (e, f) at h) in
            inr (f, tool, ok)
      ]
    ],
    λ h. elim h [
      | inl off ↦ rw off refl
      | inr (listed, tool, ok) ↦ elim (Bool-cases (is_auto_mode set.policy)) [
        | inr off ↦ rw off refl
        | inl on ↦ rw (on, listed) (known_passes tool ok)
      ]
    ],
  )
