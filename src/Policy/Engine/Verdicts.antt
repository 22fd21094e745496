-- ===== src/Policy/Engine/Verdicts.antt =====
-- ufoundry/policy/engine.py, `evaluate`: when a tool call is allowed, held or refused.
use ufoundry.Base.{
  ℕ, ◌++◌, ◌≡◌, refl, ◌≢◌, true, false, codes, Option, none, some, List, [], ◌∷◌, Text, text_eq,
  ◌==◌, ==_iff, contains, is_empty, arith, lookup, Bool-cases, inl, inr, ◌⊎◌,
}
use ufoundry.Tools.Registry.{Tool, ToolRegistry, get, validate_args, risk_red}
use ufoundry.Policy.Engine.{
  PolicyDecision, refused, held, allowed_decision, ToolCall, Origin, Pending, evaluate,
  evaluate_named, evaluate_risk, request_confirmation, create_confirmation,
}

module _ {S H A M : Type 0} (check : A → S → Option Text) (tools : ToolRegistry S H)
    (allowed_tools : List Text) (call : ToolCall A M) where
  -- The call names a registered tool that is on the list, and its arguments fit the schema.
  abbrev pub Passes : Text → Tool S H → Type 0
  Passes name tool =
      (call.name ≡ some name)
      × (is_empty name ≡ false)
      × (contains allowed_tools name ≡ true)
      × (lookup name tools ≡ some tool)
      × (check call.arguments tool.schema ≡ none)

  module _ (pending : Pending A M) (token : Text) (origin : Origin A M) where
    abbrev verdict : PolicyDecision × Pending A M
    verdict = evaluate check tools allowed_tools pending token call origin

    Passes-verdict :
        (name : Text) (tool : Tool S H)
        → Passes name tool
        → verdict ≡ evaluate_risk tool.risk_level none pending token call origin
    unfolding evaluate evaluate_named get validate_args
    Passes-verdict [] tool p = cc p.1
    Passes-verdict (c ∷ s) tool p = ground (arith, p.0, p.1, p.2, p.3, p.4)

    abbrev Refused : Type 0
    Refused = (reason : Text) × (verdict ≡ (refused reason, pending))

    abbrev Outcome : Type 0
    Outcome = Refused ⊎ ((name : Text) × (tool : Tool S H) × Passes name tool)

    module _ (c : ℕ) (s : Text) (named : call.name ≡ some (c ∷ s))
        (listed : contains allowed_tools (c ∷ s) ≡ true) where
      by_check :
          (tool : Tool S H) (invalid : Option Text)
          → lookup (c ∷ s) tools ≡ some tool
          → check call.arguments tool.schema ≡ invalid
          → Outcome
      unfolding evaluate evaluate_named get validate_args
      by_check tool none known valid = inr (c ∷ s, tool, (named, refl, listed, known, valid))
      by_check tool (some message) known invalid =
          inl (codes "Invalid args: " ++ message, ground arith)

      by_tool : (found : Option (Tool S H)) → lookup (c ∷ s) tools ≡ found → Outcome
      unfolding evaluate evaluate_named get validate_args
      by_tool none missing = inl (codes "Unknown tool: " ++ (c ∷ s), ground arith)
      by_tool (some tool) known = by_check tool (check call.arguments tool.schema) known refl

    by_name : (name : Option Text) → call.name ≡ name → Outcome
    unfolding evaluate evaluate_named
    by_name none e = inl (codes "Missing tool name", ground arith)
    by_name (some []) e = inl (codes "Missing tool name", ground arith)
    by_name (some (c ∷ s)) e = elim (Bool-cases (contains allowed_tools (c ∷ s))) [
      | inl listed ↦ by_tool c s e listed (lookup (c ∷ s) tools) refl
      | inr unlisted ↦ inl (codes "Tool " ++ ((c ∷ s) ++ codes " not allowed"), ground arith)
    ]

    refused_or_passes : Outcome
    refused_or_passes = by_name call.name refl

    -- A RED tool waits for a confirmation, any other runs.
    abbrev pub Held : Tool S H → Type 0
    Held tool =
        (tool.risk_level ≡ risk_red)
        × (verdict ≡ (held none token, create_confirmation pending token call origin))

    abbrev pub Runs : Tool S H → Type 0
    Runs tool = (tool.risk_level ≢ risk_red) × (verdict ≡ (allowed_decision, pending))

    pub Held-or_Runs : (name : Text) (tool : Tool S H) → Passes name tool → Held tool ⊎ Runs tool
    unfolding evaluate_risk request_confirmation
    Held-or_Runs name tool p =
        let same = Passes-verdict name tool p in
        let red = ==_iff tool.risk_level risk_red in
        elim (Bool-cases (tool.risk_level == risk_red)) [
          | inl e ↦ inl (red.0 e, (rw e at same))
          | inr e ↦ inr ((λ x. cc (red.1 x)), (rw e at same))
        ]

    Passes-not_Refused : (name : Text) (tool : Tool S H) → Passes name tool → Refused → ⊥
    Passes-not_Refused name tool p (reason, e) = elim (Held-or_Runs name tool p) [
      | inl (_, waits) ↦ cc
      | inr (_, runs) ↦ cc
    ]

    -- A call that fails a check is refused with a reason, and nothing starts to wait. One that
    -- passes all checks (it names a tool on the list that is registered and whose schema its
    -- arguments fit) is held for a confirmation, stored under the token, if the tool's risk is
    -- RED, and is allowed with nothing stored if it is not.
    pub evaluate_cases :
        Refused × ((name : Text) (tool : Tool S H) → ¬ (Passes name tool))
        ⊎ ((name : Text) × (tool : Tool S H) × Passes name tool × Held tool)
        ⊎ ((name : Text) × (tool : Tool S H) × Passes name tool × Runs tool)
    evaluate_cases = elim refused_or_passes [
      | inl r ↦ inl (r, λ name tool p. Passes-not_Refused name tool p r)
      | inr (name, tool, p) ↦ elim (Held-or_Runs name tool p) [
        | inl h ↦ inr (inl (name, tool, p, h))
        | inr h ↦ inr (inr (name, tool, p, h))
      ]
    ]
