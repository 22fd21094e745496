-- ===== src/Policy/Rules/Decisions.antt =====
-- ufoundry/policy/rules.py: which rule decides, over rules as `_compile_rules` gives them.
use ufoundry.Base.{
  ◌≡◌, refl, ◌∙◌, Bool, true, false, not, ◌&&◌, List, [], ◌∷◌, Text, ◌==◌, text_eq, none, some,
  Bool-cases, inl, inr, ◌⊎◌, arith, All, In, IsSorted, leb_ℤ-refl, leb_ℤ→≤ℤ, ◌≤ℤ◌, filter, is_empty,
}
use ufoundry.Policy.Rules.{
  RuleContext, CompiledRule, matches, inherit, no_tool_decision, tool_decision_of, decide_tool,
  decide_intent, tool_matches,
}
use ufoundry.Policy.Rules.Compile.{RuleConfig, runs_before, compile_rules}
use ufoundry.Policy.Rules.Compile.Order.{compile_rules-IsSorted}

-- The rule matches the tool call and has an effect of its own.
pub fires : RuleContext → Text → CompiledRule → Bool
fires context name rule = matches rule context (some name) && not (rule.tool_effect == inherit)

decide_tool-cons :
    (rule : CompiledRule) (rules : List CompiledRule) (name : Text) (context : RuleContext)
    → decide_tool (rule ∷ rules) name context ≡ (elim (fires context name rule) [
      | true ↦ tool_decision_of rule
      | false ↦ decide_tool rules name context
    ])
unfolding decide_tool fires
decide_tool-cons rule rules name context = ground arith

-- The rule fires, decides, and no rule that fires runs before it.
abbrev pub Decides : RuleContext → Text → List CompiledRule → CompiledRule → Type 0
Decides context name rules r =
    In r rules
    × (fires context name r ≡ true)
    × (decide_tool rules name context ≡ tool_decision_of r)
    × All (λ s. fires context name s ≡ true → r.priority ≤ℤ s.priority) rules

abbrev Outcome : RuleContext → Text → List CompiledRule → Type 0
Outcome context name rules =
    (decide_tool rules name context ≡ no_tool_decision)
      × All (λ r. fires context name r ≡ false) rules
    ⊎ ((r : CompiledRule) × Decides context name rules r)

after_first :
    (context : RuleContext) (name : Text) (r : CompiledRule) (rules : List CompiledRule)
    → All (λ s. runs_before r s ≡ true) rules
    → All (λ s. fires context name s ≡ true → r.priority ≤ℤ s.priority) rules
after_first context name r [] h = tt
after_first context name r (s ∷ rules) h =
    (λ _. leb_ℤ→≤ℤ r.priority s.priority h.0, after_first context name r rules h.1)

outcome :
    (context : RuleContext) (name : Text) (rules : List CompiledRule)
    → IsSorted runs_before rules
    → Outcome context name rules
outcome context name [] h = inl (unfold decide_tool in refl, tt)
outcome context name (rule ∷ rules) h = elim (Bool-cases (fires context name rule)) [
  | inl now ↦
      let same = decide_tool-cons rule rules name context in
      let own = leb_ℤ→≤ℤ rule.priority rule.priority (leb_ℤ-refl rule.priority) in
      let rest = after_first context name rule rules h.0 in
      inr (rule, (inl refl, now, rw now at same, ((λ _. own), rest)))
  | inr later ↦
      let same = decide_tool-cons rule rules name context in
      elim (outcome context name rules h.1) [
        | inl (e, none_fires) ↦ inl ((rw later at same) ∙ e, (later, none_fires))
        | inr (r, (there, now, e, least)) ↦
            inr (r, (inr there, now, (rw later at same) ∙ e, ((λ fired. cc), least)))
      ]
]

-- On compiled rules `decide_tool` gives "inherit" with no reason exactly where no rule fires, and
-- else the decision of a rule that fires and whose priority is least among those that fire.
pub decide_tool_least :
    (raw : List RuleConfig) (name : Text) (context : RuleContext)
    → (decide_tool (compile_rules raw) name context ≡ no_tool_decision)
        × All (λ r. fires context name r ≡ false) (compile_rules raw)
      ⊎ ((r : CompiledRule) × Decides context name (compile_rules raw) r)
decide_tool_least raw name context =
    outcome context name (compile_rules raw) (compile_rules-IsSorted raw)

-- A rule with tool patterns matches no message, since `decide_intent` passes no tool name.
matches-tools :
    (rule : CompiledRule) (context : RuleContext)
    → is_empty rule.tools ≡ false
    → matches rule context none ≡ false
unfolding matches tool_matches
matches-tools rule context h = rw h (ground arith)

-- `decide_intent` ignores each rule that names tools: dropping those rules changes no decision.
pub decide_intent-ignores_tools :
    (rules : List CompiledRule) (context : RuleContext)
    → decide_intent rules context ≡ decide_intent (filter (λ r. is_empty r.tools) rules) context
unfolding decide_intent
decide_intent-ignores_tools [] context = refl
decide_intent-ignores_tools (rule ∷ rules) context =
    ground (arith, matches-tools rule context, decide_intent-ignores_tools rules context)
