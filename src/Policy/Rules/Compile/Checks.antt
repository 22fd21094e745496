-- ===== src/Policy/Rules/Compile/Checks.antt =====
-- ufoundry/policy/rules.py: what a compiled rule holds, whatever the configuration says.
use ufoundry.Base.{
  ℕ, suc, ◌≡◌, refl, subst, ◌⊎◌, inl, inr, Bool, true, false, not, ◌&&◌, if◌then◌else◌, List, [],
  ◌∷◌, Text, text_eq, Option, none, some, Bool-cases, arith, All, All-sort_by, contains, is_empty,
}
use ufoundry.Policy.Rules.{CompiledRule}
use ufoundry.Policy.Rules.Compile.{
  MatchConfig, ApplyConfig, RuleConfig, tool_effects, intent_actions, importance_levels,
  direction_names, role_names, norm_patterns, norm_enum_list, normal, compiled, compile_parts,
  compile_enabled, compile_rule, compile_each, compile_rules, runs_before,
}

abbrev pub Allowed : List Text → List Text → Type 0
Allowed allowed = All (λ value. contains allowed value ≡ true)

abbrev pub NonEmpty : List Text → Type 0
NonEmpty = All (λ value. is_empty value ≡ false)

-- What each compiled rule promises of its fields.
pub record IsCompiled (r : CompiledRule) : Type 0 where
  pub effect : contains tool_effects r.tool_effect ≡ true
  pub action : (is_empty r.set_action ≡ true) ⊎ (contains intent_actions r.set_action ≡ true)
  pub level :
      (is_empty r.set_importance ≡ true) ⊎ (contains importance_levels r.set_importance ≡ true)
  pub connectors : NonEmpty r.connectors
  pub connector_roles : Allowed role_names r.connector_roles
  pub channels : NonEmpty r.channels
  pub directions : Allowed direction_names r.directions
  pub kinds : NonEmpty r.kinds
  pub tools : NonEmpty r.tools
  pub importance : Allowed importance_levels r.importance
  pub actions : Allowed intent_actions r.actions

norm_patterns-NonEmpty : (values : List Text) → NonEmpty (norm_patterns values)
unfolding norm_patterns
norm_patterns-NonEmpty [] = tt
norm_patterns-NonEmpty (v ∷ values) = elim (Bool-cases (is_empty (normal v))) [
  | inl e ↦ rw e (norm_patterns-NonEmpty values)
  | inr e ↦ rw e (e, norm_patterns-NonEmpty values)
]

norm_enum_list-Allowed :
    (values allowed : List Text) → Allowed allowed (norm_enum_list values allowed)
unfolding norm_enum_list
norm_enum_list-Allowed [] allowed = tt
norm_enum_list-Allowed (v ∷ values) allowed = elim (Bool-cases (is_empty (normal v))) [
  | inl e ↦ rw e (norm_enum_list-Allowed values allowed)
  | inr e ↦ elim (Bool-cases (contains allowed (normal v))) [
    | inl known ↦ rw (e, known) (known, norm_enum_list-Allowed values allowed)
    | inr unknown ↦ rw (e, unknown) (norm_enum_list-Allowed values allowed)
  ]
]

-- The three checks of the loop, as tests.
guards :
    {A : Type 0} (known no_action action no_level level : Bool) (x : A) {r : A}
    → (if not known
        then none
        else if not no_action && not action
        then none
        else if not no_level && not level
        then none
        else some x)
      ≡ some r
    → (known ≡ true)
      × ((no_action ≡ true) ⊎ (action ≡ true))
      × ((no_level ≡ true) ⊎ (level ≡ true))
      × (x ≡ r)
guards known no_action action no_level level x h = ground arith

compile_parts-IsCompiled :
    (rule_id : Text) (rule : RuleConfig) (m : MatchConfig) (a : ApplyConfig) {r : CompiledRule}
    → compile_parts rule_id rule m a ≡ some r
    → IsCompiled r
unfolding compile_parts
compile_parts-IsCompiled rule_id rule m a h =
    let (effect, action, level, same) = guards _ _ _ _ _ (compiled rule_id rule m a) h in
    subst IsCompiled same (record {
      effect = effect;
      action = action;
      level = level;
      connectors = norm_patterns-NonEmpty m.connectors;
      connector_roles = norm_enum_list-Allowed m.connector_roles role_names;
      channels = norm_patterns-NonEmpty m.channels;
      directions = norm_enum_list-Allowed m.directions direction_names;
      kinds = norm_patterns-NonEmpty m.kinds;
      tools = norm_patterns-NonEmpty m.tools;
      importance = norm_enum_list-Allowed m.importance importance_levels;
      actions = norm_enum_list-Allowed m.actions intent_actions;
    })

compile_enabled-IsCompiled :
    (rule_id : Text) (rule : RuleConfig) (m : Option MatchConfig) (a : Option ApplyConfig)
    {r : CompiledRule}
    → compile_enabled rule_id rule m a ≡ some r
    → IsCompiled r
unfolding compile_enabled
compile_enabled-IsCompiled rule_id rule none a h = cc
compile_enabled-IsCompiled rule_id rule (some m) none h = cc
compile_enabled-IsCompiled rule_id rule (some m) (some a) h =
    compile_parts-IsCompiled rule_id rule m a h

compile_rule-IsCompiled :
    (idx : ℕ) (rule : RuleConfig) {r : CompiledRule} → compile_rule idx rule ≡ some r → IsCompiled r
unfolding compile_rule
compile_rule-IsCompiled idx rule h = elim (Bool-cases rule.enabled) [
  | inl on ↦ compile_enabled-IsCompiled _ rule rule.match_config rule.apply_config (rw on at h)
  | inr off ↦ cc (rw off at h)
]

compile_each-IsCompiled :
    (idx : ℕ) (rules : List RuleConfig) → All IsCompiled (compile_each idx rules)
unfolding compile_each
compile_each-IsCompiled idx [] = tt
compile_each-IsCompiled idx (rule ∷ rules) =
    go (compile_rule idx rule) (λ r. compile_rule-IsCompiled idx rule {r = r})
      (compile_each-IsCompiled (suc idx) rules)
  where
    go :
        (o : Option CompiledRule)
        → ((r : CompiledRule) → o ≡ some r → IsCompiled r)
        → All IsCompiled (compile_each (suc idx) rules)
        → All IsCompiled (elim o [
          | none ↦ compile_each (suc idx) rules
          | some r ↦ r ∷ compile_each (suc idx) rules
        ])
    go none h rest = rest
    go (some r) h rest = (h r refl, rest)

-- Whatever the configuration, each compiled rule has a known tool effect, an empty or known
-- action and importance, only known roles, directions, importance levels and actions to match,
-- and no empty pattern.
pub compile_rules-IsCompiled : (raw : List RuleConfig) → All IsCompiled (compile_rules raw)
unfolding compile_rules
compile_rules-IsCompiled raw =
    All-sort_by runs_before IsCompiled (compile_each 0 raw) (compile_each-IsCompiled 0 raw)
