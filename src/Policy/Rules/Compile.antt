-- ===== src/Policy/Rules/Compile.antt =====
-- ufoundry/policy/rules.py, `_compile_rules`: rules of the configuration, as
-- ufoundry/config/schema.py declares them, are checked, normalised and sorted by priority.
pub mod Order
pub mod Checks
use ufoundry.Base.{
  ℕ, suc, ◌+◌, Bool, not, ◌&&◌, Option, none, some, List, [], ◌∷◌, ◌++◌, Text, codes, text_eq,
  if◌then◌else◌, contains, is_empty, lower, strip, or_text, decimal, sort_by, ℤ, leb_ℤ,
}
use ufoundry.Policy.Rules.{CompiledRule}

pub record MatchConfig : Type 0 where
  pub connectors : List Text
  pub connector_roles : List Text
  pub channels : List Text
  pub directions : List Text
  pub kinds : List Text
  pub tools : List Text
  pub importance : List Text
  pub actions : List Text
  pub needs_admin : Option Bool
  pub admin_explicit : Option Bool

pub record ApplyConfig : Type 0 where
  pub tool : Text
  pub ingest_to_llm : Option Bool
  pub set_importance : Text
  pub set_action : Text
  pub set_needs_admin : Option Bool
  pub reason : Text

pub record RuleConfig : Type 0 where
  pub id : Text
  pub enabled : Bool
  pub priority : ℤ
  pub description : Text
  pub match_config : Option MatchConfig
  pub apply_config : Option ApplyConfig

abbrev pub tool_effects : List Text
tool_effects = codes "inherit" ∷ codes "allow" ∷ codes "deny" ∷ codes "require_confirmation" ∷ []

abbrev pub intent_actions : List Text
intent_actions = codes "summarize" ∷ codes "draft_reply" ∷ codes "create_task" ∷ codes "ignore" ∷ []

abbrev pub importance_levels : List Text
importance_levels = codes "high" ∷ codes "medium" ∷ codes "low" ∷ []

abbrev pub direction_names : List Text
direction_names = codes "inbound" ∷ codes "outbound" ∷ []

abbrev pub role_names : List Text
role_names = codes "listener" ∷ codes "admin" ∷ []

pub normal : Text → Text
normal value = lower (strip value)

pub norm_patterns : List Text → List Text
unfolding normal
norm_patterns [] = []
norm_patterns (value ∷ values) =
    let rest = norm_patterns values in
    let text = normal value in if is_empty text then rest else text ∷ rest

-- A value that is not allowed is dropped with a warning.
pub norm_enum_list : List Text → List Text → List Text
unfolding normal
norm_enum_list [] allowed = []
norm_enum_list (value ∷ values) allowed =
    let rest = norm_enum_list values allowed in
    let text = normal value in
    if is_empty text then rest else if contains allowed text then text ∷ rest else rest

abbrev compiled : Text → RuleConfig → MatchConfig → ApplyConfig → CompiledRule
compiled rule_id rule match_config apply_config = record {
  id = rule_id;
  priority = rule.priority;
  description = rule.description;
  connectors = norm_patterns match_config.connectors;
  connector_roles = norm_enum_list match_config.connector_roles role_names;
  channels = norm_patterns match_config.channels;
  directions = norm_enum_list match_config.directions direction_names;
  kinds = norm_patterns match_config.kinds;
  tools = norm_patterns match_config.tools;
  importance = norm_enum_list match_config.importance importance_levels;
  actions = norm_enum_list match_config.actions intent_actions;
  needs_admin = match_config.needs_admin;
  admin_explicit = match_config.admin_explicit;
  tool_effect = normal (or_text apply_config.tool (codes "inherit"));
  ingest_to_llm = apply_config.ingest_to_llm;
  set_importance = normal apply_config.set_importance;
  set_action = normal apply_config.set_action;
  set_needs_admin = apply_config.set_needs_admin;
  reason = apply_config.reason;
}

-- The body of the loop on a rule with both of its parts: none where it is skipped.
pub compile_parts : Text → RuleConfig → MatchConfig → ApplyConfig → Option CompiledRule
unfolding normal norm_patterns norm_enum_list
compile_parts rule_id rule match_config apply_config =
    let r = compiled rule_id rule match_config apply_config in
    if not (contains tool_effects r.tool_effect)
    then none
    else if not (is_empty r.set_action) && not (contains intent_actions r.set_action)
    then none
    else if not (is_empty r.set_importance) && not (contains importance_levels r.set_importance)
    then none
    else some r

-- `if not match or not apply_cfg: continue`
pub compile_enabled :
    Text → RuleConfig → Option MatchConfig → Option ApplyConfig → Option CompiledRule
unfolding compile_parts
compile_enabled rule_id rule none apply_config = none
compile_enabled rule_id rule (some m) none = none
compile_enabled rule_id rule (some m) (some a) = compile_parts rule_id rule m a

pub compile_rule : ℕ → RuleConfig → Option CompiledRule
unfolding compile_enabled
compile_rule idx rule =
    if not rule.enabled
    then none
    else compile_enabled (or_text rule.id (codes "rule-" ++ decimal (idx + 1))) rule
        rule.match_config rule.apply_config

-- The loop, with the index of `enumerate`.
pub compile_each : ℕ → List RuleConfig → List CompiledRule
unfolding compile_rule
compile_each idx [] = []
compile_each idx (rule ∷ rules) =
    let rest = compile_each (suc idx) rules in
    elim (compile_rule idx rule) [ none ↦ rest | some r ↦ r ∷ rest ]

abbrev pub runs_before : CompiledRule → CompiledRule → Bool
runs_before r s = leb_ℤ r.priority s.priority

pub compile_rules : List RuleConfig → List CompiledRule
unfolding compile_each
compile_rules raw_rules = sort_by runs_before (compile_each 0 raw_rules)
