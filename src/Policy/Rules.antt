-- ===== src/Policy/Rules.antt =====
-- ufoundry/policy/rules.py: the compiled rules and the decisions that they make. Loading rules
-- from a configuration is in Compile.
pub mod Compile
pub mod Decisions
pub mod Filter
use ufoundry.Base.{
  Bool, true, false, not, ◌&&◌, ◌||◌, Option, none, some, List, [], ◌∷◌, Text, codes, ◌==◌, text_eq,
  bool_eq, if◌then◌else◌, any, contains, filter, is_empty, lower, fnmatch, ℤ,
}

-- `None` and the empty text are what a missing value is.
pub record RuleContext : Type 0 where
  pub connector : Text
  pub source_connector : Text
  pub connector_role : Text
  pub channel : Text
  pub direction : Text
  pub kind : Text
  pub action : Text
  pub importance : Text
  pub needs_admin : Option Bool
  pub admin_explicit : Option Bool

pub record ToolRuleDecision : Type 0 where
  pub effect : Text
  pub reason : Text
  pub rule_id : Text

pub record IntentRuleDecision : Type 0 where
  pub ingest_to_llm : Option Bool
  pub set_action : Text
  pub set_importance : Text
  pub set_needs_admin : Option Bool
  pub reason : Text
  pub rule_id : Text

pub record CompiledRule : Type 0 where
  pub id : Text
  pub priority : ℤ
  pub description : Text
  pub connectors : List Text
  pub connector_roles : List Text
  pub channels : List Text
  pub directions : List Text
  pub kinds : List Text
  pub tools : List Text
  pub importance : List Text
  pub actions : List Text
  pub needs_admin : Option Bool
  pub admin_explicit : Option Bool
  pub tool_effect : Text
  pub ingest_to_llm : Option Bool
  pub set_importance : Text
  pub set_action : Text
  pub set_needs_admin : Option Bool
  pub reason : Text

unfoldable pub match_any : Text → List Text → Bool
match_any [] patterns = false
match_any (c ∷ s) patterns = any (λ p. fnmatch (lower (c ∷ s)) p) patterns

-- `if patterns and not match: return False`
abbrev unless_empty : List Text → Bool → Bool
unless_empty patterns test = is_empty patterns || test

-- `tool_name` may be None.
tool_matches : Option Text → List Text → Bool
unfolding match_any
tool_matches none patterns = false
tool_matches (some name) patterns = not (is_empty name) && match_any name patterns

-- A flag of a rule is a condition only if it is set.
flag_matches : Option Bool → Option Bool → Bool
flag_matches none value = true
flag_matches (some wanted) none = false
flag_matches (some wanted) (some value) = bool_eq value wanted

unfoldable pub matches : CompiledRule → RuleContext → Option Text → Bool
unfolding match_any tool_matches flag_matches
matches rule context tool_name =
    unless_empty rule.connectors (
      any (λ value. match_any value rule.connectors)
        (filter (λ value. not (is_empty value))
          (context.source_connector ∷ context.connector ∷ [])))
    && unless_empty rule.connector_roles (match_any context.connector_role rule.connector_roles)
    && unless_empty rule.channels (match_any context.channel rule.channels)
    && unless_empty rule.directions (contains rule.directions context.direction)
    && unless_empty rule.kinds (match_any context.kind rule.kinds)
    && unless_empty rule.tools (tool_matches tool_name rule.tools)
    && unless_empty rule.importance (contains rule.importance context.importance)
    && unless_empty rule.actions (contains rule.actions context.action)
    && flag_matches rule.needs_admin context.needs_admin
    && flag_matches rule.admin_explicit context.admin_explicit

abbrev pub inherit : Text
inherit = codes "inherit"

abbrev pub no_tool_decision : ToolRuleDecision
no_tool_decision = record { effect = inherit; reason = []; rule_id = [] }

abbrev pub tool_decision_of : CompiledRule → ToolRuleDecision
tool_decision_of rule = record {
  effect = rule.tool_effect;
  reason = rule.reason;
  rule_id = rule.id;
}

-- The loop of `decide_tool` over `self._rules`.
unfoldable pub decide_tool : List CompiledRule → Text → RuleContext → ToolRuleDecision
decide_tool [] tool_name context = no_tool_decision
decide_tool (rule ∷ rules) tool_name context =
    let next = decide_tool rules tool_name context in
    if not (matches rule context (some tool_name))
    then next
    else if rule.tool_effect == inherit
    then next
    else tool_decision_of rule

abbrev is_none : Option Bool → Bool
is_none none = true
is_none (some b) = false

abbrev pub no_intent_decision : IntentRuleDecision
no_intent_decision = record {
  ingest_to_llm = none;
  set_action = [];
  set_importance = [];
  set_needs_admin = none;
  reason = [];
  rule_id = [];
}

abbrev pub intent_decision_of : CompiledRule → IntentRuleDecision
intent_decision_of rule = record {
  ingest_to_llm = rule.ingest_to_llm;
  set_action = rule.set_action;
  set_importance = rule.set_importance;
  set_needs_admin = rule.set_needs_admin;
  reason = rule.reason;
  rule_id = rule.id;
}

-- A rule that changes nothing of an intent.
unfoldable pub sets_no_intent : CompiledRule → Bool
sets_no_intent rule =
    is_none rule.ingest_to_llm
    && is_empty rule.set_action
    && is_empty rule.set_importance
    && is_none rule.set_needs_admin

unfoldable pub decide_intent : List CompiledRule → RuleContext → IntentRuleDecision
unfolding sets_no_intent
decide_intent [] context = no_intent_decision
decide_intent (rule ∷ rules) context =
    let next = decide_intent rules context in
    if not (matches rule context none)
    then next
    else if sets_no_intent rule
    then next
    else intent_decision_of rule

-- Whether `filter_tools_for_context` drops a tool.
pub drops : List CompiledRule → RuleContext → Bool → Text → Bool
drops rules context drop_confirm_required name =
    let decision = decide_tool rules name context in
    decision.effect == codes "deny"
    || drop_confirm_required && decision.effect == codes "require_confirmation"

pub filter_tools_for_context : List CompiledRule → List Text → RuleContext → Bool → List Text
unfolding drops
filter_tools_for_context rules [] context drop_confirm_required = []
filter_tools_for_context rules (name ∷ names) context drop_confirm_required =
    let rest = filter_tools_for_context rules names context drop_confirm_required in
    if drops rules context drop_confirm_required name then rest else name ∷ rest
