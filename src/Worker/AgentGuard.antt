-- ===== src/Worker/AgentGuard.antt =====
-- ufoundry/worker.py, `_build_agent_tool_guard`: the guard that agents and teams call before a
-- tool. Its guards are listed in the order of the code; the first that raises ends the call. The
-- audit entries of approvals are left out.
pub mod Passes
use ufoundry.Base.{
  Bool, true, false, not, ◌==◌, Option, none, some, List, [], ◌∷◌, ◌++◌, Text, codes, text_eq,
  if◌then◌else◌, is_empty, contains, strip, or_text,
}
use ufoundry.Tools.Registry.{Tool, get, validate_args, risk_red}
use ufoundry.Policy.Rules.{decide_tool}
use ufoundry.Security.Ssrf.{SsrfError}
use ufoundry.Worker.Arguments.{Arguments, object, no_object, text_or_empty, argument}
use ufoundry.Worker.Approval.{is_auto_mode}
use ufoundry.Worker.Gate.Guards.{
  Flow, Settings, approves, tool_context, access_granted, access_denied, security_guard, fetch_text,
  Fetch, fetch_pass, fetch_crash, fetch_blocked,
}

pub data GuardError : Type 0 where
  not_allowed unknown_tool : Text → GuardError
  invalid_args : Text → Text → GuardError
  denied_by_rule : Text → GuardError
  approval_required_by_rule : GuardError
  access_error : Option Text → GuardError
  blocked_address : SsrfError → GuardError
  approval_required_by_risk : GuardError

-- The first error that is raised.
pub first_raised : List (Option GuardError) → Option GuardError
first_raised [] = none
first_raised (none ∷ rest) = first_raised rest
first_raised (some e ∷ rest) = some e

-- args = tool_arguments if isinstance(tool_arguments, dict) else {}
abbrev pub as_object : Arguments → Arguments
as_object (object d) = object d
as_object no_object = object []

pub raised_fetch : Fetch → Option GuardError
raised_fetch fetch_pass = none
raised_fetch fetch_crash = none
raised_fetch (fetch_blocked url e) = some (blocked_address e)

-- `check` is jsonschema's `validate`.
module _ {S H : Type 0} (check : Arguments → S → Option Text) (set : Settings S H) (flow : Flow)
    (allowed_tools : List Text) (name : Text) (arguments : Arguments) where
  abbrev pub args : Arguments
  args = as_object arguments

  abbrev pub auto : Bool
  auto = approves set flow allowed_tools name args

  pub args_guard : Option GuardError
  args_guard = elim (validate_args check set.tools name args) [
    | none ↦ none
    | some message ↦ some (invalid_args name message)
  ]

  pub rule_effect : Text → Text → Option GuardError
  rule_effect effect reason =
      if effect == codes "deny"
      then some (denied_by_rule (or_text reason name))
      else if not (effect == codes "require_confirmation")
      then none
      else if auto
      then none
      else some approval_required_by_rule

  pub rule_guard : Option GuardError
  unfolding rule_effect
  rule_guard =
      let decision = decide_tool set.rules name (tool_context flow) in
      if is_empty set.rules then none else rule_effect decision.effect decision.reason

  pub access_guard : Option GuardError
  access_guard = elim (security_guard set flow name) [
    | access_granted ↦ none
    | access_denied reason ↦ some (access_error reason)
  ]

  pub address_guard : Option GuardError
  unfolding raised_fetch
  address_guard = elim set.security [
    | none ↦ none
    | some cfg ↦
        if set.ssrf_protection
        then raised_fetch (fetch_text set.net (strip (text_or_empty (argument args (codes "url")))))
        else none
  ]

  pub risk_guard : Tool S H → Option GuardError
  risk_guard tool =
      if not (tool.risk_level == risk_red)
      then none
      else if auto
      then none
      else some approval_required_by_risk

  pub tool_guards : Tool S H → List (Option GuardError)
  unfolding args_guard rule_guard access_guard address_guard risk_guard
  tool_guards tool = args_guard ∷ rule_guard ∷ access_guard ∷ address_guard ∷ risk_guard tool ∷ []

  pub known_guard : Option GuardError
  unfolding first_raised tool_guards
  known_guard = elim (get set.tools name) [
    | none ↦ some (unknown_tool name)
    | some tool ↦ first_raised (tool_guards tool)
  ]

  unfoldable pub agent_tool_guard : Option GuardError
  unfolding known_guard
  agent_tool_guard =
      if not (is_auto_mode set.policy)
      then none
      else if not (contains allowed_tools name)
      then some (not_allowed name)
      else known_guard
