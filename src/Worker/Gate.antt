-- ===== src/Worker/Gate.antt =====
-- ufoundry/worker.py, `_process_message`: what stands between a tool call of the model and the
-- tool's handler. The guards are taken in the order of the code; the first that objects ends the
-- handling of the message.
pub mod Guards
pub mod Reach
use ufoundry.Base.{
  Bool, true, false, not, Option, none, some, List, [], ◌∷◌, ◌++◌, Text, codes, if◌then◌else◌,
}
use ufoundry.Tools.Registry.{Tool, ToolRegistry, get}
use ufoundry.Policy.Engine.{
  PolicyDecision, ToolCall, Origin, Pending, evaluate, request_confirmation,
}
use ufoundry.Worker.Arguments.{Arguments}
use Guards.{
  Audit, auto_approved, confirmation_requested, security_denied, ssrf_blocked, declared_pass,
  declared_deny, declared_ask, fetch_pass, fetch_blocked, fetch_crash, access_granted,
  access_denied, Flow, Settings, approves, listener_guard, declared_guard, security_guard,
  fetch_guard,
}

-- How a call ends: the user is told, or asked; an exception leaves the handling of the message; or
-- the handler of a tool is called.
pub data Answer (S H : Type 0) : Type 0 where
  denied : Text → Answer S H
  asked : Text → Answer S H
  crashed : Answer S H
  reaches : Tool S H → Answer S H

pub record Gated (S H M : Type 0) : Type 0 where
  pub answer : Answer S H
  pub audits : List Audit
  pub pending : Pending Arguments M

abbrev pub reason_text : Option Text → Text
reason_text none = codes "None"
reason_text (some reason) = reason

-- `check` is jsonschema's `validate`.
module _ {S H M : Type 0} (check : Arguments → S → Option Text) (set : Settings S H) (flow : Flow)
    (allowed_tools : List Text) (name : Text) (arguments : Arguments) (token : Text)
    (origin : Origin Arguments M) where
  abbrev pub call : ToolCall Arguments M
  call = record { name = some name; arguments = arguments }

  pub ask : List Audit → Pending Arguments M → Gated S H M
  ask audits pending = record {
    answer = asked token;
    audits = audits ++ confirmation_requested token ∷ [];
    pending = pending;
  }

  pub refuse : Text → List Audit → Pending Arguments M → Gated S H M
  refuse message audits pending = record {
    answer = denied message;
    audits = audits;
    pending = pending;
  }

  pub find_tool : List Audit → Pending Arguments M → Gated S H M
  unfolding refuse
  find_tool audits pending = elim (get set.tools name) [
    | none ↦ refuse (codes "Tool not found: " ++ name) audits pending
    | some tool ↦ record { answer = reaches tool; audits = audits; pending = pending }
  ]

  pub check_allowed : PolicyDecision → List Audit → Pending Arguments M → Gated S H M
  unfolding refuse find_tool
  check_allowed decision audits pending =
      if not decision.allowed
      then refuse (codes "Tool denied: " ++ reason_text decision.reason) audits pending
      else find_tool audits pending

  -- From the decision of the guard of tool calls on.
  pub act_on : PolicyDecision → List Audit → Pending Arguments M → Gated S H M
  unfolding ask check_allowed approves
  act_on decision audits pending =
      if not decision.require_confirmation
      then check_allowed decision audits pending
      else if approves set flow allowed_tools name arguments
      then check_allowed decision (audits ++ auto_approved (codes "risk_policy") ∷ []) pending
      else ask audits pending

  pub risk_step : List Audit → Pending Arguments M → Gated S H M
  unfolding act_on
  risk_step audits pending =
      let verdict = evaluate check set.tools allowed_tools pending token call origin in
      act_on verdict.0 audits verdict.1

  pub fetch_step : List Audit → Pending Arguments M → Gated S H M
  unfolding risk_step refuse
  fetch_step audits pending = elim (fetch_guard set arguments) [
    | fetch_pass ↦ risk_step audits pending
    | fetch_blocked url e ↦
        refuse (codes "Request blocked for security reasons: " ++ set.net.shown e)
          (audits ++ ssrf_blocked url e ∷ []) pending
    | fetch_crash ↦ record { answer = crashed; audits = audits; pending = pending }
  ]

  pub security_step : List Audit → Pending Arguments M → Gated S H M
  unfolding fetch_step refuse
  security_step audits pending = elim (security_guard set flow name) [
    | access_granted ↦ fetch_step audits pending
    | access_denied reason ↦
        refuse (codes "Access denied: " ++ reason_text reason)
          (audits ++ security_denied reason ∷ []) pending
  ]

  pub declared_step : Pending Arguments M → Gated S H M
  unfolding security_step refuse ask
  declared_step pending = elim (declared_guard set flow allowed_tools name arguments) [
    | declared_pass audits ↦ security_step audits pending
    | declared_deny reason ↦ refuse (codes "Tool denied by policy: " ++ reason) [] pending
    | declared_ask reason ↦ ask [] (request_confirmation pending token call origin (some reason)).1
  ]

  unfoldable pub gate : Pending Arguments M → Gated S H M
  unfolding declared_step refuse
  gate pending = elim (listener_guard flow name) [
    | some message ↦ refuse message [] pending
    | none ↦ declared_step pending
  ]
