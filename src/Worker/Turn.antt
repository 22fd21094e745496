-- ===== src/Worker/Turn.antt =====
-- ufoundry/worker.py, `_process_message`: the tools that a message may use, and the loop over the
-- tool calls of the model's answer.
pub mod Offered
pub mod Finished
use ufoundry.Base.{
  Bool, true, false, not, ◌&&◌, ◌==◌, Option, none, some, List, [], ◌∷◌, ◌++◌, map, Text, codes,
  text_eq, if◌then◌else◌, is_empty, contains, filter,
}
use ufoundry.Tools.Registry.{Tool, ToolRegistry}
use ufoundry.Policy.Rules.{RuleContext, CompiledRule, filter_tools_for_context}
use ufoundry.Policy.Engine.{Origin, Pending}
use ufoundry.Security.Masking.{mask_secrets}
use ufoundry.Worker.Arguments.{Arguments}
use ufoundry.Worker.Gate.{Answer, denied, asked, crashed, reaches, Gated, gate}
use ufoundry.Worker.Gate.Guards.{
  Audit, tool_executed, Flow, Settings, tool_context, is_gmail_listener_flow,
}

-- `gmail.search` is only for an admin who asks for it.
unfoldable pub without_search : Flow → List Text → List Text
without_search flow names =
    if contains names (codes "gmail.search") && not flow.explicit
    then filter (λ name. not (name == codes "gmail.search")) names
    else names

unfoldable pub under_rules : List CompiledRule → RuleContext → Bool → List Text → List Text
under_rules rules context using_orchestrator names =
    if is_empty rules
    then names
    else filter_tools_for_context rules names context using_orchestrator

module _ {S H : Type 0} where
  -- `_allowed_tools`: all tools, in the order of the registry, or none in strict mode
  unfoldable pub allowed_tools : Text → ToolRegistry S H → List Text
  allowed_tools strictness tools =
      if strictness == codes "strict" then [] else map (λ entry. entry.0) tools

  -- The tools of the list that this message may use.
  unfoldable pub offered_tools : Settings S H → Flow → Bool → List Text → List Text
  unfolding without_search under_rules
  offered_tools set flow using_orchestrator names =
      under_rules set.rules (tool_context flow) using_orchestrator
        (without_search flow (if is_gmail_listener_flow flow then [] else names))

-- What a handler gives: the text of an exception, or the content of its result.
pub data Handled : Type 0 where
  handler_failed : Text → Handled
  handler_result : Text → Handled

pub record Call : Type 0 where
  pub name : Text
  pub arguments : Arguments

-- The result of a tool: the call's name, and what is stored and shown to the model.
pub record ToolOutput : Type 0 where
  pub name : Text
  pub content : Text

-- `ended` is the answer that ended the handling of the message, none if all calls ran; `results`
-- are those of the calls that ran.
pub record Turn (S H M : Type 0) : Type 0 where
  pub ended : Option (Answer S H)
  pub results : List ToolOutput
  pub audits : List Audit
  pub pending : Pending Arguments M

-- What a call gives: an answer that ends the turn, or the content of its result.
pub data Ran (S H : Type 0) : Type 0 where
  ran_ended : Answer S H → Ran S H
  ran_result : Text → Ran S H

-- What of a result is stored and shown to the model.
pub stored_content : List (Text → Text) → Bool → Text → Text
stored_content patterns mask_secrets_in_output content =
    if mask_secrets_in_output then mask_secrets patterns content else content

-- `check` is jsonschema's `validate`, `handler` the tools' own code, `patterns` those of
-- `mask_secrets`. A call comes with the token that is drawn for its confirmation.
module _ {S H M : Type 0} (check : Arguments → S → Option Text) (handler : H → Arguments → Handled)
    (patterns : List (Text → Text)) (mask_secrets_in_output : Bool) (set : Settings S H)
    (flow : Flow) (allowed : List Text) (origin : Origin Arguments M) where
  pub ended_at : Answer S H → List Audit → Pending Arguments M → Turn S H M
  ended_at answer audits pending = record {
    ended = some answer;
    results = [];
    audits = audits;
    pending = pending;
  }

  -- A result in front of what the calls that follow give.
  pub executed : ToolOutput → List Audit → Turn S H M → Turn S H M
  executed output audits rest = record {
    ended = rest.ended;
    results = output ∷ rest.results;
    audits = audits ++ tool_executed ∷ rest.audits;
    pending = rest.pending;
  }

  pub run_tool : Call → Answer S H → Ran S H
  unfolding stored_content
  run_tool call (denied message) = ran_ended (denied message)
  run_tool call (asked token) = ran_ended (asked token)
  run_tool call crashed = ran_ended crashed
  run_tool call (reaches tool) = elim (handler tool.handler call.arguments) [
    | handler_failed e ↦
        ran_ended (denied (codes "Tool `" ++ (call.name ++ (codes "` failed: " ++ e))))
    | handler_result content ↦ ran_result (stored_content patterns mask_secrets_in_output content)
  ]

  unfoldable pub run_calls : List (Text × Call) → Pending Arguments M → Turn S H M
  unfolding run_tool ended_at executed
  run_calls [] pending = record { ended = none; results = []; audits = []; pending = pending }
  run_calls ((token, call) ∷ calls) pending =
      let gated = gate check set flow allowed call.name call.arguments token origin pending in
      let rest = run_calls calls gated.pending in
      elim (run_tool call gated.answer) [
        | ran_ended answer ↦ ended_at answer gated.audits gated.pending
        | ran_result content ↦
            executed (record { name = call.name; content = content }) gated.audits rest
      ]
