-- ===== src/Worker/TaskRun/Calls.antt =====
-- ufoundry/worker.py, `_process_task_run`: the guards of a tool call and the loop over the calls.
pub mod Admitted
use ufoundry.Base.{
  ℕ, Bool, true, false, not, ◌&&◌, ◌==◌, Option, none, some, List, [], ◌∷◌, ◌++◌, Text, codes,
  text_eq, if◌then◌else◌, is_empty, decimal,
}
use ufoundry.Tools.Registry.{Tool, get}
use ufoundry.Policy.Rules.{RuleContext, decide_tool}
use ufoundry.Policy.Engine.{PolicyDecision, ToolCall, Origin, Pending, evaluate}
use ufoundry.Worker.Approval.{should_auto_approve_tool_confirmation}
use ufoundry.Worker.Arguments.{Arguments}
use ufoundry.Worker.Gate.{reason_text}
use ufoundry.Worker.Gate.Guards.{Settings}
use ufoundry.Worker.Turn.{
  Call, Handled, handler_failed, handler_result, ToolOutput, allowed_tools, under_rules,
}

-- What a run writes on the way: messages of its session, tool calls, and messages that it sends to
-- the control panel.
pub data Effect : Type 0 where
  stored_message : Text → Text → Effect
  stored_call : Text → Text → Effect
  sent : Text → Effect

-- An answer of the model, or the text of its exception. A call comes with the token that is drawn
-- for its confirmation.
pub data Reply : Type 0 where
  reply_failed : Text → Reply
  reply : Text → List (Text × Call) → Reply

-- The rules' view of a run.
abbrev pub task_context : RuleContext
task_context = record {
  connector = codes "scheduler";
  source_connector = codes "scheduler";
  connector_role = codes "admin";
  channel = codes "system";
  direction = codes "outbound";
  kind = codes "task_run";
  action = [];
  importance = [];
  needs_admin = some true;
  admin_explicit = some true;
}

-- A call that the run may not make, with the text of the failure, or the tool.
pub data Verdict (S H : Type 0) : Type 0 where
  barred : Text → Verdict S H
  admitted : Tool S H → Verdict S H

pub task_text : ℕ → Text → Text → Text
task_text id middle name =
    codes "Task #" ++ (decimal id ++ (middle ++ (codes "'" ++ (name ++ codes "'"))))

module _ {S H M : Type 0} (check : Arguments → S → Option Text) (set : Settings S H)
    (allowed : List Text) (id : ℕ) (origin : Origin Arguments M) where
  module _ (call : Call) where
    unfoldable pub run_approves : Bool
    run_approves =
        should_auto_approve_tool_confirmation set.paths set.policy set.workspace call.name
          call.arguments allowed

    pub refusal_of : Text → Text → Option Text
    unfolding run_approves task_text
    refusal_of effect reason =
        if effect == codes "deny"
        then some (
            task_text id (codes " denied tool ") call.name
            ++ (codes " by policy"
                ++ (if is_empty reason then codes "." else codes ": " ++ reason)))
        else if effect == codes "require_confirmation" && not run_approves
        then some (
            task_text id (codes " requires confirmation for tool ") call.name
            ++ codes " (declarative policy). Skipping run.")
        else none

    -- The rules' refusal of the call.
    unfoldable pub rules_refusal : Option Text
    unfolding refusal_of
    rules_refusal =
        let decision = decide_tool set.rules call.name task_context in
        if is_empty set.rules then none else refusal_of decision.effect decision.reason

    pub find_tool : Verdict S H
    unfolding task_text
    find_tool = elim (get set.tools call.name) [
      | none ↦ barred (task_text id (codes " missing tool ") call.name)
      | some tool ↦ admitted tool
    ]

    pub act_on : PolicyDecision → Verdict S H
    unfolding find_tool run_approves task_text
    act_on decision =
        if decision.require_confirmation && not run_approves
        then barred (
            task_text id (codes " requires confirmation for tool ") call.name
            ++ codes ". Skipping run.")
        else if not decision.allowed
        then barred (
            task_text id (codes " denied tool ") call.name
            ++ (codes ": " ++ reason_text decision.reason))
        else find_tool

    -- From the rules to the tool, with the confirmations that wait.
    unfoldable pub judge_call : Text → Pending Arguments M → Verdict S H × Pending Arguments M
    unfolding act_on rules_refusal
    judge_call token pending =
        let made : ToolCall Arguments M = record {
          name = some call.name;
          arguments = call.arguments;
        } in
        let decided = evaluate check set.tools allowed pending token made origin in
        elim rules_refusal [
          | some text ↦ (barred text, pending)
          | none ↦ (act_on decided.0, decided.1)
        ]

-- How the loop over the calls ends: the run is stopped, an exception, or all calls ran.
pub data LoopEnd : Type 0 where
  stopped interrupted : Text → LoopEnd
  ran_all : List ToolOutput → LoopEnd

pub record Calls (M : Type 0) : Type 0 where
  pub ended : LoopEnd
  pub effects : List Effect
  pub pending : Pending Arguments M

abbrev pub with_output : ToolOutput → LoopEnd → LoopEnd
with_output output (stopped text) = stopped text
with_output output (interrupted e) = interrupted e
with_output output (ran_all outputs) = ran_all (output ∷ outputs)

-- What a call gives: the end of the loop, or the content of its result.
pub data Called : Type 0 where
  call_ended : LoopEnd → Called
  call_result : Text → Called

module _ {S H M : Type 0} (check : Arguments → S → Option Text) (handler : H → Arguments → Handled)
    (set : Settings S H) (allowed : List Text) (id : ℕ) (origin : Origin Arguments M) where
  pub run_call : Call → Verdict S H → Called
  run_call call (barred text) = call_ended (stopped text)
  run_call call (admitted tool) = elim (handler tool.handler call.arguments) [
    | handler_failed e ↦ call_ended (interrupted e)
    | handler_result content ↦ call_result content
  ]

  pub output_of : Call → Text → ToolOutput
  output_of call content = record { name = call.name; content = content }

  unfoldable pub run_task_calls : List (Text × Call) → Pending Arguments M → Calls M
  unfolding run_call output_of
  run_task_calls [] pending = record { ended = ran_all []; effects = []; pending = pending }
  run_task_calls ((token, call) ∷ calls) pending =
      let judged = judge_call check set allowed id origin call token pending in
      let rest = run_task_calls calls judged.1 in
      elim (run_call call judged.0) [
        | call_ended e ↦ record { ended = e; effects = []; pending = judged.1 }
        | call_result content ↦ record {
          ended = with_output (output_of call content) rest.ended;
          effects = stored_call call.name content ∷ rest.effects;
          pending = rest.pending;
        }
      ]

-- The tools of a run.
unfoldable pub task_tools : {S H : Type 0} → Settings S H → Text → List Text
unfolding allowed_tools under_rules
task_tools set strictness =
    under_rules set.rules task_context false (allowed_tools strictness set.tools)
