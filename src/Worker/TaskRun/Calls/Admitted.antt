-- ===== src/Worker/TaskRun/Calls/Admitted.antt =====
-- ufoundry/worker.py, `_process_task_run`: the tools that a task_run calls.
use ufoundry.Base.{
  ◌≡◌, ◌≢◌, refl, inl, inr, List, [], ◌∷◌, Text, text_eq, Option, none, some, lookup, Bool-cases, ℕ,
  ap,
}
use ufoundry.Tools.Registry.{Tool, get, risk_red}
use ufoundry.Policy.Engine.{
  PolicyDecision, ToolCall, Origin, Pending, held, allowed_decision, evaluate,
}
use ufoundry.Policy.Engine.Verdicts.{Passes, evaluate_cases, Held-or_Runs}
use ufoundry.Worker.Arguments.{Arguments}
use ufoundry.Worker.Gate.Guards.{Settings}
use ufoundry.Worker.Turn.{Call, Handled, handler_failed, handler_result}
use ufoundry.Worker.TaskRun.Calls.{
  Effect, stored_call, Verdict, barred, admitted, run_approves, rules_refusal, find_tool, act_on,
  judge_call, LoopEnd, stopped, interrupted, ran_all, Calls, with_output, run_call, output_of,
  run_task_calls,
}

module _ {S H M : Type 0} (check : Arguments → S → Option Text) (set : Settings S H)
    (allowed : List Text) (id : ℕ) (origin : Origin Arguments M) (call : Call) where
  abbrev made : ToolCall Arguments M
  made = record { name = some call.name; arguments = call.arguments }

  -- The rules let the call pass, and the guard of tool calls allows it at once.
  abbrev pub Admits : Tool S H → Type 0
  Admits tool =
      (rules_refusal check set allowed id origin call ≡ none)
      × Passes check set.tools allowed made call.name tool
      × (tool.risk_level ≢ risk_red)

  module _ (token : Text) (pending : Pending Arguments M) where
    abbrev decided : PolicyDecision × Pending Arguments M
    decided = evaluate check set.tools allowed pending token made origin

    abbrev acted : PolicyDecision → Verdict S H
    acted = act_on check set allowed id origin call

    -- A held call is barred, also where it is approved automatically.
    held-not_admitted :
        (reason : Option Text) (tool : Tool S H) → acted (held reason token) ≡ admitted tool → ⊥
    unfolding act_on
    held-not_admitted reason tool h =
        elim (Bool-cases (run_approves check set allowed id origin call)) [
          | inl e ↦ cc (rw e at h)
          | inr e ↦ cc (rw e at h)
        ]

    found_admitted :
        {tool : Tool S H} (other : Tool S H)
        → lookup call.name set.tools ≡ some other
        → acted allowed_decision ≡ admitted tool
        → other ≡ tool
    unfolding act_on find_tool get
    found_admitted other found h = cc (rw (found, find_tool) at h)

    acted-Admits :
        {tool : Tool S H}
        → rules_refusal check set allowed id origin call ≡ none
        → acted decided.0 ≡ admitted tool
        → Admits tool × (decided.1 ≡ pending)
    unfolding act_on
    acted-Admits {tool} passed h =
        elim (evaluate_cases check set.tools allowed made pending token origin) [
          | inl ((reason, e), _) ↦ absurd (cc (rw (e, act_on) at h))
          | inr (inl (other_name, other, passes, (red, e))) ↦
              absurd (held-not_admitted none tool (rw e at h))
          | inr (inr (other_name, other, passes, (calm, e))) ↦
              let same_name : other_name ≡ call.name = cc passes.0 in
              let own = rw same_name at passes in
              let same = found_admitted other own.3 (rw e at h) in
              ((passed, rw same at own, rw same at calm), ap (λ r. r.1) e)
        ]

    judged_by :
        {tool : Tool S H} (refusal : Option Text)
        → rules_refusal check set allowed id origin call ≡ refusal
        → (judge_call check set allowed id origin call token pending).0 ≡ admitted tool
        → Admits tool × ((judge_call check set allowed id origin call token pending).1 ≡ pending)
    unfolding judge_call
    judged_by none e h =
        let (admits, same) = acted-Admits e (rw (e, judge_call) at h) in
        (admits, rw (e, judge_call) same)
    judged_by (some text) e h = cc (rw (e, judge_call) at h)

    judge_call-Admits :
        {tool : Tool S H}
        → (judge_call check set allowed id origin call token pending).0 ≡ admitted tool
        → Admits tool × ((judge_call check set allowed id origin call token pending).1 ≡ pending)
    judge_call-Admits h = judged_by (rules_refusal check set allowed id origin call) refl h

    Admits-judge_call :
        (tool : Tool S H)
        → Admits tool
        → (judge_call check set allowed id origin call token pending).0 ≡ admitted tool
    unfolding judge_call act_on find_tool get
    Admits-judge_call tool (passed, passes, calm) =
        elim (Held-or_Runs check set.tools allowed made pending token origin call.name tool
          passes) [
            | inl (red, _) ↦ absurd (calm red)
            | inr (_, runs) ↦ rw (passed, judge_call) (rw runs (rw (passes.3, find_tool) refl))
          ]

module _ {S H M : Type 0} (check : Arguments → S → Option Text) (handler : H → Arguments → Handled)
    (set : Settings S H) (allowed : List Text) (id : ℕ) (origin : Origin Arguments M) where
  -- How the loop goes: each call is of a tool that may run, up to the first that may not or whose
  -- handler fails.
  pub data RanTask : List (Text × Call) → List Effect → LoopEnd → Type 0 where
    ran_none : RanTask [] [] (ran_all [])
    ran_barred :
        (token : Text) (call : Call) (calls : List (Text × Call)) (text : Text)
        → ((tool : Tool S H) → ¬ (Admits check set allowed id origin call tool))
        → RanTask ((token, call) ∷ calls) [] (stopped text)
    ran_failed :
        (token : Text) (call : Call) (calls : List (Text × Call)) (tool : Tool S H) (e : Text)
        → Admits check set allowed id origin call tool
        → handler tool.handler call.arguments ≡ handler_failed e
        → RanTask ((token, call) ∷ calls) [] (interrupted e)
    ran_next :
        (token : Text) (call : Call) (tool : Tool S H) (content : Text) {calls : List (Text × Call)}
        {effects : List Effect} {ended : LoopEnd}
        → Admits check set allowed id origin call tool
        → handler tool.handler call.arguments ≡ handler_result content
        → RanTask calls effects ended
        → RanTask
            ((token, call) ∷ calls)
            (stored_call call.name content ∷ effects)
            (with_output (record { name = call.name; content = content }) ended)

  abbrev task_run : List (Text × Call) → Pending Arguments M → Calls M
  task_run calls pending = run_task_calls check handler set allowed id origin calls pending

  abbrev Ran : List (Text × Call) → Calls M → Type 0
  Ran calls ran = RanTask calls ran.effects ran.ended

  step :
      (token : Text) (call : Call) (calls : List (Text × Call)) (pending : Pending Arguments M)
      (verdict : Verdict S H)
      → (judge_call check set allowed id origin call token pending).0 ≡ verdict
      → Ran calls (task_run calls (judge_call check set allowed id origin call token pending).1)
      → Ran ((token, call) ∷ calls) (task_run ((token, call) ∷ calls) pending)
  unfolding run_task_calls run_call output_of
  step token call calls pending (barred text) e ih =
      rw (e, run_task_calls)
        (ran_barred token call calls text (λ tool admits.
          cc (e, Admits-judge_call check set allowed id origin call token pending tool admits)))
  step token call calls pending (admitted tool) e ih =
      by_result (handler tool.handler call.arguments) refl
    where
      by_result :
          (r : Handled)
          → handler tool.handler call.arguments ≡ r
          → Ran ((token, call) ∷ calls) (task_run ((token, call) ∷ calls) pending)
      by_result (handler_failed x) same =
          rw (e, run_task_calls)
            (rw (same, run_call)
              (ran_failed token call calls tool x
                (judge_call-Admits check set allowed id origin call token pending e).0 same))
      by_result (handler_result content) same =
          rw (e, run_task_calls)
            (rw (same, run_call)
              (ran_next token call tool content
                (judge_call-Admits check set allowed id origin call token pending e).0 same ih))

  -- The run of a task calls the tools of the answer in order. Each call whose handler is called is
  -- not refused by the rules, names an allowed and registered tool that is not RED, and has
  -- arguments that fit its schema. The loop ends at the first call that is none of these, with
  -- nothing of it executed, or at the first whose handler fails, and what is stored are the results
  -- up to there.
  pub run_task_calls-RanTask :
      (calls : List (Text × Call)) (pending : Pending Arguments M)
      → Ran calls (task_run calls pending)
  unfolding run_task_calls
  run_task_calls-RanTask [] pending = ran_none
  run_task_calls-RanTask ((token, call) ∷ calls) pending =
      step token call calls pending (judge_call check set allowed id origin call token pending).0
        refl
        (run_task_calls-RanTask calls (judge_call check set allowed id origin call token pending).1)
