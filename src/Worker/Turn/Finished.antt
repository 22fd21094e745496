-- ===== src/Worker/Turn/Finished.antt =====
-- ufoundry/worker.py, `_process_message`: a turn whose tool calls all ran.
use ufoundry.Base.{◌≡◌, Bool, Option, List, [], ◌∷◌, Text}
use ufoundry.Tools.Registry.{Tool}
use ufoundry.Policy.Engine.{Origin, Pending}
use ufoundry.Worker.Arguments.{Arguments}
use ufoundry.Worker.Gate.{Answer}
use ufoundry.Worker.Gate.Guards.{Flow, Settings}
use ufoundry.Worker.Gate.Reach.{Eligible}
use ufoundry.Worker.Turn.{
  Handled, handler_result, Call, ToolOutput, Turn, stored_content, Ran, run_tool, run_calls,
}

module _ {S H M : Type 0} (check : Arguments → S → Option Text) (handler : H → Arguments → Handled)
    (patterns : List (Text → Text)) (mask_secrets_in_output : Bool) (set : Settings S H)
    (flow : Flow) (allowed : List Text) (origin : Origin Arguments M) where
  -- The call may run, and the output is what its handler gave, masked where that is configured.
  abbrev pub RanWith : Text → Call → ToolOutput → Type 0
  RanWith token call output =
      (tool : Tool S H) × (content : Text) × Eligible check set flow allowed call.name
        call.arguments token origin tool
      × (handler tool.handler call.arguments ≡ handler_result content)
      × (output ≡ record {
        name = call.name;
        content = stored_content patterns mask_secrets_in_output content;
      })

  -- One output for each call, in order.
  abbrev pub RanAll : List (Text × Call) → List ToolOutput → Type 0
  RanAll [] [] = Unit
  RanAll [] (output ∷ outputs) = ⊥
  RanAll (call ∷ calls) [] = ⊥
  RanAll (call ∷ calls) (output ∷ outputs) = RanWith call.0 call.1 output × RanAll calls outputs

  abbrev turn : List (Text × Call) → Pending Arguments M → Turn S H M
  turn calls pending =
      run_calls check handler patterns mask_secrets_in_output set flow allowed origin calls pending

  abbrev ran : Call → Answer S H → Ran S H
  ran call answer =
      run_tool check handler patterns mask_secrets_in_output set flow allowed origin call answer
