-- ===== src/Worker/Confirmation.antt =====
-- ufoundry/worker.py, `_process_confirmation`: a tool call that the user confirmed is run, and the
-- model is asked once more, without tools. `handler` is the tools' own code. `generate` is the
-- model on the messages of the confirmation with the tool's message behind them, which is given by
-- its content. Sending and the tables do not fail.
pub mod Held
mod Tests
use ufoundry.Base.{ℕ, Option, none, some, List, [], ◌∷◌, ◌++◌, Text, codes, if◌then◌else◌, is_empty}
use ufoundry.Tools.Registry.{Tool, ToolRegistry, get}
use ufoundry.Policy.Engine.{PendingConfirmation}
use ufoundry.Worker.Arguments.{Arguments}
use ufoundry.Worker.Turn.{Handled, handler_failed, handler_result}

-- The text of an exception, or the content of the model's answer, empty where it has none.
pub data Asked : Type 0 where
  asked_failed : Text → Asked
  asked_content : Text → Asked

-- What the worker does, in order. A message goes to a channel, a chat and a connector; a tool call
-- is stored under a message, a message under a session.
pub data Step (H : Type 0) : Type 0 where
  sent : Text → Text → Text → Text → Step H
  ran : H → Arguments → Step H
  stored_call : ℕ → Text → Arguments → Text → Step H
  stored_message : ℕ → Text → Text → Step H

-- `failure` is the text of the exception that leaves the handling.
pub record Outcome (H : Type 0) : Type 0 where
  pub failure : Option Text
  pub steps : List (Step H)

module _ {H M : Type 0} (p : PendingConfirmation Arguments M) where
  pub tell : Text → Step H
  tell text = sent p.channel p.chat_id p.connector text

  -- The model's answer after the tool's message.
  pub follow_up : Asked → Outcome H
  unfolding tell
  follow_up (asked_failed e) = record { failure = some e; steps = [] }
  follow_up (asked_content answer) = record {
    failure = none;
    steps =
        if is_empty answer
        then []
        else stored_message p.session_id (codes "assistant") answer ∷ tell answer ∷ [];
  }

  pub not_found : Outcome H
  unfolding tell
  not_found = record {
    failure = none;
    steps = tell (codes "Tool not found for confirmation.") ∷ [];
  }

module _ {S H M : Type 0} (generate : List M → Text → Asked) (p : PendingConfirmation Arguments M)
    (name : Text) (tool : Tool S H) where
  -- What follows the call of the handler.
  pub take_result : Handled → Outcome H
  unfolding tell follow_up
  take_result (handler_failed e) = record {
    failure = none;
    steps =
        ran tool.handler p.tool_call.arguments
        ∷ tell p (codes "Tool `" ++ (name ++ (codes "` failed to execute: " ++ e)))
        ∷ [];
  }
  take_result (handler_result content) =
      let next : Outcome H = follow_up p (generate p.messages content) in
      record {
        failure = next.failure;
        steps =
            ran tool.handler p.tool_call.arguments
            ∷ stored_call p.message_id name p.tool_call.arguments content
            ∷ next.steps;
      }

module _ {S H M : Type 0} (handler : H → Arguments → Handled) (generate : List M → Text → Asked)
    (p : PendingConfirmation Arguments M) where
  pub run_held : Text → Option (Tool S H) → Outcome H
  unfolding take_result not_found
  run_held name none = not_found p
  run_held name (some tool) =
      take_result generate p name tool (handler tool.handler p.tool_call.arguments)

  -- A call without a name is a KeyError.
  pub run_named : ToolRegistry S H → Option Text → Outcome H
  unfolding run_held
  run_named tools none = record { failure = some (codes "'name'"); steps = [] }
  run_named tools (some name) = run_held name (get tools name)

  unfoldable pub process_confirmation : ToolRegistry S H → Outcome H
  unfolding run_named
  process_confirmation tools = run_named tools p.tool_call.name
