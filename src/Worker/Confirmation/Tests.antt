-- ===== src/Worker/Confirmation/Tests.antt =====
-- The run of a confirmed tool call and an agent's request for approval at concrete inputs.
use ufoundry.Base.{
  ℕ, zero, suc, ◌≡◌, refl, true, false, Bool, none, some, List, [], ◌∷◌, Text, codes, text_beq,
  text_eq, lookup, store, without,
}
use ufoundry.Tools.Registry.{ToolRegistry, get}
use ufoundry.Policy.Engine.{PendingConfirmation}
use ufoundry.Worker.Arguments.{Arguments, text, object}
use ufoundry.Worker.Turn.{Handled, handler_failed, handler_result}
use ufoundry.Worker.Confirmation.{
  Asked, asked_content, sent, ran, stored_call, stored_message, process_confirmation,
}
use ufoundry.Worker.Confirmation.Held.{calls_of, AllOwn, Explained, process_confirmation-RunsOnly}
use ufoundry.Worker.AgentReply.{Approvals, await_approval, resolve_orchestrator_approval}
use ufoundry.Worker.AgentReply.First.{await_approval-first}

-- The tools' handlers are numbers; that of 1 fails.
abbrev handler : ℕ → Arguments → Handled
handler zero arguments = handler_result (codes "done")
handler (suc n) arguments = handler_failed (codes "exit status 1")

abbrev tools : ToolRegistry Unit ℕ
tools =
    (
      codes "shell.run",
      record {
        name = codes "shell.run";
        schema = tt;
        handler = 0;
        risk_level = codes "RED";
        description = none;
      },
    )
    ∷ []

abbrev generate : List Text → Text → Asked
generate messages content = asked_content (codes "It is done.")

abbrev arguments : Arguments
arguments = object ((codes "cmd", text (codes "make")) ∷ [])

abbrev held : PendingConfirmation Arguments Text
held = record {
  token = codes "ab12";
  chat_id = codes "7";
  channel = codes "dm";
  session_id = 3;
  message_id = 4;
  tool_call = record { name = some (codes "shell.run"); arguments = arguments };
  messages = codes "Build it" ∷ [];
  connector = codes "bot";
}

-- The call is run and stored, and the model's answer goes to the chat.
confirmed_run : (process_confirmation handler generate held tools).steps ≡ (
    ran 0 arguments
    ∷ stored_call 4 (codes "shell.run") arguments (codes "done")
    ∷ stored_message 3 (codes "assistant") (codes "It is done.")
    ∷ sent (codes "dm") (codes "7") (codes "bot") (codes "It is done.")
    ∷ [])
unfolding process_confirmation get lookup text_beq
confirmed_run = refl

process_confirmation-RunsOnly_example :
    (calls_of (process_confirmation handler generate held tools).steps ≡ (0, arguments) ∷ [])
    × AllOwn handler generate held (process_confirmation handler generate held tools).steps
    × Explained handler generate held (process_confirmation handler generate held tools).failure
unfolding get lookup text_beq
process_confirmation-RunsOnly_example = process_confirmation-RunsOnly handler generate held tools

abbrev replies : List (Text × Bool)
replies = (codes "ff", true) ∷ (codes "ab", false) ∷ (codes "ab", true) ∷ []

abbrev waiting : Approvals
waiting = (codes "ff", none) ∷ []

-- The reply to another request and the second one to this do not count.
await_approval-first_example :
    ((await_approval (codes "ab") replies waiting).0 ≡ false)
    × (lookup (codes "ab") (await_approval (codes "ab") replies waiting).1 ≡ none)
unfolding text_beq
await_approval-first_example = await_approval-first (codes "ab") replies waiting

-- A reply that comes after the wait is over changes nothing.
late_reply :
    resolve_orchestrator_approval (codes "ab") true (await_approval (codes "ab") [] waiting).1
    ≡ waiting
unfolding resolve_orchestrator_approval await_approval lookup store without text_beq
late_reply = refl
