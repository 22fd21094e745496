-- ===== src/Worker/Confirmation/Held.antt =====
-- ufoundry/worker.py, `_process_confirmation`: what is run, and where its results go.
use ufoundry.Base.{◌≡◌, refl, ap, ◌⊎◌, inl, inr, Option, none, some, List, [], ◌∷◌, Text, codes}
use ufoundry.Tools.Registry.{Tool, ToolRegistry, get}
use ufoundry.Policy.Engine.{PendingConfirmation}
use ufoundry.Worker.Arguments.{Arguments}
use ufoundry.Worker.Turn.{Handled, handler_failed, handler_result}
use ufoundry.Worker.Confirmation.{
  Asked, asked_failed, asked_content, Step, sent, ran, stored_call, stored_message, Outcome, tell,
  follow_up, not_found, take_result, run_held, run_named, process_confirmation,
}

-- The handlers that are called, with their arguments.
abbrev pub calls_of : {H : Type 0} → List (Step H) → List (H × Arguments)
calls_of [] = []
calls_of (ran h arguments ∷ steps) = (h, arguments) ∷ calls_of steps
calls_of (sent channel chat_id connector s ∷ steps) = calls_of steps
calls_of (stored_call id name arguments content ∷ steps) = calls_of steps
calls_of (stored_message id role s ∷ steps) = calls_of steps

-- The call that was held: the registered handler of its tool on its own arguments.
abbrev pub held_tool : {S H : Type 0} → Arguments → Option (Tool S H) → List (H × Arguments)
held_tool arguments none = []
held_tool arguments (some tool) = (tool.handler, arguments) ∷ []

abbrev pub held_call :
    {S H : Type 0} → ToolRegistry S H → Option Text → Arguments → List (H × Arguments)
held_call tools none arguments = []
held_call tools (some name) arguments = held_tool arguments (get tools name)

module _ {H M : Type 0} (handler : H → Arguments → Handled) (generate : List M → Text → Asked)
    (p : PendingConfirmation Arguments M) where
  -- A step on behalf of the confirmation: it goes to the chat that the call came from, or is
  -- stored with its message or its session. What is stored of a call is a handler's result.
  abbrev pub IsOwn : Step H → Type 0
  IsOwn (sent channel chat_id connector s) =
      (channel ≡ p.channel) × (chat_id ≡ p.chat_id) × (connector ≡ p.connector)
  IsOwn (ran h arguments) = arguments ≡ p.tool_call.arguments
  IsOwn (stored_call id name arguments content) =
      (id ≡ p.message_id)
      × (p.tool_call.name ≡ some name)
      × (arguments ≡ p.tool_call.arguments)
      × ((h : H) × (handler h arguments ≡ handler_result content))
  IsOwn (stored_message id role s) = (id ≡ p.session_id) × (role ≡ codes "assistant")

  abbrev pub AllOwn : List (Step H) → Type 0
  AllOwn [] = Unit
  AllOwn (step ∷ steps) = IsOwn step × AllOwn steps

  -- Why an exception leaves the handling: the call has no name, or the model failed on the result
  -- that a handler gave.
  abbrev pub Explained : Option Text → Type 0
  Explained none = Unit
  Explained (some e) =
      (p.tool_call.name ≡ none)
      ⊎ ((h : H) × (content : Text) × (handler h p.tool_call.arguments ≡ handler_result content)
          × (generate p.messages content ≡ asked_failed e))

  -- The handlers that are called, whose all the steps are, and what a failure stems from.
  abbrev pub RunsOnly : List (H × Arguments) → Outcome H → Type 0
  RunsOnly calls outcome =
      (calls_of outcome.steps ≡ calls) × AllOwn outcome.steps × Explained outcome.failure

  follow_up-RunsOnly :
      (h : H) (content : Text)
      → handler h p.tool_call.arguments ≡ handler_result content
      → (asked : Asked) → generate p.messages content ≡ asked
      → RunsOnly [] (follow_up p asked)
  unfolding follow_up tell
  follow_up-RunsOnly h content gave (asked_failed e) eq = (refl, tt, inr (h, content, gave, eq))
  follow_up-RunsOnly h content gave (asked_content []) eq = (refl, tt, tt)
  follow_up-RunsOnly h content gave (asked_content (c ∷ s)) eq =
      (refl, ((refl, refl), ((refl, refl, refl), tt)), tt)

module _ {S H M : Type 0} (handler : H → Arguments → Handled) (generate : List M → Text → Asked)
    (p : PendingConfirmation Arguments M) where
  take_result-RunsOnly :
      (name : Text) (tool : Tool S H) (handled : Handled)
      → p.tool_call.name ≡ some name
      → handler tool.handler p.tool_call.arguments ≡ handled
      → RunsOnly handler generate p
          ((tool.handler, p.tool_call.arguments) ∷ [])
          (take_result generate p name tool handled)
  unfolding take_result tell
  take_result-RunsOnly name tool (handler_failed e) named gave =
      (refl, (refl, ((refl, refl, refl), tt)), tt)
  take_result-RunsOnly name tool (handler_result content) named gave =
      let (calls, own, explained) =
        follow_up-RunsOnly handler generate p tool.handler content gave
          (generate p.messages content) refl in
      (
        ap (λ later. (tool.handler, p.tool_call.arguments) ∷ later) calls,
        (refl, ((refl, named, refl, (tool.handler, gave)), own)),
        explained,
      )

  run_held-RunsOnly :
      (name : Text) (found : Option (Tool S H))
      → p.tool_call.name ≡ some name
      → RunsOnly handler generate p
          (held_tool p.tool_call.arguments found)
          (run_held handler generate p name found)
  unfolding run_held not_found tell
  run_held-RunsOnly name none named = (refl, ((refl, refl, refl), tt), tt)
  run_held-RunsOnly name (some tool) named =
      take_result-RunsOnly name tool (handler tool.handler p.tool_call.arguments) named refl

  run_named-RunsOnly :
      (tools : ToolRegistry S H) (name : Option Text)
      → p.tool_call.name ≡ name
      → RunsOnly handler generate p
          (held_call tools name p.tool_call.arguments)
          (run_named handler generate p tools name)
  unfolding run_named
  run_named-RunsOnly tools none named = (refl, tt, inl named)
  run_named-RunsOnly tools (some name) named = run_held-RunsOnly name (get tools name) named

  -- A confirmed tool call runs the handler of its tool once, on just the arguments that were held,
  -- and nothing else; it runs nothing where the tool is unknown. All that is sent goes to the
  -- channel, chat and connector that the call came from, and all that is stored is stored with its
  -- message and session; a tool call is stored only with a result of a handler. An exception leaves
  -- the handling only where the call has no name, or where the model fails on a handler's result.
  pub process_confirmation-RunsOnly :
      (tools : ToolRegistry S H)
      → RunsOnly handler generate p
          (held_call tools p.tool_call.name p.tool_call.arguments)
          (process_confirmation handler generate p tools)
  unfolding process_confirmation
  process_confirmation-RunsOnly tools = run_named-RunsOnly tools p.tool_call.name refl
