-- ===== src/Policy/Engine.antt =====
-- ufoundry/policy/engine.py: the guard of tool calls, and the confirmations that wait for the
-- user. The token of `secrets.token_hex` is an argument. `A` is the type of a call's arguments and
-- `M` that of the messages which a confirmation keeps.
pub mod Verdicts
pub mod Tokens
pub mod Filed
use ufoundry.Base.{
  ℕ, Bool, true, false, not, ◌||◌, ◌==◌, pair_eq, Option, none, some, List, [], ◌∷◌, ◌++◌, map,
  Text, codes, text_eq, if◌then◌else◌, contains, filter, strip, upper, starts_with, after_space,
  Dict, lookup, store, without,
}
use ufoundry.Tools.Registry.{ToolRegistry, get, validate_args, risk_red}

pub record PolicyDecision : Type 0 where
  pub allowed : Bool
  pub require_confirmation : Bool
  pub reason : Option Text
  pub token : Option Text

abbrev pub Key : Type 0
Key = Text × Text

module _ (A M : Type 0) where
  pub record ToolCall : Type 0 where
    pub name : Option Text
    pub arguments : A

  pub record PendingConfirmation : Type 0 where
    pub token : Text
    pub chat_id : Text
    pub channel : Text
    pub session_id : ℕ
    pub message_id : ℕ
    pub tool_call : ToolCall
    pub messages : List M
    pub connector : Text

  -- The keyword arguments of `evaluate`: where the call comes from.
  pub record Origin : Type 0 where
    pub chat_id : Text
    pub channel : Text
    pub connector : Text
    pub session_id : ℕ
    pub message_id : ℕ
    pub messages : List M

  -- self._pending, by chat and token
  abbrev pub Pending : Type 0
  Pending = Dict Key PendingConfirmation

abbrev pub of_chat : Text → Key → Bool
of_chat chat_id key = key.0 == chat_id

abbrev pub of_token : Text → Key → Bool
of_token token key = key.1 == token

abbrev pub refused : Text → PolicyDecision
refused reason = record {
  allowed = false;
  require_confirmation = false;
  reason = some reason;
  token = none;
}

abbrev pub allowed_decision : PolicyDecision
allowed_decision = record {
  allowed = true;
  require_confirmation = false;
  reason = none;
  token = none;
}

abbrev pub held : Option Text → Text → PolicyDecision
held reason token = record {
  allowed = false;
  require_confirmation = true;
  reason = reason;
  token = some token;
}

module _ {A M : Type 0} where
  unfoldable pub confirmation : Text → ToolCall A M → Origin A M → PendingConfirmation A M
  confirmation token call origin = record {
    token = token;
    chat_id = origin.chat_id;
    channel = origin.channel;
    session_id = origin.session_id;
    message_id = origin.message_id;
    tool_call = call;
    messages = origin.messages;
    connector = origin.connector;
  }

  unfoldable pub create_confirmation : Pending A M → Text → ToolCall A M → Origin A M → Pending A M
  unfolding confirmation
  create_confirmation pending token call origin =
      store (origin.chat_id, token) (confirmation token call origin) pending

  pub request_confirmation :
      Pending A M → Text → ToolCall A M → Origin A M → Option Text → PolicyDecision × Pending A M
  unfolding create_confirmation
  request_confirmation pending token call origin reason =
      (held reason token, create_confirmation pending token call origin)

  -- `pending.pop(key, None)` at a key that was found, or none if none was.
  pub pop_found : Pending A M → Option Key → Option (PendingConfirmation A M) × Pending A M
  pop_found pending none = (none, pending)
  pop_found pending (some key) = (lookup key pending, without key pending)

  pub last_key : (Key → Bool) → Pending A M → Option Key
  last_key test [] = none
  last_key test ((key, p) ∷ rest) = elim (last_key test rest) [
    | some later ↦ some later
    | none ↦ if test key then some key else none
  ]

  pub first_key : (Key → Bool) → Pending A M → Option Key
  first_key test [] = none
  first_key test ((key, p) ∷ rest) =
      let next = first_key test rest in if test key then some key else next

  -- "YES <token>": the chat's own entry, or else the first entry with the token.
  pub consume_token : Pending A M → Text → Text → Option (PendingConfirmation A M) × Pending A M
  unfolding pop_found first_key
  consume_token pending chat_id token = elim (lookup (chat_id, token) pending) [
    | some p ↦ (some p, without (chat_id, token) pending)
    | none ↦ pop_found pending (first_key (of_token token) pending)
  ]

  pub consume_confirmation :
      Pending A M → Text → Text → Option (PendingConfirmation A M) × Pending A M
  unfolding pop_found last_key consume_token
  consume_confirmation pending chat_id text =
      let message = strip text in
      let capitals = upper message in
      if capitals == codes "Y" || capitals == codes "YES"
      then pop_found pending (last_key (of_chat chat_id) pending)
      else if not (starts_with capitals (codes "YES "))
      then (none, pending)
      else consume_token pending chat_id (strip (after_space message))

  -- From the tool on, which the registry has.
  pub evaluate_risk :
      Text
      → Option Text
      → Pending A M
      → Text
      → ToolCall A M
      → Origin A M
      → PolicyDecision × Pending A M
  evaluate_risk risk_level invalid pending token call origin = elim invalid [
    | some message ↦ (refused (codes "Invalid args: " ++ message), pending)
    | none ↦
        if risk_level == risk_red
        then request_confirmation pending token call origin none
        else (allowed_decision, pending)
  ]

-- `check` is jsonschema's `validate`.
module _ {S H A M : Type 0} (check : A → S → Option Text) where
  pub evaluate_named :
      ToolRegistry S H
      → Text
      → List Text
      → Pending A M
      → Text
      → ToolCall A M
      → Origin A M
      → PolicyDecision × Pending A M
  unfolding evaluate_risk
  evaluate_named tools name allowed_tools pending token call origin =
      if not (contains allowed_tools name)
      then (refused (codes "Tool " ++ (name ++ codes " not allowed")), pending)
      else elim (get tools name) [
        | none ↦ (refused (codes "Unknown tool: " ++ name), pending)
        | some tool ↦
            evaluate_risk tool.risk_level (validate_args check tools name call.arguments) pending
              token call origin
      ]

  -- The token is drawn only where it is used.
  unfoldable pub evaluate :
      ToolRegistry S H
      → List Text
      → Pending A M
      → Text
      → ToolCall A M
      → Origin A M
      → PolicyDecision × Pending A M
  unfolding evaluate_named
  evaluate tools allowed_tools pending token call origin = elim call.name [
    | none ↦ (refused (codes "Missing tool name"), pending)
    | some [] ↦ (refused (codes "Missing tool name"), pending)
    | some (c ∷ s) ↦ evaluate_named tools (c ∷ s) allowed_tools pending token call origin
  ]
