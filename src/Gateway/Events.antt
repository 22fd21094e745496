-- ===== src/Gateway/Events.antt =====
-- ufoundry/gateway.py, Gateway: what a message from a connector does (`_on_ws_event`), the worker's
-- requests for confirmations, and `reload`. Policy engines are objects that the router and the
-- worker refer to; each is known by its number. The rules of `filter_pii` are an argument.
pub mod Confirmed
pub mod Outsiders
pub mod Reloaded
use ufoundry.Base.{
  ℕ, zero, suc, Bool, true, false, ◌||◌, ◌==◌, Option, none, some, List, [], ◌∷◌, ◌++◌, Text, codes,
  text_eq, if◌then◌else◌, is_empty, starts_with, split_colon, length,
}
use ufoundry.Policy.Engine.{Pending, PendingConfirmation, ToolCall, Origin, create_confirmation}
use ufoundry.Security.PiiFilter.{filter_pii}
use ufoundry.Storage.Queue.{JobTable, enqueue_job}
use ufoundry.Storage.Sessions.{SessionKey, SessionTables, get_or_create_session, add_message}
use ufoundry.Gateway.Router.{
  IncomingMessage, ControlConfig, PanelManager, Kind, control, external, Routed, route,
}

-- The text of each field of an event.
pub record WsEvent : Type 0 where
  pub text : Text
  pub chat_id : Text
  pub user_id : Text
  pub reply_connector : Text
  pub reply_chat_id : Text
  pub reply_channel : Text

pub record MessageJob : Type 0 where
  pub kind : Kind
  pub connector : Text
  pub connector_role : Text
  pub source_connector : Text
  pub source_chat_id : Text
  pub chat_id : Text
  pub channel : Text
  pub session_id : ℕ
  pub text : Text

module _ (A M : Type 0) where
  -- The payloads of the jobs that the gateway enqueues.
  pub data JobPayload : Type 0 where
    confirm : PendingConfirmation A M → JobPayload
    agent_approve : Text → Bool → JobPayload
    message : MessageJob → JobPayload

  -- The log of accepted confirmations: the chat and the tool's name.
  abbrev pub Accepted : Type 0
  Accepted = Text × Option Text

  pub record GatewayState : Type 0 where
    pub policies : List (Pending A M)
    pub router_policy : ℕ
    pub worker_policy : ℕ
    pub sessions : SessionTables
    pub jobs : JobTable JobPayload
    pub audits : List Accepted

pub record GatewayConfig : Type 0 where
  pub manager : Option PanelManager
  pub control : ControlConfig
  pub roles : List (Text × Text)
  pub pii_rules : List (Text → Text)

-- The role of the first connector of the name.
unfoldable pub get_connector_role : List (Text × Text) → Text → Text
get_connector_role [] name = codes "admin"
get_connector_role ((conn, role) ∷ rest) name =
    let later = get_connector_role rest name in if conn == name then role else later

-- The session that a listener's messages are pinned to.
abbrev pub admin_session : SessionKey
admin_session = record {
  chat_id = codes "admin";
  channel = codes "web";
  connector = codes "web-panel";
}

abbrev pub incoming : Text → Text → WsEvent → IncomingMessage
incoming connector channel event = record {
  channel = channel;
  chat_id = event.chat_id;
  user_id = event.user_id;
  text = event.text;
  connector = connector;
  reply_connector = event.reply_connector;
  reply_chat_id = event.reply_chat_id;
  reply_channel = event.reply_channel;
}

-- AGENT_APPROVE: or AGENT_DENY: in front
abbrev pub is_agent_reply : Text → Bool
is_agent_reply s = starts_with s (codes "AGENT_APPROVE:") || starts_with s (codes "AGENT_DENY:")

abbrev pub hint_of : Text → Option Text
hint_of mode = if mode == codes "control" then some (codes "control") else none

unfoldable pub message_job : Kind → Text → Text → Text → SessionKey → Text → ℕ → MessageJob
message_job kind connector role chat_id session text session_id = record {
  kind = kind;
  connector = session.connector;
  connector_role = role;
  source_connector = connector;
  source_chat_id = chat_id;
  chat_id = session.chat_id;
  channel = session.channel;
  session_id = session_id;
  text = text;
}

module _ {A M : Type 0} where
  -- The table of an engine; a number that stands for none has no confirmations.
  unfoldable pub policy_at : ℕ → List (Pending A M) → Pending A M
  policy_at n [] = []
  policy_at zero (p ∷ ps) = p
  policy_at (suc n) (p ∷ ps) = policy_at n ps

  unfoldable pub set_policy : ℕ → Pending A M → List (Pending A M) → List (Pending A M)
  set_policy n p [] = []
  set_policy zero p (q ∷ ps) = p ∷ ps
  set_policy (suc n) p (q ∷ ps) = q ∷ set_policy n p ps

  unfoldable pub enqueue : ℕ → Text → Text → JobPayload A M → GatewayState A M → GatewayState A M
  enqueue now chat_id channel payload s = record s {
    jobs = (enqueue_job now chat_id channel payload s.jobs).1;
  }

  -- The reply to an agent's request for approval.
  unfoldable pub agent_reply : ℕ → Text → Option (Text × Text) → GatewayState A M → GatewayState A M
  unfolding enqueue
  agent_reply now channel none s = s
  agent_reply now channel (some (head, token)) s =
      if is_empty token
      then s
      else enqueue now (codes "admin") channel (agent_approve token (head == codes "AGENT_APPROVE"))
          s

  -- A confirmation that a message accepted.
  unfoldable pub accept : ℕ → PendingConfirmation A M → GatewayState A M → GatewayState A M
  unfolding enqueue
  accept now p s =
      let queued = enqueue now p.chat_id p.channel (confirm p) s in
      record queued { audits = queued.audits ++ (p.chat_id, p.tool_call.name) ∷ [] }

  -- A listener's message: it is filtered, and no turn of the session.
  unfoldable pub take_listener :
      List (Text → Text) → ℕ → Kind → Text → WsEvent → GatewayState A M → GatewayState A M
  unfolding enqueue message_job
  take_listener rules now kind connector event s =
      let (id, sessions) = get_or_create_session now admin_session s.sessions in
      enqueue now (codes "admin") (codes "web")
        (message (
          message_job kind connector (codes "listener") event.chat_id admin_session
            (filter_pii rules event.text) id))
        (record s { sessions = sessions })

  unfoldable pub take_own :
      ℕ → Kind → Text → Text → Text → WsEvent → GatewayState A M → GatewayState A M
  unfolding enqueue message_job
  take_own now kind connector role channel event s =
      let session : SessionKey = record {
        chat_id = event.chat_id;
        channel = channel;
        connector = connector;
      } in
      let (id, sessions) = get_or_create_session now session s.sessions in
      enqueue now event.chat_id channel
        (message (message_job kind connector role event.chat_id session event.text id))
        (record s { sessions = (add_message now id (codes "user") event.text sessions).1 })

  unfoldable pub take_message :
      GatewayConfig → ℕ → Kind → Text → Text → WsEvent → GatewayState A M → GatewayState A M
  unfolding take_listener take_own
  take_message cfg now kind connector channel event s =
      let role = get_connector_role cfg.roles connector in
      if role == codes "listener"
      then take_listener cfg.pii_rules now kind connector event s
      else take_own now kind connector role channel event s

  unfoldable pub act_on_routed :
      GatewayConfig → ℕ → Text → Text → WsEvent → Routed A M → GatewayState A M → GatewayState A M
  unfolding accept take_message
  act_on_routed cfg now connector channel event routed s = elim routed.pending_confirmation [
    | some p ↦ accept now p s
    | none ↦ take_message cfg now routed.kind connector channel event s
  ]

  unfoldable pub on_ws_event :
      GatewayConfig → ℕ → Text → Text → Text → WsEvent → GatewayState A M → GatewayState A M
  unfolding agent_reply act_on_routed
  on_ws_event cfg now connector channel mode event s =
      let (routed, pending) =
        route cfg.manager cfg.control (hint_of mode) (incoming connector channel event)
          (policy_at s.router_policy s.policies) in
      if is_agent_reply event.text
      then agent_reply now channel (split_colon event.text) s
      else act_on_routed cfg now connector channel event routed
          (record s { policies = set_policy s.router_policy pending s.policies })

  -- The worker holds a tool call.
  unfoldable pub worker_requests :
      Text → ToolCall A M → Origin A M → GatewayState A M → GatewayState A M
  worker_requests token call origin s = record s {
    policies =
        set_policy s.worker_policy
          (create_confirmation (policy_at s.worker_policy s.policies) token call origin) s.policies;
  }

  -- `reload` makes a new engine for the worker; the router keeps its own.
  unfoldable pub reload : GatewayState A M → GatewayState A M
  reload s = record s { policies = s.policies ++ [] ∷ []; worker_policy = length s.policies }
