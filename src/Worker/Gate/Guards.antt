-- ===== src/Worker/Gate/Guards.antt =====
-- ufoundry/worker.py: the guards of a tool call, one by one.
use ufoundry.Base.{
  Bool, true, false, not, ◌&&◌, ◌||◌, ◌==◌, Option, none, some, List, [], ◌∷◌, ◌++◌, Text, codes,
  text_eq, if◌then◌else◌, is_empty, lower, is_infix, starts_with, or_text,
}
use ufoundry.Tools.Registry.{ToolRegistry}
use ufoundry.Tools.Workspace.{Paths, WorkspaceConfig}
use ufoundry.Policy.Rules.{RuleContext, CompiledRule, decide_tool}
use ufoundry.Security.Policy.{SecurityConfig, evaluate}
use ufoundry.Security.Ssrf.{Address, SsrfError, check_ssrf}
use ufoundry.Worker.Arguments.{Arguments, Value, text, other, argument}
use ufoundry.Worker.Approval.{PolicyConfig, should_auto_approve_tool_confirmation}

-- What the worker writes into the audit log on the way.
pub data Audit : Type 0 where
  auto_approved : Text → Audit
  confirmation_requested : Text → Audit
  security_denied : Option Text → Audit
  ssrf_blocked : Text → SsrfError → Audit
  tool_executed : Audit

-- The fields of the intent of a listener's message that rules look at.
pub record Intent : Type 0 where
  pub suggested_action : Text
  pub importance : Text
  pub needs_admin : Bool

-- The message that is handled. `explicit` is `explicit_admin_gmail_search`.
pub record Flow : Type 0 where
  pub connector : Text
  pub source_connector : Text
  pub connector_role : Text
  pub channel : Text
  pub chat_id : Text
  pub kind : Text
  pub intent : Option Intent
  pub explicit : Bool

-- urllib, socket and ipaddress, and `str` of an SSRFError, which shows addresses and networks.
pub record Net : Type 0 where
  pub hostname : Text → Option Text
  pub getaddrinfo : Text → Option (List Text)
  pub ip_address : Text → Option Address
  pub shown : SsrfError → Text

-- The worker's own fields, and the workspace that is active.
pub record Settings (S H : Type 0) : Type 0 where
  pub rules : List CompiledRule
  pub security : Option SecurityConfig
  pub ssrf_protection : Bool
  pub policy : PolicyConfig
  pub workspace : Option WorkspaceConfig
  pub tools : ToolRegistry S H
  pub paths : Paths
  pub net : Net

abbrev pub intent_text : (Intent → Text) → Option Intent → Text
intent_text field none = []
intent_text field (some intent) = field intent

pub tool_context : Flow → RuleContext
tool_context flow = record {
  connector = flow.connector;
  source_connector = flow.source_connector;
  connector_role = flow.connector_role;
  channel = flow.channel;
  direction = codes "outbound";
  kind = flow.kind;
  action = intent_text (λ i. i.suggested_action) flow.intent;
  importance = intent_text (λ i. i.importance) flow.intent;
  needs_admin = elim flow.intent [ none ↦ none | some i ↦ some i.needs_admin ];
  admin_explicit = some flow.explicit;
}

unfoldable pub is_gmail_listener_flow : Flow → Bool
is_gmail_listener_flow flow =
    flow.connector_role == codes "listener"
    && is_infix (codes "gmail") (lower flow.source_connector)

-- `_is_explicit_admin_gmail_search_request`; `phrase` is the search of _RE_GMAIL_SEARCH_PHRASE.
pub is_explicit_admin_gmail_search_request : (Text → Bool) → Text → Text → Text → Bool
is_explicit_admin_gmail_search_request phrase message connector_role kind =
    if not (connector_role == codes "admin")
    then false
    else if not (kind == codes "control" || kind == codes "external")
    then false
    else if is_infix (codes "gmail.search") (lower message)
    then true
    else phrase (lower message)

-- The guards on Gmail's tools; the message of the refusal.
unfoldable pub listener_guard : Flow → Text → Option Text
unfolding is_gmail_listener_flow
listener_guard flow name =
    if name == codes "gmail.search" && not flow.explicit
    then some (
        codes
          "Tool denied: `gmail.search` is only allowed when explicitly requested by an admin user.")
    else if name == codes "gmail.read" && is_gmail_listener_flow flow
    then some (codes "Tool denied: `gmail.read` is disabled for inbound gmail_imap summarize flow.")
    else if is_gmail_listener_flow flow
        && (starts_with name (codes "gmail.") || name == codes "google.authorize")
    then some (
        codes "Tool denied: `"
        ++ (name ++ codes "` is disabled for inbound gmail_imap summarize flow."))
    else none

pub data Declared : Type 0 where
  declared_pass : List Audit → Declared
  declared_deny : Text → Declared
  declared_ask : Text → Declared

pub data Fetch : Type 0 where
  fetch_pass fetch_crash : Fetch
  fetch_blocked : Text → SsrfError → Fetch

-- The check of a URL that is given.
pub fetch_text : Net → Text → Fetch
fetch_text net [] = fetch_pass
fetch_text net (c ∷ url) = elim (check_ssrf net.hostname net.getaddrinfo net.ip_address (c ∷ url)) [
  | none ↦ fetch_pass
  | some e ↦ fetch_blocked (c ∷ url) e
]

-- `urlparse` raises AttributeError on a value that is true and no text.
pub fetch_value : Net → Option Value → Fetch
unfolding fetch_text
fetch_value net none = fetch_pass
fetch_value net (some (text url)) = fetch_text net url
fetch_value net (some (other true shown)) = fetch_crash
fetch_value net (some (other false shown)) = fetch_pass

module _ {S H : Type 0} (set : Settings S H) (flow : Flow) (allowed_tools : List Text) (name : Text)
    (arguments : Arguments) where
  unfoldable pub approves : Bool
  approves =
      should_auto_approve_tool_confirmation set.paths set.policy set.workspace name arguments
        allowed_tools

  pub declared_effect : Text → Text → Declared
  unfolding approves
  declared_effect effect reason =
      if effect == codes "deny"
      then declared_deny (or_text reason (codes "blocked by declarative policy"))
      else if not (effect == codes "require_confirmation")
      then declared_pass []
      else if approves
      then declared_pass (auto_approved (codes "declarative_policy") ∷ [])
      else declared_ask (or_text reason (codes "confirmation required by declarative policy"))

  unfoldable pub declared_guard : Declared
  unfolding declared_effect tool_context
  declared_guard =
      let decision = decide_tool set.rules name (tool_context flow) in
      if is_empty set.rules
      then declared_pass []
      else declared_effect decision.effect decision.reason

-- The reason of the access layer for a refusal.
pub data Access : Type 0 where
  access_granted : Access
  access_denied : Option Text → Access

module _ {S H : Type 0} (set : Settings S H) where
  unfoldable pub security_guard : Flow → Text → Access
  security_guard flow name = elim set.security [
    | none ↦ access_granted
    | some cfg ↦
        let decision = evaluate cfg name flow.chat_id flow.connector in
        if decision.allowed then access_granted else access_denied decision.reason
  ]

  unfoldable pub fetch_guard : Arguments → Fetch
  unfolding fetch_value
  fetch_guard arguments = elim set.security [
    | none ↦ fetch_pass
    | some cfg ↦
        if set.ssrf_protection
        then fetch_value set.net (argument arguments (codes "url"))
        else fetch_pass
  ]
