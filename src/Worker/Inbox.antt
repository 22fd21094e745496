-- ===== src/Worker/Inbox.antt =====
-- ufoundry/intent.py and ufoundry/worker.py: what becomes of a listener's message before the model
-- sees it. `classify` is the model's answer, parsed, or none where `detect_intent` fails. It then
-- returns the module's `_FALLBACK`, the one object for all messages, and `_process_message` writes
-- to what it got: `shared` is that object's value, passed from message to message.
pub mod Fallback
mod Tests
use ufoundry.Base.{
  Bool, true, false, ◌&&◌, ◌==◌, Option, none, some, List, [], ◌∷◌, Text, codes, text_eq,
  if◌then◌else◌, is_empty, lower, is_infix, or_text,
}
use ufoundry.Policy.Rules.{RuleContext, IntentRuleDecision, CompiledRule, decide_intent}

pub record IntentResult : Type 0 where
  pub importance : Text
  pub needs_admin : Bool
  pub suggested_action : Text
  pub summary : Text

abbrev pub fallback : IntentResult
fallback = record {
  importance = codes "medium";
  needs_admin = true;
  suggested_action = codes "summarize";
  summary = codes "(intent detection failed — treating as medium importance)";
}

unfoldable pub should_skip : IntentResult → Bool
should_skip intent = intent.suggested_action == codes "ignore" && intent.importance == codes "low"

-- Where the message comes from.
pub record Inbound : Type 0 where
  pub connector : Text
  pub source_connector : Text
  pub channel : Text
  pub kind : Text

pub data Verdict : Type 0 where
  dropped skipped : Verdict
  accepted : IntentResult → Verdict

-- Mail is never skipped for what the model says of it.
unfoldable pub gmail_override : Text → IntentResult → IntentResult
unfolding should_skip
gmail_override source_connector intent =
    if is_infix (codes "gmail") (lower source_connector) && should_skip intent
    then record {
      importance = codes "medium";
      needs_admin = true;
      suggested_action = codes "summarize";
      summary = or_text intent.summary (codes "Inbound Gmail message received.");
    }
    else intent

unfoldable pub inbound_context : Inbound → IntentResult → RuleContext
inbound_context inbound intent = record {
  connector = inbound.connector;
  source_connector = inbound.source_connector;
  connector_role = codes "listener";
  channel = inbound.channel;
  direction = codes "inbound";
  kind = inbound.kind;
  action = intent.suggested_action;
  importance = intent.importance;
  needs_admin = some intent.needs_admin;
  admin_explicit = some false;
}

abbrev pub or_old : Option Bool → Bool → Bool
or_old none old = old
or_old (some new) old = new

-- The fields that a rule sets.
unfoldable pub apply_decision : IntentRuleDecision → IntentResult → IntentResult
apply_decision decision intent = record intent {
  importance = or_text decision.set_importance intent.importance;
  suggested_action = or_text decision.set_action intent.suggested_action;
  needs_admin = or_old decision.set_needs_admin intent.needs_admin;
}

abbrev pub drops_message : Option Bool → Bool
drops_message none = false
drops_message (some ingest) = if ingest then false else true

-- The verdict, and what the object holds: `drop` is that of a rule, `updated` the intent after it.
unfoldable pub verdict_on : Bool → IntentResult → IntentResult → Verdict × IntentResult
unfolding should_skip
verdict_on drop intent updated =
    if drop
    then (dropped, intent)
    else if should_skip updated
    then (skipped, updated)
    else (accepted updated, updated)

unfoldable pub judge_overridden :
    List CompiledRule → Inbound → IntentResult → Verdict × IntentResult
unfolding verdict_on inbound_context apply_decision
judge_overridden [] inbound intent = verdict_on false intent intent
judge_overridden (rule ∷ rules) inbound intent =
    let decision = decide_intent (rule ∷ rules) (inbound_context inbound intent) in
    verdict_on (drops_message decision.ingest_to_llm) intent (apply_decision decision intent)

-- From the intent on, as `detect_intent` returned it.
unfoldable pub judge_intent : List CompiledRule → Inbound → IntentResult → Verdict × IntentResult
unfolding gmail_override judge_overridden
judge_intent rules inbound detected =
    judge_overridden rules inbound (gmail_override inbound.source_connector detected)

-- A message, with the object that failures share.
unfoldable pub listen :
    List CompiledRule → Inbound → Option IntentResult → IntentResult → Verdict × IntentResult
unfolding judge_intent
listen rules inbound none shared = judge_intent rules inbound shared
listen rules inbound (some detected) shared = ((judge_intent rules inbound detected).0, shared)
