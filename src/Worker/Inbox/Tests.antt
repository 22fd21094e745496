-- ===== src/Worker/Inbox/Tests.antt =====
-- The theorem on shared intents at a concrete input.
use ufoundry.Base.{pos, none, List, [], ◌∷◌, codes}
use ufoundry.Policy.Rules.{CompiledRule}
use ufoundry.Worker.Inbox.{Inbound}

abbrev ignore_discord : CompiledRule
ignore_discord = record {
  id = codes "quiet-discord";
  priority = pos 1;
  description = [];
  connectors = codes "discord" ∷ [];
  connector_roles = [];
  channels = [];
  directions = [];
  kinds = [];
  tools = [];
  importance = [];
  actions = [];
  needs_admin = none;
  admin_explicit = none;
  tool_effect = codes "inherit";
  ingest_to_llm = none;
  set_importance = codes "low";
  set_action = codes "ignore";
  set_needs_admin = none;
  reason = [];
}

abbrev from_discord : Inbound
from_discord = record {
  connector = codes "discord";
  source_connector = codes "discord";
  channel = codes "dm";
  kind = codes "external";
}

abbrev from_telegram : Inbound
from_telegram = record {
  connector = codes "telegram_user";
  source_connector = codes "telegram_user";
  channel = codes "dm";
  kind = codes "external";
}

abbrev rules : List CompiledRule
rules = ignore_discord ∷ []
