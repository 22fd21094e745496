-- ===== src/Gateway/Router.antt =====
-- ufoundry/router.py: which messages are control messages, and the confirmation that such a message
-- consumes.
use ufoundry.Base.{
  Bool, false, ◌&&◌, ◌||◌, ◌==◌, Option, none, some, List, Text, codes, text_eq, if◌then◌else◌,
  is_empty,
}
use ufoundry.Policy.Engine.{Pending, PendingConfirmation, consume_confirmation}
use ufoundry.Gateway.Panels.{Connectors, PanelConfig, text_of, is_control_message}

pub record IncomingMessage : Type 0 where
  pub channel : Text
  pub chat_id : Text
  pub user_id : Text
  pub text : Text
  pub connector : Text
  pub reply_connector : Text
  pub reply_chat_id : Text
  pub reply_channel : Text

pub record ControlConfig : Type 0 where
  pub channel : Text
  pub chat_id : Option Text
  pub connector : Text

-- The manager of the panels: whether the panel of the old field `control_panel` is enabled, all
-- panels, and the connectors of the configuration.
pub record PanelManager : Type 0 where
  pub primary_enabled : Bool
  pub panels : List PanelConfig
  pub connectors : Connectors

pub data Kind : Type 0 where
  control external : Kind

-- The configuration from before there were panels.
unfoldable pub matches_control : ControlConfig → IncomingMessage → Bool
matches_control config message =
    if is_empty config.channel || is_empty (text_of config.chat_id)
    then false
    else message.channel == config.channel && message.chat_id == text_of config.chat_id

unfoldable pub from_control : Option PanelManager → ControlConfig → IncomingMessage → Bool
unfolding matches_control is_control_message
from_control none config message = matches_control config message
from_control (some manager) config message =
    if manager.primary_enabled
    then is_control_message manager.connectors manager.panels message.channel message.chat_id
        message.connector
    else matches_control config message

unfoldable pub is_control :
    Option PanelManager → ControlConfig → Option Text → IncomingMessage → Bool
unfolding from_control
is_control manager config none message = from_control manager config message
is_control manager config (some hint) message =
    if hint == codes "control" || hint == codes "external"
    then hint == codes "control"
    else from_control manager config message

pub record Routed (A M : Type 0) : Type 0 where
  pub kind : Kind
  pub pending_confirmation : Option (PendingConfirmation A M)

unfoldable pub route :
    {A M : Type 0}
    → Option PanelManager
    → ControlConfig
    → Option Text
    → IncomingMessage
    → Pending A M
    → Routed A M × Pending A M
unfolding is_control
route manager config kind_hint message pending =
    let consumed = consume_confirmation pending message.chat_id message.text in
    if is_control manager config kind_hint message
    then (record { kind = control; pending_confirmation = consumed.0 }, consumed.1)
    else (record { kind = external; pending_confirmation = none }, pending)
