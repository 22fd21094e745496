-- ===== src/Gateway/Panels.antt =====
-- ufoundry/control_panel/manager.py: the panels of the owner, and which messages come from them.
pub mod Distinct
use ufoundry.Base.{
  Bool, true, false, not, ◌&&◌, ◌||◌, ◌==◌, ℕ, Option, none, some, List, [], ◌∷◌, ◌++◌, Text, codes,
  text_eq, leb, if◌then◌else◌, is_empty, is_infix, or_text, lower, strip, any, filter, Dict, lookup,
}

pub record PanelConfig : Type 0 where
  pub enabled : Bool
  pub ui_type : Text
  pub connector : Text
  pub chat_id : Option Text
  pub multi_agent_topology : Text
  pub multi_agent_logs : Text

-- The name and the type of a connector.
abbrev pub Connectors : Type 0
Connectors = List (Text × Text)

abbrev pub text_of : Option Text → Text
text_of none = []
text_of (some s) = s

-- The key by which panels are told apart.
pub record PanelKey : Type 0 where
  pub ui_type : Text
  pub chat_id : Text
  pub connector : Text

unfoldable pub panel_key : PanelConfig → PanelKey
panel_key p = record { ui_type = p.ui_type; chat_id = text_of p.chat_id; connector = p.connector }

abbrev pub same_key : PanelKey → PanelKey → Bool
same_key a b = a.ui_type == b.ui_type && a.chat_id == b.chat_id && a.connector == b.connector

-- `_add`: a panel whose key has been seen is left out.
unfoldable pub add_panel : List PanelConfig → PanelConfig → List PanelConfig
unfolding panel_key
add_panel panels p =
    if any (λ q. same_key (panel_key q) (panel_key p)) panels then panels else panels ++ p ∷ []

unfoldable pub add_panels : List PanelConfig → List PanelConfig → List PanelConfig
unfolding add_panel
add_panels panels [] = panels
add_panels panels (p ∷ more) = add_panels (add_panel panels p) more

unfoldable pub build_panel_list : Option PanelConfig → List PanelConfig → List PanelConfig
unfolding add_panels
build_panel_list none control_panels = add_panels [] control_panels
build_panel_list (some primary) control_panels =
    let panels = add_panels [] control_panels in
    if primary.enabled then add_panel panels primary else panels

-- The channel of the first connector of the name whose type tells it.
unfoldable pub channel_of_connector : Text → Text → Connectors → Text
channel_of_connector fallback name [] = fallback
channel_of_connector fallback name ((conn, kind) ∷ rest) =
    let later = channel_of_connector fallback name rest in
    if not (conn == name)
    then later
    else if is_infix (codes "telegram") kind
    then codes "telegram"
    else if is_infix (codes "discord") kind
    then codes "discord"
    else if is_infix (codes "whatsapp") kind
    then codes "whatsapp"
    else later

unfoldable pub channel_for_panel : Connectors → PanelConfig → Text
unfolding channel_of_connector
channel_for_panel connectors p =
    if p.ui_type == codes "web"
    then codes "web"
    else if is_empty p.connector
    then p.ui_type
    else channel_of_connector p.ui_type p.connector connectors

-- The checks of one panel.
unfoldable pub panel_matches : Connectors → Text → Text → Text → PanelConfig → Bool
unfolding channel_for_panel
panel_matches connectors channel chat_id connector p =
    if not p.enabled
    then false
    else if not (channel == channel_for_panel connectors p)
    then false
    else elim p.chat_id [
      | none ↦ false
      | some own ↦
          chat_id == own
          && not (
              not (is_empty p.connector)
              && not (is_empty connector)
              && not (connector == p.connector))
    ]

unfoldable pub is_control_message : Connectors → List PanelConfig → Text → Text → Text → Bool
unfolding panel_matches
is_control_message connectors panels channel chat_id connector =
    any (panel_matches connectors channel chat_id connector) panels

-- A message that is sent: channel, chat, connector.
pub record Target : Type 0 where
  pub channel : Text
  pub chat_id : Text
  pub connector : Text

-- `_send_to_panel`; a failure to send is only logged.
unfoldable pub panel_target : Connectors → PanelConfig → Option Target
unfolding channel_for_panel
panel_target connectors p =
    if p.ui_type == codes "web"
    then some
        (record { channel = codes "web"; chat_id = codes "admin"; connector = codes "web-panel" })
    else if is_empty (channel_for_panel connectors p) || is_empty (text_of p.chat_id)
    then none
    else some (record {
      channel = channel_for_panel connectors p;
      chat_id = text_of p.chat_id;
      connector = p.connector;
    })

unfoldable pub targets_of : Connectors → List PanelConfig → List Target
unfolding panel_target
targets_of connectors [] = []
targets_of connectors (p ∷ panels) = elim (panel_target connectors p) [
  | none ↦ targets_of connectors panels
  | some target ↦ target ∷ targets_of connectors panels
]

-- The messages of `send_notification`.
unfoldable pub send_notification : Connectors → List PanelConfig → List Target
unfolding targets_of
send_notification connectors panels = targets_of connectors (filter (λ p. p.enabled) panels)

abbrev detail_order : Dict Text ℕ
detail_order = (codes "none", 0) ∷ (codes "summary", 1) ∷ (codes "full", 2) ∷ []

abbrev order_or : ℕ → Option ℕ → ℕ
order_or default none = default
order_or default (some n) = n

-- str(raw or "").strip().lower() or default
abbrev level_of : Text → Text → Text
level_of raw default = or_text (lower (strip raw)) default

unfoldable pub panel_allows_observability : PanelConfig → Text → Text → Bool
panel_allows_observability p category detail_level =
    let configured =
      if category == codes "multi_agent_logs"
      then level_of p.multi_agent_logs (codes "none")
      else level_of p.multi_agent_topology (codes "summary") in
    leb (order_or 1 (lookup (lower (strip detail_level)) detail_order))
      (order_or 0 (lookup configured detail_order))
