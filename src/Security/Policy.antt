-- ===== src/Security/Policy.antt =====
-- ufoundry/security/policy.py: which tools a user may call. A role's dict has the keys that are
-- given; a key that is missing is `none`, and `role_cfg.get` supplies the default. A role may
-- stand in the configuration as a dict or, for users, as a plain name.
pub mod Access
use ufoundry.Base.{
  Bool, true, false, not, ◌&&◌, Option, none, some, List, [], ◌∷◌, ◌++◌, Text, codes, text_eq, any,
  if◌then◌else◌, Dict, lookup, store, fnmatch, is_empty,
}

pub record RoleConfig : Type 0 where
  pub allow : Option (List Text)
  pub deny : Option (List Text)
  pub require_approval_for_red : Option Bool
  pub require_approval_for_yellow : Option Bool

-- An entry of `users`: a dict with or without a role, or any other value by its text.
pub data UserEntry : Type 0 where
  user_dict : Option Text → UserEntry
  user_value : Text → UserEntry

-- An entry of `connectors`; one that is no dict is passed over.
pub data ConnectorEntry : Type 0 where
  connector_dict : Option Text → ConnectorEntry
  connector_value : ConnectorEntry

pub data RoleEntry : Type 0 where
  role_dict : RoleConfig → RoleEntry
  role_value : RoleEntry

pub record SecurityConfig : Type 0 where
  pub enabled : Bool
  pub roles : Dict Text RoleEntry
  pub users : Dict Text UserEntry
  pub connectors : Dict Text ConnectorEntry

pub record SecurityDecision : Type 0 where
  pub allowed : Bool
  pub reason : Option Text
  pub override_risk : Option Text

abbrev pub role : List Text → List Text → Bool → Bool → RoleConfig
role allow deny red yellow = record {
  allow = some allow;
  deny = some deny;
  require_approval_for_red = some red;
  require_approval_for_yellow = some yellow;
}

abbrev pub user_role : RoleConfig
user_role = role (codes "*" ∷ []) (codes "shell.*" ∷ []) true true

abbrev pub readonly_role : RoleConfig
readonly_role =
    role
      (codes "gmail.list"
        ∷ codes "gmail.read"
        ∷ codes "gmail.search"
        ∷ codes "gcal.list_events"
        ∷ codes "gtasks.list"
        ∷ codes "skill.get_instructions"
        ∷ [])
      (codes "shell.*"
        ∷ codes "gmail.send"
        ∷ codes "gcal.create_event"
        ∷ codes "gcal.update_event"
        ∷ codes "gcal.delete_event"
        ∷ codes "gtasks.create"
        ∷ codes "gtasks.delete"
        ∷ [])
      true true

abbrev pub default_roles : Dict Text RoleConfig
default_roles =
    (codes "admin", role (codes "*" ∷ []) [] false false)
    ∷ (codes "trusted", role (codes "*" ∷ []) [] true false)
    ∷ (codes "user", user_role)
    ∷ (codes "readonly", readonly_role)
    ∷ []

-- `a` where it is given, else `b`
abbrev pub first {ℓ} : {A : Type ℓ} → Option A → Option A → Option A
first none b = b
first (some a) b = some a

abbrev pub get_or {ℓ} : {A : Type ℓ} → Option A → A → A
get_or none d = d
get_or (some a) d = a

-- {**old, **new}
pub merge_role : Option RoleConfig → RoleConfig → RoleConfig
merge_role none new = new
merge_role (some old) new = record {
  allow = first new.allow old.allow;
  deny = first new.deny old.deny;
  require_approval_for_red = first new.require_approval_for_red old.require_approval_for_red;
  require_approval_for_yellow =
      first new.require_approval_for_yellow old.require_approval_for_yellow;
}

-- The loop of `__init__` over the configured roles.
pub add_roles : Dict Text RoleEntry → Dict Text RoleConfig → Dict Text RoleConfig
unfolding merge_role
add_roles [] roles = roles
add_roles ((name, role_value) ∷ rest) roles = add_roles rest roles
add_roles ((name, role_dict r) ∷ rest) roles =
    add_roles rest (store name (merge_role (lookup name default_roles) r) roles)

pub merged_roles : SecurityConfig → Dict Text RoleConfig
unfolding add_roles
merged_roles cfg = add_roles cfg.roles default_roles

pub connector_role : SecurityConfig → Text → Text
connector_role cfg connector =
    let entry = lookup connector cfg.connectors in
    if is_empty connector
    then codes "user"
    else elim entry [ some (connector_dict r) ↦ get_or r (codes "user") | _ ↦ codes "user" ]

-- `_resolve_role`
pub resolve_role : SecurityConfig → Text → Text → Text
unfolding connector_role
resolve_role cfg user_id connector =
    let entry = lookup user_id cfg.users in
    if is_empty user_id then connector_role cfg connector else elim entry [
      | some (user_dict r) ↦ get_or r (codes "user")
      | some (user_value name) ↦ name
      | none ↦ connector_role cfg connector
    ]

-- `_risk_override`: GREEN if the role bypasses all approval requirements
pub risk_override : RoleConfig → Option Text
risk_override r =
    let no_red = not (get_or r.require_approval_for_red true) in
    let no_yellow = not (get_or r.require_approval_for_yellow false) in
    if no_red && no_yellow then some (codes "GREEN") else none

pub matches_any : Text → List Text → Bool
matches_any tool_name patterns = any (λ p. fnmatch tool_name p) patterns

-- The role's lists, applied to a tool.
pub decide : RoleConfig → Text → SecurityDecision
unfolding matches_any risk_override
decide r tool_name =
    if matches_any tool_name (get_or r.deny [])
    then record {
      allowed = false;
      reason =
          some (codes "Tool '" ++ (tool_name ++ codes "' is not permitted for your access level."));
      override_risk = none;
    }
    else if matches_any tool_name (get_or r.allow (codes "*" ∷ []))
    then record { allowed = true; reason = none; override_risk = risk_override r }
    else record {
      allowed = false;
      reason = some (
          codes "Tool '"
          ++ (tool_name ++ codes "' is not in the allowed list for your access level."));
      override_risk = none;
    }

-- self._roles.get(role, self._roles["user"]); the built-in roles always hold "user"
pub role_config : SecurityConfig → Text → RoleConfig
unfolding merged_roles
role_config cfg name =
    get_or (lookup name (merged_roles cfg))
      (get_or (lookup (codes "user") (merged_roles cfg)) user_role)

pub evaluate : SecurityConfig → Text → Text → Text → SecurityDecision
unfolding decide role_config resolve_role
evaluate cfg tool_name user_id connector =
    if not cfg.enabled
    then record { allowed = true; reason = none; override_risk = none }
    else decide (role_config cfg (resolve_role cfg user_id connector)) tool_name
