-- ===== src/Security/Policy/Access.antt =====
-- ufoundry/security/policy.py: what decides over a tool.
use ufoundry.Base.{
  ◌≡◌, refl, ◌∙◌, text_beq, inl, inr, true, false, none, some, [], ◌∷◌, Text, codes, text_eq, ◌==◌,
  Bool-cases, arith, Dict, lookup, store, lookup-store, is_empty,
}
use ufoundry.Security.Policy.{
  RoleConfig, UserEntry, ConnectorEntry, RoleEntry, role_dict, role_value, SecurityConfig,
  default_roles, user_role, get_or, merge_role, add_roles, merged_roles, resolve_role, role_config,
  risk_override, decide, evaluate,
}

add_roles-user :
    (roles : Dict Text RoleEntry) (base : Dict Text RoleConfig) (r : RoleConfig)
    → lookup (codes "user") base ≡ some r
    → (s : RoleConfig) × (lookup (codes "user") (add_roles roles base) ≡ some s)
unfolding add_roles
add_roles-user [] base r h = (r, h)
add_roles-user ((name, role_value) ∷ rest) base r h = add_roles-user rest base r h
add_roles-user ((name, role_dict s) ∷ rest) base r h =
    let merged = merge_role (lookup name default_roles) s in
    let stored = lookup-store name (codes "user") merged base in
    elim (Bool-cases (name == codes "user")) [
      | inl e ↦ add_roles-user rest (store name merged base) merged (rw e at stored)
      | inr e ↦ add_roles-user rest (store name merged base) r ((rw e at stored) ∙ h)
    ]

-- The merged roles always hold the role "user", so the fallback never fails: a caller whose role
-- has no configuration gets what the role "user" gets, and that is one of the merged roles.
pub role_config-unknown :
    (cfg : SecurityConfig) (name : Text)
    → lookup name (merged_roles cfg) ≡ none
    → (lookup (codes "user") (merged_roles cfg) ≡ some (role_config cfg name))
      × (role_config cfg name ≡ role_config cfg (codes "user"))
unfolding role_config merged_roles
role_config-unknown cfg name h =
    let (r, known) =
      add_roles-user cfg.roles default_roles user_role (unfold lookup text_beq in refl) in
    rw (h, known) (refl, refl)

same_role :
    (cfg : SecurityConfig) (connectors : Dict Text ConnectorEntry) (user_id c d : Text)
    (entry : UserEntry)
    → is_empty user_id ≡ false
    → lookup user_id cfg.users ≡ some entry
    → resolve_role cfg user_id c ≡ resolve_role (record cfg { connectors = connectors }) user_id d
same_role cfg connectors user_id c d entry named known =
    unfold resolve_role in rw (named, known) (ground arith)

-- The decision on a call of a user who has an entry of their own depends neither on the connector
-- nor on what is configured for connectors: with any other connector, and any other configuration
-- of connectors, it is the same.
pub evaluate-user_entry :
    (cfg : SecurityConfig) (connectors : Dict Text ConnectorEntry) (tool_name user_id c d : Text)
    (entry : UserEntry)
    → is_empty user_id ≡ false
    → lookup user_id cfg.users ≡ some entry
    → evaluate cfg tool_name user_id c
      ≡ evaluate (record cfg { connectors = connectors }) tool_name user_id d
unfolding evaluate role_config merged_roles
evaluate-user_entry cfg connectors tool_name user_id c d entry named known =
    let same = same_role cfg connectors user_id c d entry named known in rw same refl

-- The risk of a call is overridden only where the call is allowed and the caller's role asks for
-- no approval, neither of RED tools, where that must be said, nor of YELLOW ones.
pub evaluate-override :
    (cfg : SecurityConfig) (tool_name user_id connector risk : Text)
    → (evaluate cfg tool_name user_id connector).override_risk ≡ some risk
    → ((evaluate cfg tool_name user_id connector).allowed ≡ true)
      × (get_or (role_config cfg (resolve_role cfg user_id connector)).require_approval_for_red true
          ≡ false)
      × (get_or
            (role_config cfg (resolve_role cfg user_id connector)).require_approval_for_yellow
            false
          ≡ false)
      × (risk ≡ codes "GREEN")
unfolding evaluate decide risk_override
evaluate-override cfg tool_name user_id connector risk h = ground arith
