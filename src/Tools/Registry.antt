-- ===== src/Tools/Registry.antt =====
-- ufoundry/tools/registry.py: tools by name. A schema `S`, the arguments `A` and a handler `H` are
-- types of the caller's; checking arguments against a schema is jsonschema's, a parameter.
use ufoundry.Base.{Option, none, some, Text, codes, text_eq, Dict, lookup, store, ◌++◌}

abbrev pub risk_green : Text
risk_green = codes "GREEN"

abbrev pub risk_red : Text
risk_red = codes "RED"

module _ (S H : Type 0) where
  pub record Tool : Type 0 where
    pub name : Text
    pub schema : S
    pub handler : H
    pub risk_level : Text
    pub description : Option Text

  abbrev pub ToolRegistry : Type 0
  ToolRegistry = Dict Text Tool

module _ {S H : Type 0} where
  unfoldable pub register : Tool S H → ToolRegistry S H → ToolRegistry S H
  register tool tools = store tool.name tool tools

  unfoldable pub get : ToolRegistry S H → Text → Option (Tool S H)
  get tools name = lookup name tools

-- `check` is `jsonschema.validate`: the message of its ValidationError, if it raises one.
module _ {S H A : Type 0} (check : A → S → Option Text) where
  -- The message of the ValidationError, if one is raised.
  unfoldable pub validate_args : ToolRegistry S H → Text → A → Option Text
  validate_args tools name args = elim (lookup name tools) [
    | none ↦ some (codes "Unknown tool: " ++ name)
    | some tool ↦ check args tool.schema
  ]
