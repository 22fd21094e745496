-- ===== src/Agents/TeamRegistry/Tests.antt =====
-- The theorem on prepared teams at a concrete input.
use ufoundry.Base.{In, All, List, [], ◌∷◌, Text, codes, none}
use ufoundry.Tools.Registry.{Tool, ToolRegistry, risk_green}
use ufoundry.Agents.TeamRegistry.{AgentTeam, PreparedMember, prepare_team_for_runtime}
use ufoundry.Agents.TeamRegistry.Effective.{IsEntitled, prepare_team_for_runtime-IsEntitled}

abbrev reader : Tool Unit Unit
reader = record {
  name = codes "file.read";
  schema = tt;
  handler = tt;
  risk_level = risk_green;
  description = none;
}

abbrev registry : ToolRegistry Unit Unit
registry = (codes "file.read", reader) ∷ []

abbrev pair_team : AgentTeam
pair_team = record {
  tool_pool = [];
  required_capabilities = codes "filesystem_*" ∷ [];
  capability_overrides = [];
  members =
      record {
        role = codes "Reader";
        tool_allowlist = codes "file.read" ∷ codes "file.write" ∷ [];
        skill_allowlist = [];
      }
      ∷ [];
}

abbrev allowed : List Text
allowed = codes "file.read" ∷ codes "file.write" ∷ []

abbrev no_skills : Text → List Text
no_skills key = []

prepare_team_for_runtime-IsEntitled_example :
    All
      (λ (prepared : PreparedMember).
        (name : Text)
        → In name prepared.effective_tools
        → IsEntitled registry no_skills pair_team allowed prepared.member name)
      (prepare_team_for_runtime registry no_skills pair_team allowed).members
prepare_team_for_runtime-IsEntitled_example =
    prepare_team_for_runtime-IsEntitled registry no_skills pair_team allowed
