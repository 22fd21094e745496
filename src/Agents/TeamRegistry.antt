-- ===== src/Agents/TeamRegistry.antt =====
-- ufoundry/agents/team_registry.py: which tools the members of a team get at run time
-- (`_prepare_team_for_runtime`, `_resolve_capabilities_for_team`, `_build_capability_catalog`,
-- `_match_tool_patterns`). A team's fields that these read are given as lists of texts;
-- `skill_tools` gives the texts that a skill's metadata lists as its tools, none for a skill that is
-- not known.
pub mod Effective
mod Tests
use ufoundry.Base.{
  ℕ, zero, suc, ◌+◌, Bool, true, false, not, ◌&&◌, ◌||◌, ◌==◌, Option, none, some, List, [], ◌∷◌,
  ◌++◌, map, Text, codes, text_eq, if◌then◌else◌, is_empty, lower, strip, is_infix, any, filter,
  contains, fnmatch, length, leb, ltb, eqb, sort_by, Dict, lookup, store, decimal,
}
use ufoundry.Tools.Registry.{ToolRegistry, get}

pub record TeamMember : Type 0 where
  pub role : Text
  pub tool_allowlist : List Text
  pub skill_allowlist : List Text

pub record AgentTeam : Type 0 where
  pub tool_pool : List Text
  pub required_capabilities : List Text
  pub capability_overrides : Dict Text (List Text)
  pub members : List TeamMember

pub record CapabilityPreflight : Type 0 where
  pub ok : Bool
  pub required : List Text
  pub matched_capabilities : List Text
  pub missing_patterns : List Text
  pub capabilities_without_tools : List Text
  pub resolved_tools : List Text
  pub catalog_keys : List Text

pub record PreparedMember : Type 0 where
  pub member : TeamMember
  pub effective_tools : List Text

pub record PreparedTeam : Type 0 where
  pub members : List PreparedMember
  pub runtime_tool_pool : List Text
  pub capability_preflight : CapabilityPreflight

abbrev pub capability_tool_patterns : Dict Text (List Text)
capability_tool_patterns =
    (codes "screenshot_capture", codes "mcp_*screenshot*" ∷ codes "mcp_playwright_*" ∷ [])
    ∷ (
      codes "browser_navigation",
      codes "mcp_*navigate*" ∷ codes "mcp_*goto*" ∷ codes "mcp_playwright_*" ∷ [],
    )
    ∷ (
      codes "browser_interaction",
      codes "mcp_*click*" ∷ codes "mcp_*type*" ∷ codes "mcp_playwright_*" ∷ [],
    )
    ∷ (
      codes "http_probe",
      codes "shell.run"
          ∷ codes "http.*"
          ∷ codes "web.*"
          ∷ codes "mcp_*fetch*"
          ∷ codes "mcp_*request*"
          ∷ [],
    )
    ∷ (codes "build_and_test", codes "shell.run" ∷ [])
    ∷ (
      codes "filesystem_rw",
      codes "file.read" ∷ codes "file.list" ∷ codes "file.write" ∷ codes "file.delete" ∷ [],
    )
    ∷ []

-- [str(item).strip() for item in items if str(item).strip()]
abbrev pub stripped : List Text → List Text
stripped items = map strip (filter (λ item. not (is_empty (strip item))) items)

-- a <= b, for Python's `str`
pub text_leb : Text → Text → Bool
text_leb [] t = true
text_leb (c ∷ s) [] = false
text_leb (c ∷ s) (d ∷ t) = ltb c d || eqb c d && text_leb s t

pub match_tool_patterns : List Text → List Text → List Text
match_tool_patterns patterns available_tools =
    filter
      (λ tool_name. any (λ pattern. fnmatch (lower (strip tool_name)) (lower pattern)) patterns)
      available_tools

-- The loop over the overrides.
pub merge_patterns : Dict Text (List Text) → Dict Text (List Text) → Dict Text (List Text)
merge_patterns [] merged = merged
merge_patterns ((key, patterns) ∷ overrides) merged =
    let cap_key = lower (strip key) in
    let kept = merge_patterns overrides merged in
    let stored = merge_patterns overrides (store cap_key (stripped patterns) merged) in
    if is_empty cap_key then kept else stored

pub build_capability_catalog : List Text → Dict Text (List Text) → Dict Text (List Text)
unfolding merge_patterns match_tool_patterns
build_capability_catalog available_tools overrides =
    map (λ (entry : Text × List Text). (entry.0, match_tool_patterns entry.1 available_tools))
      (merge_patterns overrides capability_tool_patterns)

abbrev pub key_matches : Text → List Text → List Text
key_matches pattern keys =
    if pattern == codes "*" then keys else filter (λ key. fnmatch key (lower pattern)) keys

-- for item in items: if item not in out: out.append(item)
pub add_new : List Text → List Text → List Text
add_new [] out = out
add_new (item ∷ items) out =
    let seen = add_new items out in
    let added = add_new items (out ++ item ∷ []) in if contains out item then seen else added

-- The loop over the required patterns: the keys matched so far, and the patterns that match none.
pub match_required : List Text → List Text → List Text → List Text → List Text × List Text
unfolding add_new
match_required keys [] matched missing = (matched, missing)
match_required keys (pattern ∷ required) matched missing =
    let found = key_matches pattern keys in
    let without = match_required keys required matched (missing ++ pattern ∷ []) in
    let with_keys = match_required keys required (add_new found matched) missing in
    if is_empty found then without else with_keys

abbrev pub tools_of : Dict Text (List Text) → Text → List Text
tools_of catalog key = elim (lookup key catalog) [ none ↦ [] | some tools ↦ tools ]

pub resolve_tools : Dict Text (List Text) → List Text → List Text → List Text
unfolding add_new
resolve_tools catalog [] out = out
resolve_tools catalog (key ∷ keys) out =
    resolve_tools catalog keys (add_new (tools_of catalog key) out)

pub resolve_capabilities_for_team : AgentTeam → List Text → CapabilityPreflight
unfolding build_capability_catalog match_required resolve_tools text_leb
resolve_capabilities_for_team team available_tools =
    let required = stripped team.required_capabilities in
    let catalog = build_capability_catalog available_tools team.capability_overrides in
    let keys = sort_by text_leb (map (λ (entry : Text × List Text). entry.0) catalog) in
    let found = match_required keys required [] [] in
    let bare = filter (λ key. is_empty (tools_of catalog key)) found.0 in
    let resolved = resolve_tools catalog found.0 [] in
    record {
      ok = is_empty found.1 && is_empty bare && (not (is_empty resolved) || is_empty required);
      required = required;
      matched_capabilities = found.0;
      missing_patterns = found.1;
      capabilities_without_tools = bare;
      resolved_tools = resolved;
      catalog_keys = keys;
    }

module _ {S H : Type 0} (tool_registry : ToolRegistry S H) (skill_tools : Text → List Text) where
  abbrev pub is_registered : Text → Bool
  is_registered name = elim (get tool_registry name) [ none ↦ false | some tool ↦ true ]

  -- The names that a member's skills require.
  pub tools_of_skills : List Text → List Text
  tools_of_skills [] = []
  tools_of_skills (key ∷ keys) = stripped (skill_tools key) ++ tools_of_skills keys

  -- Whether a member may use a tool of the pool: by its own list and that of its skills, each
  -- where it is not empty.
  pub is_effective : TeamMember → Text → Bool
  unfolding tools_of_skills
  is_effective member name =
      let own = member.tool_allowlist in
      let skilled = tools_of_skills member.skill_allowlist in
      (is_empty own || contains own name) && (is_empty skilled || contains skilled name)

  pub prepare_members : List Text → List TeamMember → List PreparedMember
  unfolding is_effective
  prepare_members pool members =
      map
        (λ (member : TeamMember). record {
          member = member;
          effective_tools = filter (is_effective member) pool;
        })
        members

  abbrev pub or_all : List Text → List Text → List Text
  or_all [] allowed = allowed
  or_all (name ∷ names) allowed = name ∷ names

  -- The pool of the team: its own tools that are allowed, or all that are.
  pub team_pool : AgentTeam → List Text → List Text
  team_pool team allowed_tools =
      let allowed_global = filter is_registered allowed_tools in
      or_all (filter (contains allowed_global) team.tool_pool) allowed_global

  pub effective_pool : AgentTeam → List Text → List Text
  unfolding team_pool
  effective_pool team allowed_tools =
      let pool = team_pool team allowed_tools in
      let preflight = resolve_capabilities_for_team team pool in
      if is_empty team.required_capabilities
      then pool
      else filter (contains preflight.resolved_tools) pool

  pub prepare_team_for_runtime : AgentTeam → List Text → PreparedTeam
  unfolding prepare_members effective_pool
  prepare_team_for_runtime team allowed_tools =
      let pool = effective_pool team allowed_tools in
      record {
        members = prepare_members pool team.members;
        runtime_tool_pool = pool;
        capability_preflight = resolve_capabilities_for_team team (team_pool team allowed_tools);
      }
