-- ===== src/Agents/TeamRegistry/Effective.antt =====
-- ufoundry/agents/team_registry.py, `_prepare_team_for_runtime`: the tools that a member gets.
use ufoundry.Base.{
  ◌≡◌, Bool, true, false, ◌&&◌, ◌||◌, Bool-cases, inl, inr, List, [], ◌∷◌, Text, text_eq, In, All,
  All-map, All-every, contains, contains_iff, filter, filter-In, is_empty, arith,
}
use ufoundry.Tools.Registry.{ToolRegistry}
use ufoundry.Agents.TeamRegistry.{
  TeamMember, AgentTeam, PreparedMember, is_registered, tools_of_skills, is_effective,
  prepare_members, or_all, team_pool, effective_pool, prepare_team_for_runtime,
  resolve_capabilities_for_team,
}

module _ {S H : Type 0} (tool_registry : ToolRegistry S H) (skill_tools : Text → List Text)
    (team : AgentTeam) (allowed_tools : List Text) where
  abbrev allowed_global : List Text
  allowed_global = filter (is_registered tool_registry skill_tools) allowed_tools

  abbrev pool : List Text
  pool = team_pool tool_registry skill_tools team allowed_tools

  -- What holds of every tool that a member gets.
  abbrev pub IsEntitled : TeamMember → Text → Type 0
  IsEntitled member name =
      In name allowed_tools
      × (is_registered tool_registry skill_tools name ≡ true)
      × (is_empty team.required_capabilities ≡ false
          → In name (resolve_capabilities_for_team team pool).resolved_tools)
      × (is_empty member.tool_allowlist ≡ false → In name member.tool_allowlist)
      × (is_empty (tools_of_skills tool_registry skill_tools member.skill_allowlist) ≡ false
          → In name (tools_of_skills tool_registry skill_tools member.skill_allowlist))

  from_pool :
      (own : List Text) (name : Text)
      → ((n : Text) → In n own → In n allowed_global)
      → In name (or_all tool_registry skill_tools own allowed_global)
      → In name allowed_global
  from_pool [] name sub m = m
  from_pool (n ∷ own) name sub m = sub name m

  team_pool-In :
      (name : Text)
      → In name pool
      → In name allowed_tools × (is_registered tool_registry skill_tools name ≡ true)
  unfolding team_pool
  team_pool-In name m = filter-In (is_registered tool_registry skill_tools) allowed_tools name (
      from_pool (filter (contains allowed_global) team.tool_pool) name
        (λ n k.
          (contains_iff allowed_global n).0
            (filter-In (contains allowed_global) team.tool_pool n k).1)
        m)

  effective_pool-In :
      (name : Text)
      → In name (effective_pool tool_registry skill_tools team allowed_tools)
      → In name pool
        × (is_empty team.required_capabilities ≡ false
            → In name (resolve_capabilities_for_team team pool).resolved_tools)
  unfolding effective_pool
  effective_pool-In name m = elim (Bool-cases (is_empty team.required_capabilities)) [
    | inl e ↦ (rw e at m, λ f. cc (e, f))
    | inr e ↦
        let resolved = (resolve_capabilities_for_team team pool).resolved_tools in
        let (given, found) = filter-In (contains resolved) pool name (rw e at m) in
        (given, λ f. (contains_iff resolved name).0 found)
  ]

  -- A list that is not empty admits only its members.
  listed :
      (names : List Text) (name : Text)
      → (is_empty names || contains names name) ≡ true
      → is_empty names ≡ false
      → In name names
  listed names name h e = (contains_iff names name).0 (rw e at h)

  both : (a b : Bool) → (a && b) ≡ true → (a ≡ true) × (b ≡ true)
  both a b h = (ground arith, ground arith)

  member-IsEntitled :
      (member : TeamMember) (name : Text)
      → In name (
          filter
            (is_effective tool_registry skill_tools member)
            (effective_pool tool_registry skill_tools team allowed_tools))
      → IsEntitled member name
  unfolding is_effective
  member-IsEntitled member name m =
      let own = member.tool_allowlist in
      let skilled = tools_of_skills tool_registry skill_tools member.skill_allowlist in
      let (in_pool, passes) =
        filter-In (is_effective tool_registry skill_tools member)
          (effective_pool tool_registry skill_tools team allowed_tools) name m in
      let (given, resolved) = effective_pool-In name in_pool in
      let (allowed, registered) = team_pool-In name given in
      let (by_own, by_skills) =
        both (is_empty own || contains own name) (is_empty skilled || contains skilled name)
          passes in
      (allowed, registered, resolved, listed own name by_own, listed skilled name by_skills)

  -- Every tool that a member of a prepared team gets is allowed in the run and registered. It is one
  -- that the team's required capabilities resolve to, where the team has any; it is on the member's
  -- own list, where that is not empty, and among the tools of the member's skills, where these name
  -- any.
  pub prepare_team_for_runtime-IsEntitled :
      All
        (λ prepared.
          (name : Text) → In name prepared.effective_tools → IsEntitled prepared.member name)
        (prepare_team_for_runtime tool_registry skill_tools team allowed_tools).members
  unfolding prepare_team_for_runtime prepare_members
  prepare_team_for_runtime-IsEntitled =
      All-map
        (λ (prepared : PreparedMember).
          (name : Text) → In name prepared.effective_tools → IsEntitled prepared.member name)
        (λ (member : TeamMember). record {
          member = member;
          effective_tools =
              filter (is_effective tool_registry skill_tools member)
                (effective_pool tool_registry skill_tools team allowed_tools);
        })
        team.members (All-every _ team.members (λ member name m. member-IsEntitled member name m))
