-- ===== src/Agents/Team/Members.antt =====
-- ufoundry/agents/team_executor.py: `_run_structured_team`, a chain of members or members side by
-- side, and `_record_agent_checkpoint`. The work of a member and the verification command are
-- arguments. The events to the listeners are left out.
pub mod Chain
use ufoundry.Base.{
  ℕ, ◌+◌, ◌⊎◌, inl, inr, Bool, not, ◌&&◌, ◌||◌, ◌==◌, Option, none, some, List, [], ◌∷◌, ◌++◌, Text,
  codes, text_eq, if◌then◌else◌, decimal, is_empty, or_text, strip, join, take,
}
use ufoundry.Agents.Agent.{AgentRunResult}

pub record Member : Type 0 where
  pub role : Option Text
  pub verification_command : Text

abbrev pub role_of : ℕ → Member → Text
role_of idx member = elim member.role [
  | none ↦ codes "member-" ++ decimal (idx + 1)
  | some role ↦ role
]

-- How the work ends, with the keys of the checkpoints that it wrote.
pub data TeamEnd (F : Type 0) : Type 0 where
  finished : Text → List F → List Text → TeamEnd F
  member_failed : Text → Text → List Text → TeamEnd F
  crashed : Text → List Text → TeamEnd F

module _ {F : Type 0} (run_member : ℕ → Member → Text → Text ⊎ AgentRunResult F)
    (verify : Member → Text → Bool × Text) where
  -- The members from the one at `idx`. `context` is the input of the next one, `reply` the content
  -- of the last one, if any ran.
  pub run_chain : ℕ → List Member → Text → Option Text → List F → List Text → TeamEnd F
  run_chain idx [] context reply attachments checkpoints = elim reply [
    | none ↦ finished (codes "No result generated by team members.") attachments checkpoints
    | some text ↦ finished text attachments checkpoints
  ]
  run_chain idx (member ∷ members) context reply attachments checkpoints =
      elim (run_member idx member context) [
        | inl exc ↦ crashed exc checkpoints
        | inr result ↦
            let command = strip member.verification_command in
            let (ok, output) = verify member command in
            let rest =
              run_chain (idx + 1) members (or_text result.content context) (some result.content)
                (attachments ++ result.attachments)
                (checkpoints ++ ((codes "chain:" ++ decimal (idx + 1)) ∷ [])) in
            if result.failed
            then member_failed (role_of idx member) result.content checkpoints
            else if not (is_empty command) && not ok
            then member_failed (role_of idx member)
                (codes "Verification command failed: "
                  ++ (command ++ (codes "\n" ++ take 500 output)))
                checkpoints
            else rest
      ]

  abbrev pub line : Text → Text → Text
  line role content = codes "[" ++ (role ++ (codes "]\n" ++ content))

  -- The results of members that ran side by side, in the order of the members.
  pub collect : ℕ → List Member → Text → List Text → List F → List Text → TeamEnd F
  collect idx [] task lines attachments checkpoints =
      finished
        (or_text (strip (join (codes "\n\n") lines)) (codes "No result generated by team members."))
        attachments checkpoints
  collect idx (member ∷ members) task lines attachments checkpoints =
      let role = role_of idx member in
      elim (run_member idx member task) [
        | inl exc ↦
            collect (idx + 1) members task
              (lines ++ (line role (codes "[" ++ (role ++ (codes "] failed: " ++ exc))) ∷ []))
              attachments checkpoints
        | inr result ↦
            collect (idx + 1) members task (lines ++ (line role result.content ∷ []))
              (attachments ++ result.attachments)
              (checkpoints ++ ((codes "parallel:" ++ decimal (idx + 1)) ∷ []))
      ]

  pub run_structured_team : Bool → List Member → Text → TeamEnd F
  unfolding run_chain collect
  run_structured_team parallel [] task = finished (codes "No team members defined.") [] []
  run_structured_team parallel (member ∷ members) task =
      if parallel
      then collect 0 (member ∷ members) task [] [] []
      else run_chain 0 (member ∷ members) task none [] []

-- The key of the checkpoint that an event writes, with the run's id.
pub record_agent_checkpoint : Text → Text → Text → Text → Option (Text × Text)
record_agent_checkpoint event_name status run_id node_id =
    if not (event_name == codes "multi_agent_node_status")
    then none
    else if not (status == codes "completed")
    then none
    else if is_empty run_id || is_empty node_id || node_id == codes "orchestrator"
    then none
    else some (run_id, codes "agent:" ++ node_id)
