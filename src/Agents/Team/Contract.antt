-- ===== src/Agents/Team/Contract.antt =====
-- ufoundry/agents/team_executor.py: `_parse_team_result_block`, `_effective_retry_policy`,
-- `_effective_budgets` and `_apply_completion_policy`. JSON is Python's, a parameter: `J` are its
-- values, `loads` reads an object (none: the text is no JSON, or no object), `items` gives the
-- elements of an array, `str` is the text of a value, and `dumps` writes a payload.
pub mod Verdict
use ufoundry.Base.{
  ℕ, zero, suc, ◌+◌, Bool, true, false, not, ◌&&◌, ◌||◌, ◌==◌, Option, none, some, List, [], ◌∷◌,
  ◌++◌, Text, codes, text_eq, if◌then◌else◌, ℤ, pos, negsuc, is_empty, or_text, starts_with, lower,
  strip, drop, filter, map, Dict, lookup,
}
use ufoundry.Agents.Team.Telemetry.{ShellItem, unresolved_failed_commands}

pub data Status : Type 0 where
  completed : Status
  failed : Status

-- A verdict with the reply that goes with it.
abbrev pub Judged : Type 0
Judged = Status × Text

pub record RetryPolicy : Type 0 where
  pub max_retries : ℕ
  pub fail_on_defer : Bool
  pub require_blockers_section : Bool
  pub enforce_shell_success : Bool

-- A team's `retry_policy`: none for a missing key, and a Boolean is the truth of the value.
pub record RetryConfig : Type 0 where
  pub max_retries : Option ℤ
  pub fail_on_defer : Option Bool
  pub require_blockers_section : Option Bool
  pub enforce_shell_success : Option Bool

-- The iterations for one class of complexity.
pub record Budget : Type 0 where
  pub max_orchestrator_iterations : ℤ
  pub max_agent_iterations : ℤ

pub record Team : Type 0 where
  pub team_type : Text
  pub retry_policy : RetryConfig
  pub budgets : Dict Text Budget
  pub verification_command : Text

abbrev pub team_type_of : Team → Text
team_type_of team = or_text team.team_type (codes "orchestrator_worker")

-- `team_type in {"chain", "parallel"}`
abbrev pub is_structured : Team → Bool
is_structured team = team_type_of team == codes "chain" || team_type_of team == codes "parallel"

abbrev pub self_heals : Team → Bool
self_heals team =
    team_type_of team == codes "orchestrator_worker" || team_type_of team == codes "hybrid"

abbrev pub given : Option Bool → Bool → Bool
given none d = d
given (some b) d = b

-- `max(0, int(raw or default))`: a zero counts as not given.
abbrev pub retries : Option ℤ → ℕ → ℕ
retries none d = d
retries (some (pos zero)) d = d
retries (some (pos (suc n))) d = suc n
retries (some (negsuc n)) d = 0

unfoldable pub effective_retry_policy : Team → RetryPolicy
effective_retry_policy team =
    let raw = team.retry_policy in
    let heals = self_heals team in
    record {
      max_retries = retries raw.max_retries (if heals then 2 else 0);
      fail_on_defer = given raw.fail_on_defer heals;
      require_blockers_section = given raw.require_blockers_section heals;
      enforce_shell_success = given raw.enforce_shell_success false;
    }

-- `n if n > 0 else default`
abbrev pub positive_or : ℤ → ℕ → ℕ
positive_or (pos zero) d = d
positive_or (pos (suc n)) d = suc n
positive_or (negsuc n) d = d

unfoldable pub effective_budgets : ℕ → ℕ → Team → Text → ℕ × ℕ
effective_budgets orchestrator_default agent_default team complexity_class =
    elim (lookup complexity_class team.budgets) [
      | none ↦ (orchestrator_default, agent_default)
      | some b ↦ (
        positive_or b.max_orchestrator_iterations orchestrator_default,
        positive_or b.max_agent_iterations agent_default,
      )
    ]

-- text[text.find(s):], none where find gives -1
unfoldable pub find_from : Text → Text → Option Text
find_from s [] = if starts_with [] s then some [] else none
find_from s (c ∷ text) =
    let later = find_from s text in if starts_with (c ∷ text) s then some (c ∷ text) else later

-- text[:text.find(s)], none where find gives -1
unfoldable pub find_before : Text → Text → Option Text
find_before s [] = if starts_with [] s then some [] else none
find_before s (c ∷ text) =
    let later = find_before s text in
    if starts_with (c ∷ text) s
    then some []
    else elim later [ none ↦ none | some before ↦ some (c ∷ before) ]

-- The payload of a block that the executor writes.
pub record Payload : Type 0 where
  pub status : Text
  pub evidence : List Text
  pub blockers : List Text
  pub failed_commands : List Text
  pub mitigations : List Text

pub record Json (J : Type 0) : Type 0 where
  pub loads : Text → Option (Dict Text J)
  pub items : J → Option (List J)
  pub str : J → Text
  pub dumps : Payload → Text

abbrev pub is_visible : Text → Bool
is_visible item = not (is_empty (strip item))

unfoldable pub completion_contract_error : Text → Text
completion_contract_error reason =
    codes "Team execution failed completion contract.\nReason: "
    ++ (reason
        ++ codes
            "\n\nExpected footer format:\n```team_result\n{\"status\":\"completed\",\"evidence\":[\"...\"]}\n```\n")

module _ {J : Type 0} (json : Json J) where
  unfoldable pub parse_team_result_block : Text → Option (Dict Text J)
  unfolding find_from find_before
  parse_team_result_block text = elim (find_from (codes "```team_result") text) [
    | none ↦ none
    | some from ↦ elim (find_from (codes "\n") from) [
      | none ↦ none
      | some line ↦ elim (find_before (codes "```") (drop 1 line)) [
        | none ↦ none
        | some block ↦ if is_empty (strip block) then none else json.loads (strip block)
      ]
    ]
  ]

  -- The elements of `parsed.get(key)`, none where it is no array.
  unfoldable pub array : Text → Dict Text J → Option (List J)
  array key parsed = elim (lookup key parsed) [ none ↦ none | some v ↦ json.items v ]

  -- `_is_non_empty_list(parsed.get(key))`
  abbrev pub is_non_empty_list : Text → Dict Text J → Bool
  is_non_empty_list key parsed = elim (array key parsed) [
    | none ↦ false
    | some items ↦ not (is_empty items)
  ]

  -- `str(parsed.get("status", "")).strip().lower()`
  unfoldable pub status_of : Dict Text J → Text
  status_of parsed = elim (lookup (codes "status") parsed) [
    | none ↦ []
    | some v ↦ lower (strip (json.str v))
  ]

  unfoldable pub render_blocked_contract_reply :
      List Text → List Text → List Text → List Text → Text
  render_blocked_contract_reply evidence blockers failed_commands mitigations =
      codes "Team execution blocked by verification policy.\n\n```team_result\n"
      ++ (json.dumps (record {
        status = codes "blocked";
        evidence = filter is_visible evidence;
        blockers = filter is_visible blockers;
        failed_commands = filter is_visible failed_commands;
        mitigations = filter is_visible mitigations;
      })
          ++ codes "\n```\n")

  -- The texts of the items of `parsed.get(key)` that are not blank.
  unfoldable pub reported : Text → Dict Text J → List Text
  reported key parsed = elim (array key parsed) [
    | none ↦ []
    | some items ↦ filter (λ t. not (is_empty t)) (map (λ v. strip (json.str v)) items)
  ]

  abbrev pub refuse : Text → Judged
  refuse reason = (failed, completion_contract_error reason)

  -- A block with the status "blocked".
  unfoldable pub judge_blocked : Bool → Dict Text J → Text → Judged
  judge_blocked require_sections parsed reply =
      let lacks = λ (key : Text). require_sections && not (is_non_empty_list key parsed) in
      if lacks (codes "blockers")
      then refuse (codes "team_result.blockers must be a non-empty array when status=blocked.")
      else if lacks (codes "failed_commands")
      then refuse
          (codes "team_result.failed_commands must be a non-empty array when status=blocked.")
      else if lacks (codes "mitigations")
      then refuse (codes "team_result.mitigations must be a non-empty array when status=blocked.")
      else (failed, reply)

  -- A block with the status "completed".
  unfoldable pub judge_completed : RetryPolicy → Dict Text J → List ShellItem → Text → Judged
  judge_completed policy parsed shell reply =
      if policy.require_blockers_section && not (is_non_empty_list (codes "evidence") parsed)
      then refuse (
          codes
            "team_result.evidence must be a non-empty array when status=completed. Include at least one concrete proof item (e.g. test output, URL, file path).")
      else if is_non_empty_list (codes "failed_commands") parsed
      then (
        failed,
        render_blocked_contract_reply
            (codes "Final reply marked completed but reported failed commands." ∷ [])
            (codes "completion_marked_with_failed_commands" ∷ [])
            (reported (codes "failed_commands") parsed)
            (codes "Re-run each failed command until exit code is 0."
              ∷ codes "Re-run full quality gates before returning completed."
              ∷ []),
      )
      else if policy.enforce_shell_success && not (is_empty (unresolved_failed_commands shell))
      then (
        failed,
        render_blocked_contract_reply
            (codes "Shell telemetry still has unresolved command failures." ∷ [])
            (codes "unresolved_shell_failures" ∷ []) (unresolved_failed_commands shell)
            (codes "Diagnose root cause from stderr/traceback of failed commands."
              ∷ codes "Apply minimal patch and rerun failed commands."
              ∷ codes "Rerun full verification gates and return completed only when all pass."
              ∷ []),
      )
      else (completed, reply)

  unfoldable pub judge_block : RetryPolicy → Dict Text J → List ShellItem → Text → Judged
  judge_block policy parsed shell reply =
      let status = or_text (status_of parsed) (codes "completed") in
      if status == codes "blocked"
      then judge_blocked policy.require_blockers_section parsed reply
      else if status == codes "completed"
      then judge_completed policy parsed shell reply
      else refuse (codes "Invalid team_result.status. Expected 'completed' or 'blocked'.")

  unfoldable pub apply_completion_policy : Team → RetryPolicy → List ShellItem → Text → Judged
  apply_completion_policy team policy shell reply =
      let text = strip reply in
      let parsed = parse_team_result_block text in
      let needs_block = policy.fail_on_defer || policy.require_blockers_section in
      if is_empty text
      then refuse (codes "Empty final reply from team execution.")
      else if not needs_block && not policy.enforce_shell_success
      then (completed, reply)
      else if is_structured team && not policy.enforce_shell_success
      then (completed, reply)
      else elim parsed [
        | none ↦
            if needs_block
            then refuse (codes "Missing required ```team_result``` block in final reply.")
            else judge_block policy [] shell reply
        | some block ↦ judge_block policy block shell reply
      ]
