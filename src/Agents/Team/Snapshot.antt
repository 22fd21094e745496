-- ===== src/Agents/Team/Snapshot.antt =====
-- ufoundry/agents/team_executor.py: `_build_failure_snapshot`, what a failed attempt tells the next.
use ufoundry.Base.{
  Bool, true, false, not, ◌&&◌, ◌||◌, ◌==◌, Option, none, some, List, [], ◌∷◌, ◌++◌, Text, codes,
  text_eq, if◌then◌else◌, ltb, eqb, is_empty, strip, take, filter, map, contains, Dict,
}
use ufoundry.Agents.Team.Telemetry.{ShellItem, unresolved_failed_commands, classify_failure_text}
use ufoundry.Agents.Team.Contract.{Json, is_visible, array, find_before, parse_team_result_block}

pub record Snapshot (J : Type 0) : Type 0 where
  pub failed_commands : List Text
  pub failure_categories : List Text
  pub failure_texts : List Text
  pub team_result : Dict Text J

-- cmd.split(" (exit_code=")[0]
abbrev pub without_code : Text → Text
without_code cmd = elim (find_before (codes " (exit_code=") cmd) [
  | none ↦ cmd
  | some before ↦ before
]

-- The order of Python's texts.
unfoldable pub before : Text → Text → Bool
before [] t = true
before (c ∷ s) [] = false
before (c ∷ s) (d ∷ t) = ltb c d || eqb c d && before s t

-- sorted({*texts, s})
unfoldable pub insert_once : Text → List Text → List Text
unfolding before
insert_once s [] = s ∷ []
insert_once s (t ∷ texts) =
    let later = insert_once s texts in
    if s == t then t ∷ texts else if before s t then s ∷ t ∷ texts else t ∷ later

-- The commands that are reported, behind those that are there already.
unfoldable pub add_commands : List Text → List Text → List Text
add_commands commands [] = commands
add_commands commands (text ∷ texts) =
    add_commands
      (if is_empty text || contains commands text then commands else commands ++ (text ∷ [])) texts

unfoldable pub categories_of : List Text → List Text
unfolding insert_once
categories_of [] = []
categories_of (text ∷ texts) =
    let rest = categories_of texts in
    if is_visible text then insert_once (classify_failure_text text) rest else rest

module _ {J : Type 0} (json : Json J) where
  -- The texts of an array of the block, empty where it is none.
  abbrev pub texts_of : Text → Dict Text J → List Text
  texts_of key block = elim (array json key block) [ none ↦ [] | some items ↦ map json.str items ]

  abbrev pub block_of : Option (Dict Text J) → Dict Text J
  block_of none = []
  block_of (some block) = block

  unfoldable pub build_failure_snapshot : List ShellItem → Text → Snapshot J
  unfolding add_commands categories_of
  build_failure_snapshot shell final_reply =
      let block = block_of (parse_team_result_block json final_reply) in
      let open_commands = unresolved_failed_commands shell in
      let failed_shell =
        filter (λ (item : ShellItem). contains (map without_code open_commands) (strip item.cmd))
          shell in
      let commands =
        add_commands open_commands (map strip (texts_of (codes "failed_commands") block)) in
      let previews =
        filter (λ (t : Text). not (is_empty t))
          (map (λ (item : ShellItem). strip item.content_preview) failed_shell) in
      let failure_texts = filter is_visible (texts_of (codes "blockers") block) ++ previews in
      let categories = categories_of failure_texts in
      record {
        failed_commands = take 12 commands;
        failure_categories = if is_empty categories then codes "unknown" ∷ [] else categories;
        failure_texts = take 12 failure_texts;
        team_result = block;
      }
