-- ===== src/Tasks/Parser.antt =====
-- ufoundry/tasks/parser.py: the commands that create tasks.
pub mod Matching
pub mod Planned
use ufoundry.Base.{
  ℕ, ◌+◌, Bool, true, false, ◌||◌, Option, none, some, List, [], ◌∷◌, ◌++◌, Text, codes,
  if◌then◌else◌, is_empty, is_space, not, lstrip, strip, lower, starts_with, is_infix, or_text,
  drop, take, length, join, split_words,
}
use ufoundry.Tasks.Schedule.{Schedule}
use ufoundry.Tasks.Schedule.Numbers.{text}
use Matching.{
  is_letter, break_off, prompt_after, read_hhmm, extract_hhmm, extract_day_of_week, strip_of, find,
}

pub record TaskDraft : Type 0 where
  pub name : Text
  pub prompt : Text
  pub task_type : Text
  pub schedule : Schedule
  pub timezone : Text

unfoldable pub default_name : Text → Text
default_name prompt =
    take 60 (or_text (join (codes " ") (split_words prompt)) (codes "scheduled task"))

unfoldable pub build_prompt : Text → Text
build_prompt body =
    or_text (strip_of (codes " .") body) (codes "Review my tasks and provide a concise update.")

unfoldable pub daily : Text → Schedule
daily time = (codes "frequency", text (codes "daily")) ∷ (codes "time", text time) ∷ []

unfoldable pub weekly : Text → Text → Schedule
weekly day time =
    (codes "frequency", text (codes "weekly"))
    ∷ (codes "day_of_week", text day)
    ∷ (codes "time", text time)
    ∷ []

unfoldable pub draft : Text → Schedule → Text → Text → TaskDraft
unfolding default_name build_prompt
draft task_type schedule timezone body = record {
  name = default_name (build_prompt body);
  prompt = build_prompt body;
  task_type = task_type;
  schedule = schedule;
  timezone = timezone;
}

-- A draft whose prompt was matched.
abbrev pub with_prompt : Text → Text → Schedule → Text → Option TaskDraft
with_prompt task_type timezone schedule [] = none
with_prompt task_type timezone schedule (c ∷ prompt) =
    some (draft task_type schedule timezone (c ∷ prompt))

unfoldable pub parse_task_once : Text → Text → Option TaskDraft
parse_task_once raw timezone =
    let (when, rest) = break_off (λ c. not (is_space c)) (strip raw) in
    if is_empty when
    then none
    else with_prompt (codes "one_time") timezone ((codes "run_at", text when) ∷ [])
        (prompt_after rest)

unfoldable pub daily_at : Text → Option (Text × Text) → Option TaskDraft
unfolding daily
daily_at timezone none = none
daily_at timezone (some (time, rest)) =
    with_prompt (codes "periodic") timezone (daily time) (prompt_after rest)

unfoldable pub parse_task_daily : Text → Text → Option TaskDraft
unfolding daily_at
parse_task_daily raw timezone = daily_at timezone (read_hhmm (strip raw))

unfoldable pub weekly_at : Text → Text → Option (Text × Text) → Option TaskDraft
unfolding weekly
weekly_at timezone dow none = none
weekly_at timezone dow (some (time, rest)) =
    with_prompt (codes "periodic") timezone (weekly (lower dow) time) (prompt_after rest)

-- \s+ in front of the time
abbrev pub time_after : Text → Option (Text × Text)
time_after [] = none
time_after (c ∷ s) = if is_space c then read_hhmm (lstrip s) else none

unfoldable pub parse_task_weekly : Text → Text → Option TaskDraft
unfolding weekly_at
parse_task_weekly raw timezone =
    let (dow, rest) = break_off is_letter (strip raw) in
    if is_empty dow then none else weekly_at timezone dow (time_after rest)

-- The text behind the first phrase that is found, or the whole.
unfoldable pub strip_prefix_phrase : Text → List Text → Text
strip_prefix_phrase s [] = s
strip_prefix_phrase s (phrase ∷ phrases) = elim (find phrase (lower s)) [
  | none ↦ strip_prefix_phrase s phrases
  | some idx ↦ strip_of (codes " ,.") (drop (idx + length phrase) s)
]

abbrev pub or_default : Option Text → Text → Text
or_default none default = default
or_default (some s) default = s

abbrev pub day_phrases : List Text
day_phrases = codes "remind me every day" ∷ codes "remind me daily" ∷ []

abbrev pub week_phrases : List Text
week_phrases = codes "remind me every week" ∷ codes "remind me weekly" ∷ []

unfoldable pub reminder : Text → Text → Option TaskDraft
unfolding daily weekly strip_prefix_phrase
reminder raw timezone =
    let lowered = lower raw in
    let time = or_default (extract_hhmm raw) (codes "09:00") in
    if is_infix (codes "remind me every day") lowered || is_infix (codes "remind me daily") lowered
    then some (draft (codes "periodic") (daily time) timezone (strip_prefix_phrase raw day_phrases))
    else if is_infix (codes "remind me every week") lowered
        || is_infix (codes "remind me weekly") lowered
    then some (
        draft (codes "periodic") (weekly (or_default (extract_day_of_week raw) (codes "mon")) time)
          timezone (strip_prefix_phrase raw week_phrases))
    else none

unfoldable pub parse_control_task_request : Text → Text → Option TaskDraft
unfolding parse_task_once parse_task_daily parse_task_weekly reminder
parse_control_task_request s timezone =
    let raw = strip s in
    let lowered = lower raw in
    if is_empty raw
    then none
    else if starts_with lowered (codes "task once ")
    then parse_task_once (drop 10 raw) timezone
    else if starts_with lowered (codes "task daily ")
    then parse_task_daily (drop 11 raw) timezone
    else if starts_with lowered (codes "task weekly ")
    then parse_task_weekly (drop 12 raw) timezone
    else reminder raw timezone
