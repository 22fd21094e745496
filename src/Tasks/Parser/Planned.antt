-- ===== src/Tasks/Parser/Planned.antt =====
-- ufoundry/tasks/parser.py with ufoundry/tasks/schedule.py: a command that is understood gives a
-- task that can be planned.
use ufoundry.Base.{
  ℕ, ◌≡◌, ◌⊎◌, refl, subst, inl, inr, Bool, true, false, ◌||◌, Option, none, some, [], ◌∷◌, Text,
  codes, text_beq, lookup, lower, strip, is_infix, is_empty, is_space, not, if◌then◌else◌, drop,
}
use ufoundry.Tasks.Schedule.{Clocks, Schedule, next_at, compute_next_run}
use ufoundry.Tasks.Schedule.Numbers.{text, str}
use ufoundry.Tasks.Parser.Matching.{
  break_off, is_letter, prompt_after, read_hhmm, extract_hhmm, extract_day_of_week,
}
use ufoundry.Tasks.Parser.{
  TaskDraft, daily, weekly, draft, with_prompt, parse_task_once, daily_at, parse_task_daily,
  weekly_at, time_after, parse_task_weekly, strip_prefix_phrase, or_default, day_phrases,
  week_phrases, reminder, parse_control_task_request,
}

-- The draft runs once, or has a next run whatever the time.
abbrev pub IsPlannable : TaskDraft → Type 0
IsPlannable d =
    (d.task_type ≡ codes "one_time")
    ⊎ ((clocks : Clocks) (strict_future : Bool) (now : ℕ)
        → (t : ℕ) × (compute_next_run clocks strict_future d.task_type d.schedule d.timezone now
            ≡ next_at t))

abbrev Gives : Option TaskDraft → Type 0
Gives o = (d : TaskDraft) → o ≡ some d → IsPlannable d

daily-IsPlannable :
    (time timezone body : Text) → IsPlannable (draft (codes "periodic") (daily time) timezone body)
unfolding compute_next_run daily draft text_beq lookup lower strip str
daily-IsPlannable time timezone body = inr (λ clocks strict_future now. (_, refl))

weekly-IsPlannable :
    (day time timezone body : Text)
    → IsPlannable (draft (codes "periodic") (weekly day time) timezone body)
unfolding compute_next_run weekly draft text_beq lookup lower strip str
weekly-IsPlannable day time timezone body = inr (λ clocks strict_future now. (_, refl))

once-IsPlannable :
    (schedule : Schedule) (timezone body : Text)
    → IsPlannable (draft (codes "one_time") schedule timezone body)
unfolding draft
once-IsPlannable schedule timezone body = inl refl

some_plan : (x : TaskDraft) → IsPlannable x → Gives (some x)
some_plan x plan d e = let same : x ≡ d = cc e in subst IsPlannable same plan

with_prompt-Gives :
    (task_type timezone : Text) (schedule : Schedule) (prompt : Text)
    → ((body : Text) → IsPlannable (draft task_type schedule timezone body))
    → Gives (with_prompt task_type timezone schedule prompt)
with_prompt-Gives task_type timezone schedule [] plan d e = cc
with_prompt-Gives task_type timezone schedule (c ∷ prompt) plan d e =
    some_plan (draft task_type schedule timezone (c ∷ prompt)) (plan (c ∷ prompt)) d e

if-Gives : (b : Bool) (x y : Option TaskDraft) → Gives x → Gives y → Gives (if b then x else y)
if-Gives true x y p q = p
if-Gives false x y p q = q

none-Gives : Gives none
none-Gives d e = cc

daily_at-Gives : (timezone : Text) (found : Option (Text × Text)) → Gives (daily_at timezone found)
unfolding daily_at
daily_at-Gives timezone none = none-Gives
daily_at-Gives timezone (some (time, rest)) =
    with_prompt-Gives (codes "periodic") timezone (daily time) (prompt_after rest)
      (daily-IsPlannable time timezone)

weekly_at-Gives :
    (timezone dow : Text) (found : Option (Text × Text)) → Gives (weekly_at timezone dow found)
unfolding weekly_at
weekly_at-Gives timezone dow none = none-Gives
weekly_at-Gives timezone dow (some (time, rest)) =
    with_prompt-Gives (codes "periodic") timezone (weekly (lower dow) time) (prompt_after rest)
      (weekly-IsPlannable (lower dow) time timezone)

parse_task_once-Gives : (raw timezone : Text) → Gives (parse_task_once raw timezone)
unfolding parse_task_once
parse_task_once-Gives raw timezone =
    let (when, rest) = break_off (λ c. not (is_space c)) (strip raw) in
    if-Gives (is_empty when) none _ none-Gives (
      with_prompt-Gives (codes "one_time") timezone ((codes "run_at", text when) ∷ [])
        (prompt_after rest) (once-IsPlannable ((codes "run_at", text when) ∷ []) timezone))

parse_task_weekly-Gives : (raw timezone : Text) → Gives (parse_task_weekly raw timezone)
unfolding parse_task_weekly
parse_task_weekly-Gives raw timezone =
    let (dow, rest) = break_off is_letter (strip raw) in
    if-Gives (is_empty dow) none _ none-Gives (weekly_at-Gives timezone dow (time_after rest))

reminder-Gives : (raw timezone : Text) → Gives (reminder raw timezone)
unfolding reminder
reminder-Gives raw timezone =
    let time = or_default (extract_hhmm raw) (codes "09:00") in
    let day = or_default (extract_day_of_week raw) (codes "mon") in
    let lowered = lower raw in
    let each_day = strip_prefix_phrase raw day_phrases in
    let each_week = strip_prefix_phrase raw week_phrases in
    if-Gives
      (is_infix (codes "remind me every day") lowered || is_infix (codes "remind me daily") lowered)
      (some (draft (codes "periodic") (daily time) timezone each_day)) _
      (some_plan (draft (codes "periodic") (daily time) timezone each_day)
        (daily-IsPlannable time timezone each_day))
      (if-Gives
        (is_infix (codes "remind me every week") lowered
          || is_infix (codes "remind me weekly") lowered)
        (some (draft (codes "periodic") (weekly day time) timezone each_week)) none
        (some_plan (draft (codes "periodic") (weekly day time) timezone each_week)
          (weekly-IsPlannable day time timezone each_week))
        none-Gives)

-- A command that is understood is one for a task that runs once, or its schedule has a next run at
-- every time and in every time zone, for the first run as for the later ones: it is no command
-- whose task fails for want of a next run.
pub parse_control_task_request-IsPlannable :
    (s timezone : Text) (d : TaskDraft)
    → parse_control_task_request s timezone ≡ some d
    → IsPlannable d
unfolding parse_control_task_request parse_task_daily
parse_control_task_request-IsPlannable s timezone =
    let raw = strip s in
    if-Gives _ none _ none-Gives (
      if-Gives _ _ _ (parse_task_once-Gives (drop 10 raw) timezone) (
        if-Gives _ _ _ (daily_at-Gives timezone (read_hhmm (strip (drop 11 raw)))) (
          if-Gives _ _ _ (parse_task_weekly-Gives (drop 12 raw) timezone)
            (reminder-Gives raw timezone))))
