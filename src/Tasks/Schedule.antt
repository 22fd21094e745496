-- ===== src/Tasks/Schedule.antt =====
-- ufoundry/tasks/schedule.py: when a task runs next. Times are microseconds: an instant counts
-- from some moment, a time on the wall clock from the midnight before some Monday. The zones of
-- the tz database and `datetime.fromisoformat` are parameters.
pub mod Numbers
pub mod Slots
pub mod Upcoming
use ufoundry.Base.{
  ℕ, ◌+◌, ◌-◌, ◌*◌, ◌/◌, ◌%◌, Bool, true, false, not, ◌&&◌, ◌==◌, Option, none, some, List, [], ◌∷◌,
  ◌++◌, Text, codes, text_eq, eqb, ltb, leb, if◌then◌else◌, is_empty, lower, strip, Dict, lookup,
  split_colon, ℤ, pos, negsuc,
}
use Numbers.{Value, str, int_of, is_true, parse_int}

abbrev pub minute_length : ℕ
minute_length = 60000000

abbrev pub hour_length : ℕ
hour_length = 3600000000

abbrev pub day_length : ℕ
day_length = 86400000000

abbrev pub week_length : ℕ
week_length = 604800000000

-- A time on the wall clock; `fold` tells the second of two equal ones.
pub record Local : Type 0 where
  pub wall : ℕ
  pub fold : Bool

pub record Zone : Type 0 where
  pub local : ℕ → Local
  pub instant : Local → ℕ

-- What `fromisoformat` reads: without a zone, or with one.
pub data Stamp : Type 0 where
  naive : Local → Stamp
  aware : ℕ → Stamp

pub record Clocks : Type 0 where
  pub utc : Zone
  pub zone_info : Text → Option Zone
  pub from_iso : Text → Option Stamp

-- An exception, no run, or the time of the next run.
pub data Next (T : Type 0) : Type 0 where
  raised no_run : Next T
  next_at : T → Next T

abbrev pub Schedule : Type 0
Schedule = Dict Text Value

abbrev pub map_next : {S T : Type 0} → (S → T) → Next S → Next T
map_next f raised = raised
map_next f no_run = no_run
map_next f (next_at t) = next_at (f t)

-- str(schedule.get(name, default))
abbrev pub field_text : Schedule → Text → Text → Text
field_text schedule name default = elim (lookup name schedule) [ none ↦ default | some v ↦ str v ]

-- t + timedelta
abbrev pub plus : Local → ℕ → Local
plus t length = record { wall = t.wall + length; fold = false }

-- max(0, min(z, limit))
unfoldable pub clamp : ℤ → ℕ → ℕ
clamp (pos n) limit = if leb n limit then n else limit
clamp (negsuc n) limit = 0

-- raw.replace("Z", "+00:00")
pub with_offset : Text → Text
with_offset [] = []
with_offset (c ∷ s) = if eqb c 90 then codes "+00:00" ++ with_offset s else c ∷ with_offset s

pub hour_minute : Option ℤ → Option ℤ → ℕ × ℕ
hour_minute (some h) (some m) = (clamp h 23, clamp m 59)
hour_minute (some h) none = (9, 0)
hour_minute none m = (9, 0)

pub time_parts : Option (Text × Text) → ℕ × ℕ
unfolding hour_minute
time_parts none = (9, 0)
time_parts (some (h, m)) = hour_minute (parse_int h) (parse_int m)

unfoldable pub parse_time_hhmm : Text → ℕ × ℕ
unfolding split_colon time_parts
parse_time_hhmm value = time_parts (split_colon value)

abbrev pub weekdays : Dict Text ℕ
weekdays =
    (codes "mon", 0)
    ∷ (codes "monday", 0)
    ∷ (codes "tue", 1)
    ∷ (codes "tuesday", 1)
    ∷ (codes "wed", 2)
    ∷ (codes "wednesday", 2)
    ∷ (codes "thu", 3)
    ∷ (codes "thursday", 3)
    ∷ (codes "fri", 4)
    ∷ (codes "friday", 4)
    ∷ (codes "sat", 5)
    ∷ (codes "saturday", 5)
    ∷ (codes "sun", 6)
    ∷ (codes "sunday", 6)
    ∷ []

-- WEEKDAYS.get(name, 0)
unfoldable pub weekday_number : Text → ℕ
weekday_number name = elim (lookup name weekdays) [ none ↦ 0 | some n ↦ n ]

-- now.replace(minute=…, second=0, microsecond=0)
unfoldable pub at_minute : Local → ℕ → Local
at_minute now minute = record now {
  wall = now.wall - now.wall % hour_length + minute * minute_length;
}

-- now.replace(hour=…, minute=…, second=0, microsecond=0)
unfoldable pub at_hour : Local → ℕ → ℕ → Local
at_hour now hour minute = record now {
  wall = now.wall - now.wall % day_length + (hour * hour_length + minute * minute_length);
}

-- The candidate, or the one after it where it is not late enough.
unfoldable pub not_before : Bool → Local → Local → ℕ → Local
not_before strict_future now candidate length =
    if (if strict_future then leb candidate.wall now.wall else ltb candidate.wall now.wall)
    then plus candidate length
    else candidate

unfoldable pub weekly : Bool → Local → ℕ → ℕ → ℕ → Local
unfolding not_before at_hour
weekly strict_future now target hour minute =
    let candidate = at_hour now hour minute in
    let days_ahead = (target + 7 - candidate.wall / day_length % 7) % 7 in
    not_before strict_future now (plus candidate (days_ahead * day_length)) week_length

unfoldable pub hourly : Bool → Local → Option ℤ → Next Local
unfolding not_before at_minute clamp
hourly strict_future now none = raised
hourly strict_future now (some z) =
    next_at (not_before strict_future now (at_minute now (clamp z 59)) hour_length)

-- int(schedule.get("minute", 0)), none for an exception
unfoldable pub minute_of : Option Value → Option ℤ
minute_of none = some (pos 0)
minute_of (some v) = int_of v

-- The branches of a periodic task.
unfoldable pub periodic : Bool → Schedule → Local → Next Local
unfolding not_before at_hour weekly hourly minute_of
periodic strict_future schedule now =
    let frequency = lower (strip (field_text schedule (codes "frequency") (codes "daily"))) in
    let time = parse_time_hhmm (field_text schedule (codes "time") (codes "09:00")) in
    if frequency == codes "hourly"
    then hourly strict_future now (minute_of (lookup (codes "minute") schedule))
    else if frequency == codes "daily"
    then next_at (not_before strict_future now (at_hour now time.0 time.1) day_length)
    else if frequency == codes "weekly"
    then next_at (
        weekly strict_future now
          (weekday_number (lower (strip (field_text schedule (codes "day_of_week") (codes "mon")))))
          time.0 time.1)
    else no_run

unfoldable pub resolve_timezone : Clocks → Text → Zone
resolve_timezone clocks name =
    if is_empty name
    then clocks.utc
    else elim (clocks.zone_info name) [ none ↦ clocks.utc | some zone ↦ zone ]

unfoldable pub parse_run_at : Clocks → Zone → Option Value → Option ℕ
unfolding with_offset
parse_run_at clocks zone none = none
parse_run_at clocks zone (some value) =
    if not (is_true value) then none else elim (clocks.from_iso (with_offset (strip (str value)))) [
      | none ↦ none
      | some (naive t) ↦ some (zone.instant t)
      | some (aware t) ↦ some t
    ]

unfoldable pub one_time : Bool → Option ℕ → ℕ → Next ℕ
one_time strict_future none now = no_run
one_time strict_future (some run_at) now =
    if strict_future && leb run_at now then no_run else next_at run_at

unfoldable pub compute_next_run : Clocks → Bool → Text → Schedule → Text → ℕ → Next ℕ
unfolding resolve_timezone parse_run_at one_time periodic
compute_next_run clocks strict_future task_type schedule timezone_name now =
    let zone = resolve_timezone clocks timezone_name in
    let task_kind = lower (strip task_type) in
    if task_kind == codes "one_time"
    then one_time strict_future (parse_run_at clocks zone (lookup (codes "run_at") schedule)) now
    else if not (task_kind == codes "periodic")
    then no_run
    else map_next zone.instant (periodic strict_future schedule (zone.local now))

unfoldable pub compute_initial_next_run_at : Clocks → Text → Schedule → Text → ℕ → Next ℕ
unfolding compute_next_run
compute_initial_next_run_at clocks = compute_next_run clocks false

unfoldable pub compute_next_run_at : Clocks → Text → Schedule → Text → ℕ → Next ℕ
unfolding compute_next_run
compute_next_run_at clocks = compute_next_run clocks true
