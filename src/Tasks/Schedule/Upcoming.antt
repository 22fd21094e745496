-- ===== src/Tasks/Schedule/Upcoming.antt =====
-- ufoundry/tasks/schedule.py: the next run of a task.
use ufoundry.Base.{
  ℕ, ◌+◌, ◌*◌, ◌%◌, ◌≤◌, ◌<◌, ◌≡◌, refl, Bool, true, false, ◌==◌, Bool-cases, inl, inr, Option,
  none, some, [], ◌∷◌, Text, codes, text_eq, arith, if◌then◌else◌, lower, strip, Dict, lookup,
  split_colon, All, ℤ, pos, negsuc,
}
use ufoundry.Tasks.Schedule.Numbers.{parse_int}
use ufoundry.Tasks.Schedule.Slots.{IsLate, IsFirst, not_before-hour, not_before-day, weekly-IsFirst}
use ufoundry.Tasks.Schedule.{
  Local, Zone, Clocks, Next, raised, no_run, next_at, Schedule, map_next, field_text, clamp,
  minute_length, hour_length, day_length, week_length, hour_minute, time_parts, parse_time_hhmm,
  weekdays, weekday_number, hourly, minute_of, periodic, resolve_timezone, one_time, parse_run_at,
  compute_next_run_at,
}

clamp-le : (z : ℤ) (limit : ℕ) → clamp z limit ≤ limit
unfolding clamp
clamp-le (pos n) limit = ground arith
clamp-le (negsuc n) limit = ground arith

abbrev IsTime : ℕ × ℕ → Type 0
IsTime t = (t.0 ≤ 23) × (t.1 ≤ 59)

hour_minute-IsTime : (h m : Option ℤ) → IsTime (hour_minute h m)
unfolding hour_minute
hour_minute-IsTime (some h) (some m) = (clamp-le h 23, clamp-le m 59)
hour_minute-IsTime (some h) none = omega arith
hour_minute-IsTime none m = omega arith

time_parts-IsTime : (parts : Option (Text × Text)) → IsTime (time_parts parts)
unfolding time_parts
time_parts-IsTime none = omega arith
time_parts-IsTime (some (h, m)) = hour_minute-IsTime (parse_int h) (parse_int m)

parse_time_hhmm-IsTime : (value : Text) → IsTime (parse_time_hhmm value)
unfolding parse_time_hhmm
parse_time_hhmm-IsTime value = time_parts-IsTime (split_colon value)

number_or_zero : Option ℕ → ℕ
number_or_zero none = 0
number_or_zero (some n) = n

lookup-le :
    (name : Text) (d : Dict Text ℕ) → All (λ e. e.1 ≤ 6) d → number_or_zero (lookup name d) ≤ 6
unfolding lookup number_or_zero
lookup-le name [] h = omega arith
lookup-le name ((key, n) ∷ d) h = ground (arith, lookup-le name d h.1)

number_or_zero-eq : (o : Option ℕ) → number_or_zero o ≡ elim o [ none ↦ 0 | some n ↦ n ]
unfolding number_or_zero
number_or_zero-eq none = refl
number_or_zero-eq (some n) = refl

weekday_number-le : (name : Text) → weekday_number name ≤ 6
unfolding weekday_number
weekday_number-le name =
    rw (← number_or_zero-eq (lookup name weekdays)) (lookup-le name weekdays (omega arith))

hour_slot : Option ℤ → Next (ℕ × ℕ)
hour_slot none = raised
hour_slot (some z) = next_at (hour_length, clamp z 59 * minute_length)

-- The slots of a periodic schedule: the times whose remainder by the first number is the second.
pub slot_of : Schedule → Next (ℕ × ℕ)
unfolding weekday_number
slot_of schedule =
    let frequency = lower (strip (field_text schedule (codes "frequency") (codes "daily"))) in
    let day =
      weekday_number (lower (strip (field_text schedule (codes "day_of_week") (codes "mon")))) in
    let time = parse_time_hhmm (field_text schedule (codes "time") (codes "09:00")) in
    let since_midnight = time.0 * hour_length + time.1 * minute_length in
    if frequency == codes "hourly"
    then hour_slot (minute_of (lookup (codes "minute") schedule))
    else if frequency == codes "daily"
    then next_at (day_length, since_midnight)
    else if frequency == codes "weekly"
    then next_at (week_length, day * day_length + since_midnight)
    else no_run

-- The first slot that is late enough, if there are slots.
pub data Answers (strict : Bool) (now : ℕ) : Next (ℕ × ℕ) → Next Local → Type 0 where
  raises : Answers strict now raised raised
  never : Answers strict now no_run no_run
  answers :
      {length offset : ℕ} {t : Local}
      → IsFirst (λ u. u % length ≡ offset) strict now t.wall
      → Answers strict now (next_at (length, offset)) (next_at t)

hourly-Answers :
    (strict : Bool) (now : Local) (minute : Option ℤ)
    → Answers strict now.wall (hour_slot minute) (hourly strict now minute)
unfolding hourly hour_slot
hourly-Answers strict now none = raises
hourly-Answers strict now (some z) =
    answers (not_before-hour now 0 (clamp z 59) (omega arith) (clamp-le z 59) strict)

-- The next run of a periodic schedule is the first time on the wall clock that is a slot of the
-- schedule and late enough (after the time given, or not before it): the minute of each hour, the
-- hour and minute of each day, or those of one day of each week. There is none exactly if the
-- frequency is none of these, and an exception exactly if the hourly minute is no number.
pub periodic-Answers :
    (strict : Bool) (schedule : Schedule) (now : Local)
    → Answers strict now.wall (slot_of schedule) (periodic strict schedule now)
unfolding periodic slot_of
periodic-Answers strict schedule now = elim (Bool-cases (frequency == codes "hourly")) [
  | inl e ↦ rw e (hourly-Answers strict now (minute_of (lookup (codes "minute") schedule)))
  | inr e ↦ elim (Bool-cases (frequency == codes "daily")) [
    | inl f ↦ rw (e, f) (answers (not_before-day now time.0 time.1 ok.0 ok.1 strict))
    | inr f ↦ elim (Bool-cases (frequency == codes "weekly")) [
      | inl g ↦
          rw (e, f, g)
            (answers (
              weekly-IsFirst now time.0 time.1 ok.0 ok.1 strict (weekday_number day)
                (weekday_number-le day)))
      | inr g ↦ rw (e, f, g) never
    ]
  ]
]
  where
    frequency : Text
    frequency = lower (strip (field_text schedule (codes "frequency") (codes "daily")))

    day : Text
    day = lower (strip (field_text schedule (codes "day_of_week") (codes "mon")))

    time : ℕ × ℕ
    time = parse_time_hhmm (field_text schedule (codes "time") (codes "09:00"))

    ok : IsTime time
    ok = parse_time_hhmm-IsTime (field_text schedule (codes "time") (codes "09:00"))

-- A zone whose clock is never set: its wall clock is ahead by the same length at all times.
pub record IsSteady (zone : Zone) (ahead : ℕ) : Type 0 where
  pub reads : (now : ℕ) → (zone.local now).wall ≡ now + ahead
  pub means : (t : Local) → ahead ≤ t.wall → zone.instant t + ahead ≡ t.wall

map_next-IsLate :
    {zone : Zone} {ahead now : ℕ} (strict : Bool)
    → IsSteady zone ahead
    → {slots : Next (ℕ × ℕ)} {found : Next Local} → Answers strict (zone.local now).wall slots found
    → {t : ℕ} → map_next zone.instant found ≡ next_at t
    → IsLate strict now t
map_next-IsLate strict steady raises e = cc
map_next-IsLate strict steady never e = cc
map_next-IsLate {zone} {ahead} {now} true steady (answers {t = r} f) e =
    ground (arith, steady.reads now, steady.means r, f.late)
map_next-IsLate {zone} {ahead} {now} false steady (answers {t = r} f) e =
    ground (arith, steady.reads now, steady.means r, f.late)

one_time-lt : (run_at : Option ℕ) (now t : ℕ) → one_time true run_at now ≡ next_at t → now < t
unfolding one_time
one_time-lt none now t e = cc
one_time-lt (some run_at) now t e = ground arith

-- The next run that follows a run is in the future, whatever the schedule, in a zone whose clock is
-- never set.
pub compute_next_run_at-lt :
    (clocks : Clocks) (task_type : Text) (schedule : Schedule) (timezone_name : Text)
    (now ahead : ℕ) {t : ℕ}
    → IsSteady (resolve_timezone clocks timezone_name) ahead
    → compute_next_run_at clocks task_type schedule timezone_name now ≡ next_at t
    → now < t
unfolding compute_next_run_at
compute_next_run_at-lt clocks task_type schedule timezone_name now ahead {t} steady e =
    elim (Bool-cases (kind == codes "one_time")) [
      | inl h ↦
          one_time-lt (parse_run_at clocks zone (lookup (codes "run_at") schedule)) now t
            (rw h at e)
      | inr h ↦ elim (Bool-cases (kind == codes "periodic")) [
        | inl k ↦
            map_next-IsLate {zone = zone} true steady
              (periodic-Answers true schedule (zone.local now)) (rw (h, k) at e)
        | inr k ↦ let none_left : no_run ≡ next_at t = rw (h, k) at e in cc
      ]
    ]
  where
    kind : Text
    kind = lower (strip task_type)

    zone : Zone
    zone = resolve_timezone clocks timezone_name
