-- ===== src/Tasks/Schedule/Slots.antt =====
-- ufoundry/tasks/schedule.py: the candidates of a periodic schedule.
use ufoundry.Base.{ℕ, ◌+◌, ◌*◌, ◌%◌, ◌≤◌, ◌<◌, ◌≡◌, Bool, true, false, arith}
use ufoundry.Tasks.Schedule.{
  Local, minute_length, hour_length, day_length, week_length, not_before, at_minute, at_hour,
  weekly,
}

-- Late enough: after the time given, or not before it.
abbrev pub IsLate : Bool → ℕ → ℕ → Type 0
IsLate true now t = now < t
IsLate false now t = now ≤ t

-- The first of the times that are a slot and late enough.
pub record IsFirst (IsSlot : ℕ → Type 0) (strict : Bool) (now t : ℕ) : Type 0 where
  pub slot : IsSlot t
  pub late : IsLate strict now t
  pub first : (u : ℕ) → IsSlot u → IsLate strict now u → t ≤ u

module _ (now : Local) (hour minute : ℕ) (in_day : hour ≤ 23) (in_hour : minute ≤ 59) where
  -- The hourly slot of the minute.
  pub not_before-hour :
      (strict : Bool)
      → IsFirst
          (λ t. t % hour_length ≡ minute * minute_length)
          strict
          now.wall
          (not_before strict now (at_minute now minute) hour_length).wall
  unfolding not_before at_minute
  not_before-hour true = record {
    slot = ground arith;
    late = ground arith;
    first = λ u s l. ground arith;
  }
  not_before-hour false = record {
    slot = ground arith;
    late = ground arith;
    first = λ u s l. ground arith;
  }

  -- The daily slot of the hour and minute.
  pub not_before-day :
      (strict : Bool)
      → IsFirst
          (λ t. t % day_length ≡ hour * hour_length + minute * minute_length)
          strict
          now.wall
          (not_before strict now (at_hour now hour minute) day_length).wall
  unfolding not_before at_hour
  not_before-day true = record {
    slot = ground arith;
    late = ground arith;
    first = λ u s l. ground arith;
  }
  not_before-day false = record {
    slot = ground arith;
    late = ground arith;
    first = λ u s l. ground arith;
  }

  -- The weekly slot of the day, hour and minute.
  pub weekly-IsFirst :
      (strict : Bool) (target : ℕ)
      → target ≤ 6
      → IsFirst
          (λ t.
            t % week_length ≡ target * day_length + (hour * hour_length + minute * minute_length))
          strict
          now.wall
          (weekly strict now target hour minute).wall
  unfolding weekly not_before at_hour
  weekly-IsFirst true target h = record {
    slot = ground arith;
    late = ground arith;
    first = λ u s l. ground arith;
  }
  weekly-IsFirst false target h = record {
    slot = ground arith;
    late = ground arith;
    first = λ u s l. ground arith;
  }
