-- ===== src/Schedule.antt =====
-- src/modules/professional/interface/presenters/schedule.presenter.ts: whether a professional is
-- open now, and the week as it is shown. Times are those of UTC, which Abidjan keeps.
pub mod Laws
mod Tests
use api_v.Base.{
  ℕ, zero, suc, Bool, true, false, not, ◌&&◌, ◌||◌, Option, none, some, List, [], ◌∷◌, ◌++◌, map,
  if◌then◌else◌, find?, ℤ, pos, eq_ℤ, Text, codes, is_empty,
}
use api_v.Availability.{Availability, AvailabilityStatus, is_open}
use api_v.Availability.Ranges.{TimeRange, total_min, ge_num}
use api_v.Booking.Slots.{utc_day, utc_minutes, lt_num}

-- `DaySlot`. The status is one of the enum's.
pub record DaySlot : Type 0 where
  pub day_of_week : ℤ
  pub status : AvailabilityStatus
  pub start_time : Text
  pub end_time : Text
  pub break_start_time : Option Text
  pub break_end_time : Option Text

-- `OpenStatus`
pub record OpenStatus : Type 0 where
  pub is_open_now : Bool
  pub closing_time : Option Text

pub record ScheduleDay : Type 0 where
  pub day_of_week : ℕ
  pub day_name : Text
  pub is_open_day : Bool
  pub start_time : Option Text
  pub end_time : Option Text
  pub break_start_time : Option Text
  pub break_end_time : Option Text
  pub label : Text

-- `SchedulePresentation`
pub record SchedulePresentation : Type 0 where
  pub timezone : Text
  pub open_status : OpenStatus
  pub days : List ScheduleDay

abbrev pub schedule_timezone : Text
schedule_timezone = codes "Africa/Abidjan"

-- `DAY_NAMES_FR`
abbrev pub day_names_fr : List Text
day_names_fr =
    codes "Dimanche"
    ∷ codes "Lundi"
    ∷ codes "Mardi"
    ∷ codes "Mercredi"
    ∷ codes "Jeudi"
    ∷ codes "Vendredi"
    ∷ codes "Samedi"
    ∷ []

-- `names[i]`, on an index within the bounds
abbrev name_at : ℕ → List Text → Text
name_at i [] = []
name_at zero (name ∷ _) = name
name_at (suc i) (_ ∷ names) = name_at i names

abbrev pub day_name_fr : ℕ → Text
day_name_fr dow = name_at dow day_names_fr

abbrev pub display_order : List ℕ
display_order = 1 ∷ 2 ∷ 3 ∷ 4 ∷ 5 ∷ 6 ∷ 0 ∷ []

-- The break, where both texts are given and not empty, covers a minute.
abbrev pub is_on_break : ℕ → Option Text → Option Text → Bool
is_on_break now_min (some b) (some e) =
    not (is_empty b)
    && not (is_empty e)
    && ge_num (some now_min) (total_min b)
    && lt_num (some now_min) (total_min e)
is_on_break now_min _ _ = false

unfoldable pub is_within : ℕ → Text → Text → Option Text → Option Text → Bool
is_within now_min start_time end_time break_start_time break_end_time =
    if lt_num (some now_min) (total_min start_time) || ge_num (some now_min) (total_min end_time)
    then false
    else not (is_on_break now_min break_start_time break_end_time)

abbrev pub break_start : Option TimeRange → Option Text
break_start none = none
break_start (some r) = some r.start_time

abbrev pub break_end : Option TimeRange → Option Text
break_end none = none
break_end (some r) = some r.end_time

abbrev pub day_slot : Availability → DaySlot
day_slot a = record {
  day_of_week = a.day_of_week;
  status = a.status;
  start_time = a.working_hours.start_time;
  end_time = a.working_hours.end_time;
  break_start_time = break_start a.break_time;
  break_end_time = break_end a.break_time;
}

unfoldable pub day_slots_from_availabilities : List Availability → List DaySlot
day_slots_from_availabilities = map day_slot

-- `(s) => s.dayOfWeek === day && s.status === OPEN_STATUS`
abbrev pub is_open_on : ℤ → DaySlot → Bool
is_open_on day s = eq_ℤ s.day_of_week day && is_open s.status

abbrev pub status_of : ℕ → Option DaySlot → OpenStatus
status_of now_min none = record { is_open_now = false; closing_time = none }
status_of now_min (some today) =
    let is_in =
      is_within now_min today.start_time today.end_time today.break_start_time
        today.break_end_time in
    record { is_open_now = is_in; closing_time = if is_in then some today.end_time else none }

unfoldable pub compute_open_now : List DaySlot → ℕ → OpenStatus
compute_open_now slots now =
    status_of (utc_minutes now) (find? (is_open_on (pos (utc_day now))) slots)

-- The `Map` of the open slots by day: a later one replaces an earlier one.
unfoldable pub by_day : List DaySlot → (ℤ → Option DaySlot) → ℤ → Option DaySlot
by_day [] known day = known day
by_day (s ∷ slots) known day =
    by_day slots (λ d. if is_open s.status && eq_ℤ s.day_of_week d then some s else known d) day

abbrev pub shown : ℕ → Option DaySlot → ScheduleDay
shown dow none = record {
  day_of_week = dow;
  day_name = day_name_fr dow;
  is_open_day = false;
  start_time = none;
  end_time = none;
  break_start_time = none;
  break_end_time = none;
  label = codes "Fermé";
}
shown dow (some s) = record {
  day_of_week = dow;
  day_name = day_name_fr dow;
  is_open_day = true;
  start_time = some s.start_time;
  end_time = some s.end_time;
  break_start_time = s.break_start_time;
  break_end_time = s.break_end_time;
  label = s.start_time ++ codes "-" ++ s.end_time;
}

unfoldable pub build_schedule : List DaySlot → ℕ → SchedulePresentation
build_schedule slots now = record {
  timezone = schedule_timezone;
  open_status = compute_open_now slots now;
  days = map (λ dow. shown dow (by_day slots (λ _. none) (pos dow))) display_order;
}
