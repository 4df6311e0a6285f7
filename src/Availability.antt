-- ===== src/Availability.antt =====
-- src/modules/professional/core/entities/availability.entity.ts: the opening hours of a day of
-- the week, the class `AvailabilityEntity`. Dates are milliseconds since the epoch, and `now` is what
-- `new Date()` gives. Ids are only compared, so they are numbers.
pub mod Ranges
pub mod Laws
mod Tests
use api_v.Base.{
  ℕ, Bool, true, false, not, ◌&&◌, ◌||◌, Option, none, some, is_some, if◌then◌else◌, ℤ, pos, ltb_ℤ,
  Text, is_empty, Result, ok, bad_request, throw_if, ◌>>=◌, ◌>>◌,
}
use Ranges.{TimeRange, includes}

-- The enum `AvailabilityStatus`.
pub data AvailabilityStatus : Type 0 where
  open_day closed on_leave : AvailabilityStatus

abbrev pub is_open : AvailabilityStatus → Bool
is_open open_day = true
is_open _ = false

abbrev pub is_closed : AvailabilityStatus → Bool
is_closed closed = true
is_closed _ = false

pub record Availability : Type 0 where
  pub id : ℕ
  pub professional_id : ℕ
  pub day_of_week : ℤ
  pub working_hours : TimeRange
  pub break_time : Option TimeRange
  pub status : AvailabilityStatus
  pub is_active : Bool
  pub created_at : ℕ
  pub updated_at : ℕ
  pub deleted_at : Option ℕ

-- The argument of `AvailabilityEntity.create`.
pub record CreateProps : Type 0 where
  pub id : ℕ
  pub professional_id : ℕ
  pub day_of_week : ℤ
  pub start_time : Text
  pub end_time : Text
  pub break_start_time : Option Text
  pub break_end_time : Option Text

-- The break, once both texts are known to be given and not empty.
unfoldable pub checked_break : TimeRange → Text → Text → Result (Option TimeRange)
checked_break hours b e = do
  r ← Ranges.create b e
  throw_if (not (includes hours b) || not (includes hours e))
      (bad_request "Break time must be within working hours")
  ok (some r)

-- `if (props.breakStartTime && props.breakEndTime) { … }`
unfoldable pub break_of : TimeRange → Option Text → Option Text → Result (Option TimeRange)
break_of hours (some b) (some e) =
    if not (is_empty b) && not (is_empty e) then checked_break hours b e else ok none
break_of hours _ _ = ok none

unfoldable pub create : ℕ → CreateProps → Result Availability
create now props = do
  throw_if (ltb_ℤ props.day_of_week (pos 0) || ltb_ℤ (pos 6) props.day_of_week)
      (bad_request "Day of week must be between 0 and 6")
  working_hours ← Ranges.create props.start_time props.end_time
  break_time ← break_of working_hours props.break_start_time props.break_end_time
  ok (record {
    id = props.id;
    professional_id = props.professional_id;
    day_of_week = props.day_of_week;
    working_hours = working_hours;
    break_time = break_time;
    status = open_day;
    is_active = true;
    created_at = now;
    updated_at = now;
    deleted_at = none;
  })

abbrev in_break : Option TimeRange → Text → Bool
in_break none time = false
in_break (some r) time = includes r time

unfoldable pub is_time_available : Availability → Text → Bool
is_time_available a time =
    if not a.is_active || not (is_open a.status)
    then false
    else if not (includes a.working_hours time)
    then false
    else if in_break a.break_time time
    then false
    else true

unfoldable pub mark_as_on_leave : ℕ → Availability → Availability
mark_as_on_leave now a = record a { status = on_leave; updated_at = now }

unfoldable pub mark_as_closed : ℕ → Availability → Availability
mark_as_closed now a = record a { status = closed; updated_at = now }

unfoldable pub reopen : ℕ → Availability → Availability
reopen now a = record a { status = open_day; updated_at = now }

unfoldable pub deactivate : ℕ → Availability → Availability
deactivate now a = record a { is_active = false; updated_at = now }

unfoldable pub is_valid : Availability → Bool
is_valid a = a.is_active && not (is_some a.deleted_at) && not (is_closed a.status)
