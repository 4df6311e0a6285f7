-- ===== src/Availability/Tests.antt =====
-- Runs of the opening hours, and each theorem at a concrete day.
use api_v.Base.{
  ◌≡◌, refl, true, false, not, ◌&&◌, none, some, arith, leb, pos, codes, trim, ok, err, bad_request,
}
use api_v.Availability.Ranges
use api_v.Availability.Ranges.{
  TimeRange, time_regex, split_colon, number, minutes_of, total_min, includes,
}
use api_v.Availability.Ranges.Printed.{Clock, minutes, print}
use api_v.Availability.{
  Availability, open_day, CreateProps, checked_break, break_of, create, is_open, is_time_available,
}
use api_v.Availability.Laws.{IsWellFormed, rests_at, create-IsWellFormed, is_time_available-print}

ranges : Unit {0}
unfolding Ranges.create includes total_min time_regex trim
ranges = tt

days : Unit {0}
unfolding ranges create checked_break break_of is_time_available
days = tt

abbrev monday : CreateProps
monday = record {
  id = 4;
  professional_id = 9;
  day_of_week = pos 1;
  start_time = codes "08:00";
  end_time = codes "18:30";
  break_start_time = some (codes "12:00");
  break_end_time = some (codes "13:00");
}

abbrev hours_of_day : TimeRange
hours_of_day = record { start_time = codes "08:00"; end_time = codes "18:30" }

abbrev made : Availability
made = record {
  id = 4;
  professional_id = 9;
  day_of_week = pos 1;
  working_hours = hours_of_day;
  break_time = some (record { start_time = codes "12:00"; end_time = codes "13:00" });
  status = open_day;
  is_active = true;
  created_at = 77;
  updated_at = 77;
  deleted_at = none;
}

create-monday : create 77 monday ≡ ok made
unfolding days
create-monday = refl

late_break :
    create 77 (record monday { break_end_time = some (codes "19:00") })
    ≡ err (bad_request "Break time must be within working hours")
unfolding days
late_break = refl

bad_texts :
    (Ranges.create (codes "24:00") (codes "25:00")
      ≡ err (bad_request "Invalid time format. Use HH:mm"))
    × (Ranges.create (codes "09:00") (codes "09:00")
        ≡ err (bad_request "Start time must be before end time"))
unfolding ranges
bad_texts = (refl, refl)

lunch :
    (is_time_available made (codes "12:30") ≡ false)
    × (is_time_available made (codes "18:30") ≡ true)
unfolding days
lunch = (refl, refl)

abbrev eight : Clock
eight = record { hour = 8; minute = 0; hour_bound = omega arith; minute_bound = omega arith }

abbrev half_past_six : Clock
half_past_six = record {
  hour = 18;
  minute = 30;
  hour_bound = omega arith;
  minute_bound = omega arith;
}

made-IsWellFormed : IsWellFormed made
made-IsWellFormed = create-IsWellFormed 77 monday made create-monday

is_time_available-print_example : is_time_available made (print eight) ≡ (
    made.is_active
    && is_open made.status
    && (leb (minutes made-IsWellFormed.hours.opening) (minutes eight)
        && leb (minutes eight) (minutes made-IsWellFormed.hours.closing))
    && not (
        rests_at made.working_hours made-IsWellFormed.hours made.break_time made-IsWellFormed.rest
          (minutes eight)))
is_time_available-print_example = is_time_available-print made made-IsWellFormed eight
