-- ===== src/Schedule/Tests.antt =====
-- A week with a Monday, at nine o'clock of a Monday.
use api_v.Base.{ℕ, ◌≡◌, refl, true, some, List, [], ◌∷◌, find?, ◌==◌, trim, arith}
use api_v.Availability.Ranges.{total_min}
use api_v.Booking.Slots.{utc_day}
use api_v.Professional.Tests.{monday}
use api_v.Schedule.{
  DaySlot, ScheduleDay, day_slot, day_slots_from_availabilities, is_within, compute_open_now,
  build_schedule,
}
use api_v.Schedule.Laws.{build_schedule-agrees}

abbrev slots : List DaySlot
slots = day_slot monday ∷ []

slots-monday : day_slots_from_availabilities (monday ∷ []) ≡ slots
unfolding day_slots_from_availabilities
slots-monday = refl

-- Nine o'clock of the first Monday after the epoch.
abbrev nine : ℕ
nine = 378000000

open_at_nine : (build_schedule slots nine).open_status.is_open_now ≡ true
unfolding build_schedule compute_open_now is_within total_min trim
open_at_nine = refl

build_schedule-agrees_example :
    (d : ScheduleDay) × (find? (λ e. e.day_of_week == utc_day nine) (build_schedule slots nine).days
      ≡ some d)
    × (d.is_open_day ≡ true)
    × (d.end_time ≡ (build_schedule slots nine).open_status.closing_time)
build_schedule-agrees_example = build_schedule-agrees slots nine (omega arith) open_at_nine
