-- ===== src/Booking/Tests/Runs.antt =====
-- The runs of the handlers, and the theorems about bookings at them.
use api_v.Base.{
  ◌+◌, ◌*◌, ◌≤◌, ◌<◌, ◌≡◌, ◌≢◌, ◌↔◌, refl, true, false, none, some, any, ◌==◌, trim, same, ok,
  arith,
}
use api_v.Availability.Ranges.{total_min, split_colon, minutes_of, number}
use api_v.Booking.{Booking, HoursRow}
use api_v.Booking.Slots.{
  utc_day, utc_minutes, is_hours_on, is_candidate, check_hours, validate_slot, find_overlapping,
}
use api_v.Booking.Slots.Fits.{IsWithin, validate_slot-IsWithin}
use api_v.Booking.Slots.Overlaps.{find_overlapping_iff}
use api_v.Booking.Pricing.{primary_service, travel_fee_for, lines_from}
use api_v.Booking.Creation.{
  check_accepting, asked_services, prepare, create_booking, request_cancellation,
}
use api_v.Booking.Creation.Writes.{Creates, create_booking-Creates}
use api_v.Booking.Decisions.{
  conflicts_of, confirm, reject, complete, cancel, approve_cancellation, reject_cancellation,
  mark_no_show,
}
use api_v.Booking.Decisions.Allowed.{returns, decisions_return, cancellations_return}
use api_v.Booking.Decisions.Confirmation.{Confirms, confirm-Confirms, conflicts_of_iff}
use api_v.Booking.Lifecycle.{Reach, here, next, step_create, step_confirm, step_complete}
use api_v.Booking.Lifecycle.Forward.{Continues, Reach-Continues, closed_stays}
use api_v.Booking.Lifecycle.Consistency.{AllConsistent, Reach-AllConsistent}
use api_v.Booking.Tests.{
  server, server-IsLawfulClient, database, nine, command, draft, first_row, made, with_booking,
  with_confirmed, quiet, with_completed, completed_row, made_again, with_another, other_row,
}

handlers : Unit {0}
unfolding create_booking prepare asked_services check_accepting validate_slot check_hours
    find_overlapping primary_service travel_fee_for lines_from total_min split_colon minutes_of
    number confirm conflicts_of complete trim same
handlers = tt

prepared : prepare server 5 command database ≡ ok draft
unfolding handlers
prepared = refl

create_booking-first : create_booking server 5 command database ≡ ok (made, with_booking)
unfolding handlers
create_booking-first = refl

confirm-first : confirm server 6 0 0 with_booking ≡ ok (quiet, with_confirmed)
unfolding handlers
confirm-first = refl

complete-first : complete server 0 0 with_confirmed ≡ ok with_completed
unfolding handlers
complete-first = refl

create_booking-Creates_example : Creates server 5 command database made with_booking
create_booking-Creates_example =
    create_booking-Creates server server-IsLawfulClient database 5 command made with_booking
      create_booking-first

-- From the empty table to the completed booking.
whole_life : Reach server with_booking with_completed
whole_life =
    next (next here (step_confirm 6 0 0 quiet with_confirmed confirm-first))
      (step_complete 0 0 with_completed complete-first)

Reach-Continues_example :
    (c : Booking) × (server.bookings.find_unique 0 with_completed.bookings ≡ some c)
    × Continues first_row c
Reach-Continues_example =
    Reach-Continues server server-IsLawfulClient with_booking with_completed 0 first_row whole_life
      refl

-- The same client books the same slot again.
create_booking-again :
    create_booking server 9 command with_completed ≡ ok (made_again, with_another)
unfolding handlers
create_booking-again = refl

closed_stays_example : server.bookings.find_unique 0 with_another.bookings ≡ some completed_row
closed_stays_example =
    closed_stays server server-IsLawfulClient with_completed with_another 0 completed_row
      (next here (step_create 9 command made_again with_another create_booking-again)) refl refl

consistent_at_first : AllConsistent server database
unfolding AllConsistent
consistent_at_first i b h = ground arith

Reach-AllConsistent_example : AllConsistent server with_booking
Reach-AllConsistent_example =
    Reach-AllConsistent server server-IsLawfulClient database with_booking
      (next here (step_create 5 command made with_booking create_booking-first)) consistent_at_first

confirm-Confirms_example : Confirms server 6 0 0 with_booking with_confirmed
confirm-Confirms_example =
    confirm-Confirms server server-IsLawfulClient with_booking 6 0 0 quiet with_confirmed
      confirm-first

slot_passes : validate_slot server database 0 nine 60 ≡ ok tt
unfolding handlers
slot_passes = refl

validate_slot-IsWithin_example :
    (a : HoursRow) × (server.availabilities.find_unique a.id database.availabilities ≡ some a)
    × (is_hours_on 0 (utc_day nine) a ≡ true)
    × IsWithin a (utc_minutes nine) (utc_minutes nine + 60)
validate_slot-IsWithin_example =
    validate_slot-IsWithin server server-IsLawfulClient database 0 nine 60 slot_passes

-- Another booking at half past nine meets the confirmed one.
find_overlapping_iff_example :
    (any (λ b. b.id == 0) (find_overlapping server with_confirmed 0 379800000 30 15) ≡ true) ↔ (
      (b : Booking) × (server.bookings.find_unique 0 with_confirmed.bookings ≡ some b)
      × (is_candidate 0 b ≡ true)
      × (379800000 < b.scheduled_at + (b.duration_min + 15) * 60000)
      × (b.scheduled_at < 379800000 + 30 * 60000)
      × (379800000 ≤ b.scheduled_at + (30 + 15) * 60000))
find_overlapping_iff_example =
    find_overlapping_iff server server-IsLawfulClient with_confirmed 0 0 379800000 30 15

conflicts_of_iff_example :
    (any (λ o. o.id == 0) (conflicts_of server 0 other_row with_confirmed) ≡ true) ↔ (
      (o : Booking) × (server.bookings.find_unique 0 with_confirmed.bookings ≡ some o)
      × (is_candidate 0 o ≡ true)
      × (o.id ≢ other_row.id)
      × (o.scheduled_at < other_row.scheduled_at + other_row.duration_min * 60000)
      × (other_row.scheduled_at < o.scheduled_at + o.duration_min * 60000)
      × (other_row.scheduled_at ≤ o.scheduled_at + other_row.duration_min * 60000))
conflicts_of_iff_example =
    conflicts_of_iff server server-IsLawfulClient with_confirmed 0 0 other_row

decisions_return_example :
    (returns (confirm server 6 0 0 with_booking) ≡ true)
    × (returns (reject server 6 0 0 none with_booking) ≡ true)
    × (returns (complete server 0 0 with_booking) ≡ false)
    × (returns (mark_no_show server 0 0 with_booking) ≡ false)
    × (returns (approve_cancellation server 6 0 0 with_booking) ≡ false)
    × (returns (reject_cancellation server 6 0 0 none with_booking) ≡ false)
decisions_return_example = decisions_return server server-IsLawfulClient with_booking 6 0 0 none

cancellations_return_example :
    (returns (cancel server 6 0 7 none with_booking) ≡ true)
    × (returns (request_cancellation server 6 0 7 none with_booking) ≡ false)
cancellations_return_example =
    cancellations_return server server-IsLawfulClient with_booking 6 0 7 none
