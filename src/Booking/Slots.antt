-- ===== src/Booking/Slots.antt =====
-- `validateBookingSlot` and `findOverlappingBookings`: whether a booking fits into the hours of the
-- day, and which bookings it meets. Hours and days are those of UTC.
pub mod Fits
pub mod Overlaps
use api_v.Base.{
  ℕ, ◌+◌, ◌-◌, ◌*◌, ◌/◌, ◌%◌, Bool, false, not, ◌&&◌, ◌||◌, Option, some, is_some, List, leb, ltb,
  ◌==◌, filter, Text, is_empty, Result, ok, bad_request, throw_if, required, ◌>>=◌, ◌>>◌,
}
use api_v.Availability.{is_open}
use api_v.Availability.Ranges.{total_min}
use api_v.Booking.{Client, Store, Booking, HoursRow, is_confirmed}

-- `date.getUTCDay()`: the epoch was a Thursday.
abbrev pub utc_day : ℕ → ℕ
utc_day date = (date / 86400000 + 4) % 7

-- `date.getUTCHours() * 60 + date.getUTCMinutes()`
abbrev pub utc_minutes : ℕ → ℕ
utc_minutes date = date / 3600000 % 24 * 60 + date / 60000 % 60

-- `a < b` between numbers that may be NaN
abbrev pub lt_num : Option ℕ → Option ℕ → Bool
lt_num (some a) (some b) = ltb a b
lt_num _ _ = false

-- The `where` of the query for the day's hours.
abbrev pub is_hours_on : ℕ → ℕ → HoursRow → Bool
is_hours_on professional_id day a =
    a.professional_id == professional_id
    && a.day_of_week == day
    && a.is_active
    && not (is_some a.deleted_at)
    && is_open a.status

-- `bookingStartMin < breakEndMin && bookingEndMin > breakStartMin`, where both texts of the break are
-- given and not empty
abbrev pub meets_break : Option Text → Option Text → ℕ → ℕ → Bool
meets_break (some b) (some e) from to =
    not (is_empty b)
    && not (is_empty e)
    && lt_num (some from) (total_min e)
    && lt_num (total_min b) (some to)
meets_break _ _ from to = false

-- The checks against the hours of the day that were found.
unfoldable pub check_hours : HoursRow → ℕ → ℕ → Result (Unit {0})
check_hours a scheduled_at duration_min = do
  let from = utc_minutes scheduled_at
  let to = from + duration_min
  throw_if (lt_num (some from) (total_min a.start_time) || lt_num (total_min a.end_time) (some to))
      (bad_request "Le créneau est hors des heures de travail")
  throw_if (meets_break a.break_start_time a.break_end_time from to)
      (bad_request "Le créneau chevauche la pause")
  ok tt

-- A confirmed, live booking of the professional: the `where` of the query but for its dates.
abbrev pub is_candidate : ℕ → Booking → Bool
is_candidate professional_id b =
    b.professional_id == professional_id && not (is_some b.deleted_at) && is_confirmed b.status

module _ (C : Client) where
  unfoldable pub validate_slot : Store C → ℕ → ℕ → ℕ → Result (Unit {0})
  validate_slot db professional_id scheduled_at duration_min = do
    let day = utc_day scheduled_at
    availability ←
        required (C.availabilities.find_first (is_hours_on professional_id day) db.availabilities)
          (bad_request "Le professionnel n'est pas disponible ce jour-là.")
    check_hours availability scheduled_at duration_min

  -- Called without a booking to leave out.
  unfoldable pub find_overlapping : Store C → ℕ → ℕ → ℕ → ℕ → List Booking
  find_overlapping db professional_id start duration_min buffer =
      let end = start + duration_min * 60000 in
      filter
        (λ b.
          ltb start (b.scheduled_at + (b.duration_min + buffer) * 60000) && ltb b.scheduled_at end)
        (C.bookings.find_many
          (λ b.
            is_candidate professional_id b
            && leb (start - (duration_min + buffer) * 60000) b.scheduled_at
            && leb b.scheduled_at end)
          db.bookings)
