-- ===== src/Booking/Creation.antt =====
-- The commands of clients: `CreateClientBookingHandler` and `RequestBookingCancellationHandler`.
-- A handler takes the date of the call and returns the database that it leaves; the events that
-- it publishes are not modelled.
pub mod Laws
pub mod Accepting
pub mod Writes
use api_v.Base.{
  ℕ, ◌+◌, Bool, false, not, ◌&&◌, ◌||◌, Option, none, some, is_some, or_else, List, map, ltb, ◌==◌,
  length, Text, Result, ok, not_found, bad_request, internal, throw_if, required, ◌>>=◌, ◌>>◌,
}
use api_v.Professional.Visibility.{is_active_status}
use api_v.Booking.{
  Client, Store, Booking, BookingLine, ServiceRow, ProfessionalRow, pending, request_none,
  request_pending, is_confirmed, is_request_pending,
}
use api_v.Booking.Slots.{validate_slot, find_overlapping}
use api_v.Booking.Pricing.{
  total_duration, total_base_price, is_asked, first_of, primary_service, travel_fee_for, lines_from,
}

-- `CreateClientBookingCommand`, where the date is what `new Date(text)` reads, if it reads one.
pub record CreateCommand : Type 0 where
  pub client_id : ℕ
  pub professional_id : ℕ
  pub service_ids : List ℕ
  pub scheduled_at : Option ℕ
  pub commune : Text
  pub address : Option Text
  pub client_notes : Option Text

-- The answer: the booking and its warnings.
pub record Created : Type 0 where
  pub booking : Booking
  pub has_schedule_conflict : Bool
  pub overlapping_booking_ids : List ℕ

-- `bookingsPausedUntil && bookingsPausedUntil > new Date()`
abbrev pub is_paused : ℕ → ProfessionalRow → Bool
is_paused now p = elim p.bookings_paused_until [ none ↦ false | some until ↦ ltb now until ]

-- The tests of the professional's state, in order.
unfoldable pub check_accepting : ℕ → ProfessionalRow → Result (Unit {0})
check_accepting now p = do
  throw_if (not p.is_verified || not (is_active_status p.status))
      (bad_request "Le professionnel ne peut pas accepter de réservations pour le moment")
  throw_if (not p.is_accepting_bookings)
      (bad_request "Le professionnel ne prend pas de réservations en ce moment")
  throw_if (is_paused now p) (bad_request "Les réservations reprennent le")
  ok tt

-- The data of the update of a request, written into a row.
abbrev pub asked : ℕ → Option Text → Booking → Booking
asked now reason b = record b {
  cancellation_request_status = request_pending;
  cancellation_requested_at = some now;
  cancellation_reviewed_at = none;
  cancellation_request_reason = or_else reason b.cancellation_request_reason;
}

-- What the handler has read and computed when it comes to write.
pub record Draft : Type 0 where
  pub services : List ServiceRow
  pub professional : ProfessionalRow
  pub scheduled_at : ℕ
  pub travel_fee : ℕ
  pub primary_id : ℕ
  pub lines : List BookingLine

-- The data of the new row, under the key that the database gives it.
abbrev pub new_row : CreateCommand → Draft → ℕ → Booking
new_row command draft id = record {
  id = id;
  client_id = command.client_id;
  professional_id = command.professional_id;
  service_id = draft.primary_id;
  status = pending;
  scheduled_at = draft.scheduled_at;
  duration_min = total_duration draft.services;
  total_price = total_base_price draft.services + draft.travel_fee;
  travel_fee = draft.travel_fee;
  commune = command.commune;
  address = command.address;
  client_notes = command.client_notes;
  confirmed_at = none;
  cancelled_at = none;
  cancellation_note = none;
  cancellation_request_status = request_none;
  cancellation_requested_at = none;
  cancellation_reviewed_at = none;
  cancellation_request_reason = none;
  booking_services = draft.lines;
  deleted_at = none;
}

module _ (C : Client) where
  unfoldable pub asked_services : CreateCommand → Store C → List ServiceRow
  asked_services command db =
      C.services.find_many (is_asked command.service_ids command.professional_id) db.services

  -- The reads and the checks, in order.
  unfoldable pub prepare : ℕ → CreateCommand → Store C → Result Draft
  prepare now command db = do
    professional ←
        required
          (C.professionals.find_first
            (λ p. p.id == command.professional_id && not (is_some p.deleted_at)) db.professionals)
          (not_found "Professionnel non trouvé")
    throw_if (not (length (asked_services command db) == length command.service_ids))
        (not_found "Un ou plusieurs services sont introuvables pour ce professionnel")
    check_accepting now professional
    scheduled_at ← required command.scheduled_at (bad_request "Date de réservation invalide")
    validate_slot C db command.professional_id scheduled_at
        (total_duration (asked_services command db))
    primary ← primary_service command.service_ids (asked_services command db)
    travel_fee ← travel_fee_for primary command.commune
    primary_id ← required (first_of command.service_ids) (internal "PrismaClientValidationError")
    lines ← lines_from 0 command.service_ids (asked_services command db)
    ok (record {
      services = asked_services command db;
      professional = professional;
      scheduled_at = scheduled_at;
      travel_fee = travel_fee;
      primary_id = primary_id;
      lines = lines;
    })

  abbrev pub overlaps_of : CreateCommand → Draft → Store C → List Booking
  overlaps_of command draft db =
      find_overlapping C db command.professional_id draft.scheduled_at
        (total_duration draft.services) draft.professional.travel_buffer_min

  abbrev pub written : CreateCommand → Draft → Store C → Created × Store C
  written command draft db =
      let made = C.bookings.create (new_row command draft) db.bookings in
      (
        record {
          booking = made.0;
          has_schedule_conflict = ltb 0 (length (overlaps_of command draft db));
          overlapping_booking_ids = map (λ b. b.id) (overlaps_of command draft db);
        },
        record db { bookings = made.1 },
      )

  unfoldable pub create_booking : ℕ → CreateCommand → Store C → Result (Created × Store C)
  create_booking now command db = do draft ← prepare now command db; ok (written command draft db)

  -- `RequestBookingCancellationHandler`
  unfoldable pub request_cancellation :
      ℕ → ℕ → ℕ → Option Text → Store C → Result (Booking × Store C)
  request_cancellation now booking_id client_id reason db = do
    booking ←
        required
          (C.bookings.find_first
            (λ b. b.id == booking_id && b.client_id == client_id && not (is_some b.deleted_at))
            db.bookings)
          (not_found "Reservation non trouvee")
    throw_if (not (is_confirmed booking.status)) (
        bad_request
          "Une demande d'annulation est possible uniquement pour une reservation confirmee")
    throw_if (is_request_pending booking.cancellation_request_status)
        (bad_request "Une demande d'annulation est deja en cours")
    ok (
      asked now reason booking,
      record db { bookings = C.bookings.update booking.id (asked now reason) db.bookings },
    )
