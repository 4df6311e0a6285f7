-- ===== src/Booking/Decisions.antt =====
-- The commands of professional/interface/handlers/booking.handlers.ts. `undefined` in the data of
-- an update leaves the column, as the client documents.
pub mod Allowed
pub mod Confirmation
use api_v.Base.{
  ℕ, suc, ◌+◌, ◌-◌, ◌*◌, Bool, not, ◌&&◌, ◌||◌, Option, some, is_some, or_else, List, map, leb, ltb,
  ◌==◌, filter, length, Text, Result, ok, not_found, bad_request, throw_if, required, ◌>>=◌, ◌>>◌,
}
use api_v.Booking.{
  Client, Store, Booking, ProfessionalRow, confirmed, rejected, cancelled, completed, no_show,
  request_none, request_approved, is_pending, is_confirmed, is_request_pending,
}

-- The answer to a confirmation.
pub record Confirmed : Type 0 where
  pub has_schedule_conflict : Bool
  pub conflicting_booking_ids : List ℕ

-- `['PENDING', 'CONFIRMED'].includes(status)`
abbrev pub is_cancellable : Booking → Bool
is_cancellable b = is_pending b.status || is_confirmed b.status

-- The data of the updates, written into a row.
abbrev pub as_confirmed : ℕ → Booking → Booking
as_confirmed now b = record b { status = confirmed; confirmed_at = some now }

abbrev pub as_rejected : ℕ → Option Text → Booking → Booking
as_rejected now reason b = record b {
  status = rejected;
  cancelled_at = some now;
  cancellation_note = or_else reason b.cancellation_note;
}

abbrev pub as_completed : Booking → Booking
as_completed b = record b { status = completed }

abbrev pub as_cancelled : ℕ → Option Text → Booking → Booking
as_cancelled now reason b = record b {
  status = cancelled;
  cancelled_at = some now;
  cancellation_note = or_else reason b.cancellation_note;
}

abbrev pub as_approved : ℕ → Booking → Booking
as_approved now b = record b {
  status = cancelled;
  cancelled_at = some now;
  cancellation_request_status = request_approved;
  cancellation_reviewed_at = some now;
}

abbrev pub as_refused : ℕ → Option Text → Booking → Booking
as_refused now reason b = record b {
  cancellation_request_status = request_none;
  cancellation_reviewed_at = some now;
  cancellation_note = or_else reason b.cancellation_note;
}

abbrev pub as_no_show : Booking → Booking
as_no_show b = record b { status = no_show }

abbrev pub counted : ProfessionalRow → ProfessionalRow
counted p = record p { booking_count = suc p.booking_count }

module _ (C : Client) where
  -- The query with which all but the cancellation start, and its test.
  abbrev pub own_booking : ℕ → ℕ → Store C → Result Booking
  own_booking booking_id professional_id db =
      required
        (C.bookings.find_first
          (λ b.
            b.id == booking_id
            && b.professional_id == professional_id
            && not (is_some b.deleted_at))
          db.bookings)
        (not_found "Reservation non trouvee")

  abbrev pub updated : Booking → (Booking → Booking) → Store C → Store C
  updated b f db = record db { bookings = C.bookings.update b.id f db.bookings }

  -- The confirmed bookings that the new one meets, as the confirmation reports them.
  unfoldable pub conflicts_of : ℕ → Booking → Store C → List Booking
  conflicts_of professional_id b db =
      let end = b.scheduled_at + b.duration_min * 60000 in
      filter
        (λ o.
          ltb o.scheduled_at end && ltb b.scheduled_at (o.scheduled_at + o.duration_min * 60000))
        (C.bookings.find_many
          (λ o.
            o.professional_id == professional_id
            && not (o.id == b.id)
            && is_confirmed o.status
            && not (is_some o.deleted_at)
            && leb (b.scheduled_at - b.duration_min * 60000) o.scheduled_at
            && ltb o.scheduled_at end)
          db.bookings)

  unfoldable pub confirm : ℕ → ℕ → ℕ → Store C → Result (Confirmed × Store C)
  confirm now booking_id professional_id db = do
    booking ← own_booking booking_id professional_id db
    throw_if (not (is_pending booking.status))
        (bad_request "Seules les reservations en attente peuvent etre confirmees")
    let conflicts = conflicts_of professional_id booking db
    ok (
      record {
        has_schedule_conflict = ltb 0 (length conflicts);
        conflicting_booking_ids = map (λ b. b.id) conflicts;
      },
      record db {
        bookings = C.bookings.update booking.id (as_confirmed now) db.bookings;
        professionals = C.professionals.update professional_id counted db.professionals;
      },
    )

  unfoldable pub reject : ℕ → ℕ → ℕ → Option Text → Store C → Result (Store C)
  reject now booking_id professional_id reason db = do
    booking ← own_booking booking_id professional_id db
    throw_if (not (is_pending booking.status))
        (bad_request "Seules les reservations en attente peuvent etre refusees")
    ok (updated booking (as_rejected now reason) db)

  unfoldable pub complete : ℕ → ℕ → Store C → Result (Store C)
  complete booking_id professional_id db = do
    booking ← own_booking booking_id professional_id db
    throw_if (not (is_confirmed booking.status))
        (bad_request "Seules les reservations confirmees peuvent etre completees")
    ok (updated booking as_completed db)

  -- By the client or by the professional, each under the id that the booking carries.
  unfoldable pub cancel : ℕ → ℕ → ℕ → Option Text → Store C → Result (Store C)
  cancel now booking_id user_id reason db = do
    booking ←
        required
          (C.bookings.find_first (λ b. b.id == booking_id && not (is_some b.deleted_at))
            db.bookings)
          (not_found "Reservation non trouvee")
    throw_if (not (booking.client_id == user_id) && not (booking.professional_id == user_id))
        (bad_request "Vous ne pouvez pas annuler cette reservation")
    throw_if (not (is_cancellable booking))
        (bad_request "Cette reservation ne peut plus etre annulee")
    ok (updated booking (as_cancelled now reason) db)

  unfoldable pub approve_cancellation : ℕ → ℕ → ℕ → Store C → Result (Store C)
  approve_cancellation now booking_id professional_id db = do
    booking ← own_booking booking_id professional_id db
    throw_if (not (is_confirmed booking.status)) (
        bad_request
          "Seules les reservations confirmees peuvent recevoir une validation d'annulation")
    throw_if (not (is_request_pending booking.cancellation_request_status))
        (bad_request "Aucune demande d'annulation en attente pour cette reservation")
    ok (updated booking (as_approved now) db)

  unfoldable pub reject_cancellation : ℕ → ℕ → ℕ → Option Text → Store C → Result (Store C)
  reject_cancellation now booking_id professional_id reason db = do
    booking ← own_booking booking_id professional_id db
    throw_if (not (is_confirmed booking.status))
        (bad_request "Seules les reservations confirmees peuvent recevoir un refus d'annulation")
    throw_if (not (is_request_pending booking.cancellation_request_status))
        (bad_request "Aucune demande d'annulation en attente pour cette reservation")
    ok (updated booking (as_refused now reason) db)

  unfoldable pub mark_no_show : ℕ → ℕ → Store C → Result (Store C)
  mark_no_show booking_id professional_id db = do
    booking ← own_booking booking_id professional_id db
    throw_if (not (is_confirmed booking.status))
        (bad_request "Seules les reservations confirmees peuvent etre marquees comme absence.")
    ok (updated booking as_no_show db)
