-- ===== src/Review/Opening.antt =====
-- src/modules/review/interface/handlers/booking-event.handlers.ts: what the module does when a
-- booking is completed or cancelled. A handler of an event returns the database that it leaves.
use api_v.Base.{ℕ, ◌+◌, ◌*◌, Option, none, some, Text, ◌==◌, if◌then◌else◌}
use api_v.Booking.{Booking, is_completed}
use api_v.Review.{
  CancellationInitiator, of_client, of_professional, ReviewSession, CancellationEvent, RatedRow,
  Client, Store,
}
use api_v.Review.Submission.{review_window_hours}

abbrev pub new_session : ℕ → ℕ → ℕ → ReviewSession
new_session now booking_id id = record {
  id = id;
  booking_id = booking_id;
  expires_at = now + review_window_hours * 60 * 60 * 1000;
  revealed_at = none;
}

abbrev pub new_event : Booking → CancellationInitiator → Option Text → ℕ → CancellationEvent
new_event b initiator reason id = record {
  id = id;
  booking_id = b.id;
  initiated_by = initiator;
  client_id = b.client_id;
  professional_id = b.professional_id;
  reason = reason;
}

module _ (C : Client) where
  -- The upsert with an empty update: a row is made where there is none.
  abbrev pub upsert_session : ℕ → ℕ → Option ReviewSession → Store C → Store C
  upsert_session now booking_id (some s) db = db
  upsert_session now booking_id none db = record db {
    sessions = (C.sessions.create (new_session now booking_id) db.sessions).1;
  }

  abbrev pub open_session : ℕ → ℕ → Option Booking → Store C → Store C
  open_session now booking_id none db = db
  open_session now booking_id (some b) db =
      if is_completed b.status
      then upsert_session now booking_id
          (C.sessions.find_first (λ s. s.booking_id == booking_id) db.sessions) db
      else db

  -- `BookingCompletedReviewHandler`
  unfoldable pub on_completed : ℕ → ℕ → Store C → Store C
  on_completed now booking_id db =
      open_session now booking_id (C.bookings.find_unique booking_id db.bookings) db

  abbrev pub recorded : Booking → CancellationInitiator → Option Text → Store C → Store C
  recorded b initiator reason db = record db {
    cancellations = (C.cancellations.create (new_event b initiator reason) db.cancellations).1;
  }

  -- `isProfessional ? PROFESSIONAL : CLIENT`
  abbrev pub initiator_of : ℕ → RatedRow C.Number → CancellationInitiator
  initiator_of user_id p = if p.user_id == user_id then of_professional else of_client

  -- A booking has a professional: the client throws where the row is missing.
  abbrev pub recorded_by : ℕ → Booking → Option (RatedRow C.Number) → Store C → Store C
  recorded_by user_id b none db = db
  recorded_by user_id b (some p) db = recorded b (initiator_of user_id p) b.cancellation_note db

  abbrev pub record_cancellation : Option ℕ → Option Booking → Store C → Store C
  record_cancellation user_id none db = db
  record_cancellation none (some b) db = db
  record_cancellation (some user_id) (some b) db =
      recorded_by user_id b (C.professionals.find_unique b.professional_id db.professionals) db

  -- `BookingCancelledReviewHandler`
  unfoldable pub on_cancelled : ℕ → Option ℕ → Store C → Store C
  on_cancelled booking_id user_id db =
      record_cancellation user_id (C.bookings.find_unique booking_id db.bookings) db

  abbrev pub record_approval : Option Booking → Store C → Store C
  record_approval none db = db
  record_approval (some b) db = recorded b of_client b.cancellation_request_reason db

  -- `BookingCancellationApprovedReviewHandler`
  unfoldable pub on_approved : ℕ → Store C → Store C
  on_approved booking_id db = record_approval (C.bookings.find_unique booking_id db.bookings) db
