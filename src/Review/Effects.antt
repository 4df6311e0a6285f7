-- ===== src/Review/Effects.antt =====
-- What the handlers of reviews do to the database, as a few primitive writes. Every handler that
-- returns is a sequence of them.
pub mod Filed
pub mod Blind
pub mod Summed
pub mod Submitting
pub mod Turns
pub mod Expiring
use api_v.Base.{ℕ, ◌≡◌, Bool, true, false, none, some, List, [], ◌==◌}
use api_v.Booking.{Booking}
use api_v.Review.{
  Review, ReviewSession, RatedRow, Client, Store, same_type, is_live, revealed, reveal_session,
}
use api_v.Review.Submission.{SubmitCommand, Submission, side_of, has_live, new_review}
use api_v.Review.Editing.{EditCommand, edited}
use api_v.Review.Opening.{new_session}

-- What a submission has found and tested when it comes to write.
pub record IsSubmissible (C : Client) (db : Store C) (command : SubmitCommand) (sub : Submission)
    : Type 0 where
  pub booking : C.bookings.find_unique sub.booking.id db.bookings ≡ some sub.booking
  pub session : C.sessions.find_unique sub.session.id db.sessions ≡ some sub.session
  pub same_booking : sub.session.booking_id ≡ sub.booking.id
  pub rated : RatedRow C.Number
  pub professional :
      C.professionals.find_unique sub.booking.professional_id db.professionals ≡ some rated
  pub hidden : sub.session.revealed_at ≡ none
  pub only :
      (i : ℕ) (r : Review)
      → C.reviews.find_unique i db.reviews ≡ some r
      → r.session_id ≡ sub.session.id
      → same_type r.reviewer_type (side_of command sub) ≡ false
  pub read : sub.reviews ≡ C.reviews.find_many (λ r. r.session_id == sub.session.id) db.reviews
  pub first : has_live (side_of command sub) sub.reviews ≡ false

-- A session that is there, and whose booking is with a professional.
pub record IsSessionOf (C : Client) (db : Store C) (s : ReviewSession) (professional_id : ℕ)
    : Type 0 where
  pub stored : ReviewSession
  pub session : C.sessions.find_unique s.id db.sessions ≡ some stored
  pub found : Booking
  pub booking : C.bookings.find_unique stored.booking_id db.bookings ≡ some found
  pub same_professional : found.professional_id ≡ professional_id
  pub rated : RatedRow C.Number
  pub professional : C.professionals.find_unique professional_id db.professionals ≡ some rated

pub data Effect (C : Client) (db : Store C) : Store C → Type 0 where
  adds :
      (now : ℕ) (command : SubmitCommand) (sub : Submission)
      → IsSubmissible C db command sub
      → Effect C db
          (record db { reviews = (C.reviews.create (new_review now command sub) db.reviews).1 })
  edits :
      (command : EditCommand) (r : Review)
      → C.reviews.find_unique r.id db.reviews ≡ some r
      → r.is_visible ≡ false
      → r.is_edited ≡ false
      → Effect C db (record db { reviews = C.reviews.update r.id (edited command) db.reviews })
  reveals :
      (now : ℕ) (s : ReviewSession) (professional_id : ℕ)
      → IsSessionOf C db s professional_id
      → Effect C db (reveal_session C now s.id professional_id db)
  closes :
      (now : ℕ) (s stored : ReviewSession)
      → C.sessions.find_unique s.id db.sessions ≡ some stored
      → ((i : ℕ) (r : Review)
          → C.reviews.find_unique i db.reviews ≡ some r
          → r.session_id ≡ s.id
          → is_live r ≡ false)
      → Effect C db (record db { sessions = C.sessions.update s.id (revealed now) db.sessions })
  opens :
      (now booking_id : ℕ)
      → Effect C db
          (record db { sessions = (C.sessions.create (new_session now booking_id) db.sessions).1 })
  notes : (events : C.cancellations.State) → Effect C db (record db { cancellations = events })

-- A sequence of writes.
pub data Effects (C : Client) (db : Store C) : Store C → Type 0 where
  done : Effects C db db
  and_then : {mid after : Store C} → Effects C db mid → Effect C mid after → Effects C db after
