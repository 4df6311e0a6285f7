-- ===== src/Review/Answers.antt =====
-- What a submission does: it stores the review, and where the other side has written it shows both.
use api_v.Base.{
  ℕ, ◌≡◌, Bool, false, not, ◌&&◌, ◌+◌, ◌*◌, any, is_some, none, some, ◌==◌, if◌then◌else◌,
}
use api_v.Review.{ReviewerType, by_client, by_professional, Review, Client, Store, same_type}
use api_v.Review.Submission.{SubmitCommand, Submission}
use api_v.Review.Effects.Submitting.{IsAllowed}

abbrev pub other_side : ReviewerType → ReviewerType
other_side by_client = by_professional
other_side by_professional = by_client

-- Whether the other side has a live review in the session.
abbrev pub is_answered : (C : Client) → SubmitCommand → Submission → Store C → Bool
is_answered C command sub db =
    any
      (λ r.
        same_type r.reviewer_type (
          other_side
            (if sub.booking.client_id == command.reviewer_id then by_client else by_professional))
        && not (is_some r.deleted_at))
      (C.reviews.find_many (λ r. r.session_id == sub.session.id) db.reviews)

-- The database after a submission that has returned.
pub record IsSubmitted (C : Client) (db : Store C) (now later : ℕ) (command : SubmitCommand)
    (id : ℕ) (after : Store C) : Type 0 where
  pub sub : Submission
  pub allowed : IsAllowed now command sub
  pub hidden : sub.session.revealed_at ≡ none
  pub fresh : C.reviews.find_unique id db.reviews ≡ none
  pub stored :
      C.reviews.find_unique id after.reviews
      ≡ some (record {
        id = id;
        session_id = sub.session.id;
        booking_id = sub.booking.id;
        reviewer_type =
            if sub.booking.client_id == command.reviewer_id then by_client else by_professional;
        reviewer_id = command.reviewer_id;
        reviewee_id =
            if sub.booking.client_id == command.reviewer_id
            then sub.user_id
            else sub.booking.client_id;
        professional_id = sub.booking.professional_id;
        rating = command.rating;
        comment = command.comment;
        editable_until = now + 30 * 60 * 1000;
        is_edited = false;
        is_visible = is_answered C command sub db;
        deleted_at = none;
      })
  pub session :
      C.sessions.find_unique sub.session.id after.sessions
      ≡ some (
          if is_answered C command sub db
          then record sub.session { revealed_at = some later }
          else sub.session)
