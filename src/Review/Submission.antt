-- ===== src/Review/Submission.antt =====
-- src/modules/review/interface/handlers/submit-review.handler.ts: `SubmitReviewHandler`. It takes
-- the date of the call and the later date at which a reveal is stamped; it returns the key of the
-- review and the database it leaves. The event of a reveal is not modelled.
use api_v.Base.{
  ℕ, ◌+◌, ◌*◌, Bool, false, not, ◌&&◌, Option, none, is_some, List, [], ◌∷◌, ◌++◌, Text, ltb, ◌==◌,
  any, if◌then◌else◌, Result, ok, not_found, bad_request, internal, throw_if, required, ◌>>=◌, ◌>>◌,
}
use api_v.Booking.{Booking, is_completed}
use api_v.Review.{
  ReviewerType, by_client, by_professional, Review, ReviewSession, Client, Store, same_type,
  is_live, reveal_session,
}

-- `REVIEW_WINDOW_HOURS`
abbrev pub review_window_hours : ℕ
review_window_hours = 48

-- `EDIT_WINDOW_MINUTES`
abbrev pub edit_window_minutes : ℕ
edit_window_minutes = 30

pub record SubmitCommand : Type 0 where
  pub booking_id : ℕ
  pub reviewer_id : ℕ
  pub rating : ℕ
  pub comment : Option Text

-- `isClient ? ReviewerType.CLIENT : ReviewerType.PROFESSIONAL`
abbrev pub type_of_reviewer : Bool → ReviewerType
type_of_reviewer is_client = if is_client then by_client else by_professional

-- `reviews.some((r) => r.reviewerType === type && r.deletedAt === null)`
abbrev pub has_live : ReviewerType → List Review → Bool
has_live type reviews = any (λ r. same_type r.reviewer_type type && is_live r) reviews

-- `bothSubmitted`
abbrev pub both_submitted : List Review → Bool
both_submitted reviews = has_live by_client reviews && has_live by_professional reviews

-- What the handler has read when it comes to write.
pub record Submission : Type 0 where
  pub booking : Booking
  pub user_id : ℕ
  pub session : ReviewSession
  pub reviews : List Review

abbrev pub is_client_of : SubmitCommand → Submission → Bool
is_client_of command sub = sub.booking.client_id == command.reviewer_id

abbrev pub side_of : SubmitCommand → Submission → ReviewerType
side_of command sub = type_of_reviewer (is_client_of command sub)

-- The data of the new row, under the key that the database gives it.
abbrev pub new_review : ℕ → SubmitCommand → Submission → ℕ → Review
new_review now command sub id = record {
  id = id;
  session_id = sub.session.id;
  booking_id = sub.booking.id;
  reviewer_type = side_of command sub;
  reviewer_id = command.reviewer_id;
  reviewee_id = if is_client_of command sub then sub.user_id else sub.booking.client_id;
  professional_id = sub.booking.professional_id;
  rating = command.rating;
  comment = command.comment;
  editable_until = now + edit_window_minutes * 60 * 1000;
  is_edited = false;
  is_visible = false;
  deleted_at = none;
}

-- The unique index of the schema on the session and the side, which the write would meet.
abbrev pub check_index : SubmitCommand → Submission → Result (Unit {0})
check_index command sub =
    throw_if (any (λ r. same_type r.reviewer_type (side_of command sub)) sub.reviews)
      (internal "Unique constraint failed")

-- `alreadySubmitted`, and then the index.
abbrev pub check_first : SubmitCommand → Submission → Result Submission
check_first command sub = do
  throw_if (has_live (side_of command sub) sub.reviews)
      (bad_request "Vous avez déjà soumis un avis")
  check_index command sub
  ok sub

module _ (C : Client) where
  -- The reads and the checks, in order.
  unfoldable pub check_submission : ℕ → SubmitCommand → Store C → Result Submission
  check_submission now command db = do
    booking ←
        required
          (C.bookings.find_first (λ b. b.id == command.booking_id && not (is_some b.deleted_at))
            db.bookings)
          (not_found "Reservation non trouvee")
    professional ←
        required (C.professionals.find_unique booking.professional_id db.professionals)
          (internal "Inconsistent query result")
    throw_if (not (is_completed booking.status))
        (bad_request "Les avis ne sont possibles que sur une prestation terminee")
    session ←
        required (C.sessions.find_first (λ s. s.booking_id == booking.id) db.sessions)
          (not_found "Session d'avis non trouvee")
    throw_if (ltb session.expires_at now)
        (bad_request "La fenetre de soumission de 48h est expirée")
    throw_if (is_some session.revealed_at) (bad_request "Les avis ont déjà été révélés")
    throw_if
        (not (booking.client_id == command.reviewer_id)
          && not (professional.user_id == command.reviewer_id))
        (bad_request "Vous nêtes pas concerné par cette réservation")
    check_first command (record {
      booking = booking;
      user_id = professional.user_id;
      session = session;
      reviews = C.reviews.find_many (λ r. r.session_id == session.id) db.reviews;
    })

  abbrev pub submitted : ℕ → ℕ → SubmitCommand → Submission → Store C → ℕ × Store C
  submitted now later command sub db =
      let made = C.reviews.create (new_review now command sub) db.reviews in
      let after = record db { reviews = made.1 } in
      (
        made.0.id,
        if both_submitted (sub.reviews ++ made.0 ∷ [])
            then reveal_session C later sub.session.id sub.booking.professional_id after
            else after,
      )

  unfoldable pub submit_review : ℕ → ℕ → SubmitCommand → Store C → Result (ℕ × Store C)
  submit_review now later command db = do
    sub ← check_submission now command db
    ok (submitted now later command sub db)
