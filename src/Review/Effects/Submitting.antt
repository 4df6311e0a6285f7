-- ===== src/Review/Effects/Submitting.antt =====
-- The writes of a submission and of an edit, with what the handlers tested before.
use api_v.Base.{
  ℕ, ◌≡◌, ◌≤◌, ◌⊎◌, inl, inr, refl, ap, subst, ◌∙◌, Bool, true, false, not, none, some, ◌==◌,
  ==_iff, ltb, any, ◌&&◌, ◌||◌, is_some, ok, given, passed_test, first_returns, ok_injective,
  if◌then◌else◌, Bool-cases, arith,
}
use api_v.Database.Writes.{fails_if_none}
use api_v.Booking.{
  Booking, BookingStatus, pending, confirmed, rejected, cancelled, completed, no_show, is_completed,
}
use api_v.Review.{ReviewSession, RatedRow, Client, Store, IsLawfulClient, same_type, reveal_session}
use api_v.Review.Submission.{
  SubmitCommand, Submission, side_of, type_of_reviewer, has_live, check_first, check_submission,
  submitted, submit_review,
}
use api_v.Review.Editing.{EditCommand, edit_review}
use api_v.Review.Effects.{
  IsSubmissible, IsSessionOf, Effect, adds, edits, reveals, Effects, done, and_then,
}

-- The rules of a submission.
pub record IsAllowed (now : ℕ) (command : SubmitCommand) (sub : Submission) : Type 0 where
  pub asked : sub.booking.id ≡ command.booking_id
  pub live : sub.booking.deleted_at ≡ none
  pub over : sub.booking.status ≡ completed
  pub in_time : now ≤ sub.session.expires_at
  pub concerned :
      (sub.booking.client_id ≡ command.reviewer_id) ⊎ (sub.user_id ≡ command.reviewer_id)

completed_of : (s : BookingStatus) → not (is_completed s) ≡ false → s ≡ completed
completed_of completed h = refl
completed_of pending h = cc
completed_of confirmed h = cc
completed_of rejected h = cc
completed_of cancelled h = cc
completed_of no_show h = cc

check_first_returns :
    (command : SubmitCommand) (sub found : Submission)
    → check_first command sub ≡ ok found
    → (sub ≡ found)
      × (has_live (side_of command sub) sub.reviews ≡ false)
      × (any (λ r. same_type r.reviewer_type (side_of command sub)) sub.reviews ≡ false)
check_first_returns command sub found h =
    let (first, h1) = passed_test (has_live (side_of command sub) sub.reviews) _ _ h in
    let (only, h2) =
      passed_test (any (λ r. same_type r.reviewer_type (side_of command sub)) sub.reviews) _ _ h1 in
    (ok_injective h2, first, only)

one_of : (a b c : ℕ) → (not (a == c) && not (b == c)) ≡ false → (a ≡ c) ⊎ (b ≡ c)
one_of a b c h = elim (Bool-cases (a == c)) [
  | inl e ↦ inl ((==_iff a c).0 e)
  | inr e ↦ inr (ground arith)
]

module _ (C : Client) (lawful : IsLawfulClient C) (db : Store C) (now : ℕ)
    (command : SubmitCommand) where
  passed_all :
      (b : Booking) (p : RatedRow C.Number) (s : ReviewSession) (sub : Submission)
      → C.bookings.find_first
          (λ b. b.id == command.booking_id && not (is_some b.deleted_at))
          db.bookings
        ≡ some b
      → C.professionals.find_unique b.professional_id db.professionals ≡ some p
      → not (is_completed b.status) ≡ false
      → C.sessions.find_first (λ s. s.booking_id == b.id) db.sessions ≡ some s
      → ltb s.expires_at now ≡ false
      → is_some s.revealed_at ≡ false
      → (not (b.client_id == command.reviewer_id) && not (p.user_id == command.reviewer_id)) ≡ false
      → check_first command (record {
        booking = b;
        user_id = p.user_id;
        session = s;
        reviews = C.reviews.find_many (λ r. r.session_id == s.id) db.reviews;
      })
        ≡ ok sub
      → IsSubmissible C db command sub × IsAllowed now command sub
  passed_all b p s sub found rated over opened in_time hidden concerned h =
      let (same, first, only) = check_first_returns command _ sub h in
      let (is_asked, b_stored) = lawful.bookings.find_first_some _ db.bookings b found in
      let (of_booking, s_stored) = lawful.sessions.find_first_some _ db.sessions s opened in
      subst (λ sub. IsSubmissible C db command sub × IsAllowed now command sub) same
        (
          record {
            booking = b_stored;
            session = s_stored;
            same_booking = (==_iff s.booking_id b.id).0 of_booking;
            rated = p;
            professional = rated;
            hidden = ground arith;
            read = refl;
            first = first;
            only = λ i r k e.
                fails_if_none (λ r. r.id) C.reviews lawful.reviews (λ r. r.session_id == s.id)
                  (λ r.
                    same_type r.reviewer_type
                      (type_of_reviewer (b.client_id == command.reviewer_id)))
                  db.reviews i r only k ((==_iff r.session_id s.id).1 e);
          },
          record {
            asked = ground arith;
            live = ground arith;
            over = completed_of b.status over;
            in_time = ground arith;
            concerned = one_of b.client_id p.user_id command.reviewer_id concerned;
          },
        )

  -- What a submission has passed when it comes to write.
  pub check_submission-IsSubmissible :
      (sub : Submission)
      → check_submission C now command db ≡ ok sub
      → IsSubmissible C db command sub × IsAllowed now command sub
  unfolding check_submission
  check_submission-IsSubmissible sub h =
      let (b, found, h1) = given _ _ _ h in
      let (p, rated, h2) = given _ _ _ h1 in
      let (over, h3) = passed_test (not (is_completed b.status)) _ _ h2 in
      let (s, opened, h4) = given _ _ _ h3 in
      let (in_time, h5) = passed_test (ltb s.expires_at now) _ _ h4 in
      let (hidden, h6) = passed_test (is_some s.revealed_at) _ _ h5 in
      let (concerned, h7) =
        passed_test
          (not (b.client_id == command.reviewer_id) && not (p.user_id == command.reviewer_id)) _ _
          h6 in
      passed_all b p s sub found rated over opened in_time hidden concerned h7

  and_revealed :
      (both : Bool) (later : ℕ) (s : ReviewSession) (professional_id : ℕ) (wrote : Store C)
      → Effects C db wrote
      → IsSessionOf C wrote s professional_id
      → Effects C db (if both then reveal_session C later s.id professional_id wrote else wrote)
  and_revealed false later s professional_id wrote done_before v = done_before
  and_revealed true later s professional_id wrote done_before v =
      and_then done_before (reveals later s professional_id v)

  submitted-Effects :
      (later : ℕ) (sub : Submission)
      → IsSubmissible C db command sub
      → Effects C db (submitted C now later command sub db).1
  submitted-Effects later sub v =
      and_revealed _ later sub.session sub.booking.professional_id _
        (and_then done (adds now command sub v))
        (record {
          stored = sub.session;
          session = v.session;
          found = sub.booking;
          booking = ap (λ i. C.bookings.find_unique i db.bookings) v.same_booking ∙ v.booking;
          same_professional = refl;
          rated = v.rated;
          professional = v.professional;
        })

  -- A submission that returns adds the review and may then reveal the session.
  pub submit_review-Effects :
      (later id : ℕ) (after : Store C)
      → submit_review C now later command db ≡ ok (id, after)
      → Effects C db after
  unfolding submit_review
  submit_review-Effects later id after h =
      let (sub, p, w) = first_returns (check_submission C now command db) _ h in
      subst (λ o. Effects C db o.1) (ok_injective w)
        (submitted-Effects later sub (check_submission-IsSubmissible sub p).0)

module _ (C : Client) (lawful : IsLawfulClient C) (db : Store C) (now : ℕ)
    (command : EditCommand) where
  -- An edit that returns edits one review of its author, in time, hidden and not edited before.
  pub edit_review-Effect :
      (after : Store C) → edit_review C now command db ≡ ok after → Effect C db after
  unfolding edit_review
  edit_review-Effect after h =
      let (r, found, h1) = given _ _ _ h in
      let (s, opened, h2) = given (C.sessions.find_unique r.session_id db.sessions) _ _ h1 in
      let (own, h3) = passed_test (not (r.reviewer_id == command.reviewer_id)) _ _ h2 in
      let (first, h4) = passed_test r.is_edited _ _ h3 in
      let (in_time, h5) = passed_test (ltb r.editable_until now) _ _ h4 in
      let (hidden, h6) = passed_test (r.is_visible || is_some s.revealed_at) _ _ h5 in
      subst (Effect C db) (ok_injective h6) (
        edits command r (lawful.reviews.find_first_some _ db.reviews r found).1
          (or_false r.is_visible _ hidden) first)
    where
      or_false : (a b : Bool) → (a || b) ≡ false → a ≡ false
      or_false a b e = ground arith
