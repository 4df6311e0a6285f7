-- ===== src/Review/Tests.antt =====
-- The handlers of reviews on a database in memory: a booking is completed, both sides write, and
-- another time only the client does; and the theorems about reviews at these databases.
use api_v.Base.{
  ℕ, ◌/◌, ◌≡◌, refl, subst, true, none, some, [], ◌∷◌, ok, codes, arith, ltb, if◌then◌else◌, ◌==◌,
}
use api_v.Database.{changed_if}
use api_v.Database.Memory.{memory, memory-IsLawful}
use api_v.Booking.{Booking, completed, request_none}
use api_v.Review.{Review, RatedRow, Client, Store, IsLawfulClient, reveal_session, revealed}
use api_v.Review.Submission.{
  SubmitCommand, Submission, check_submission, submitted, submit_review, new_review,
}
use api_v.Review.Editing.{EditCommand, edited, edit_review}
use api_v.Review.Opening.{on_completed, new_session}
use api_v.Review.Expiry.{is_expired, reveal_expired}
use api_v.Review.Effects.Filed.{IsFiled}
use api_v.Review.Effects.Blind.{IsBlind}
use api_v.Review.Effects.Summed.{IsSummed, IsAggregate}
use api_v.Review.Effects.Expiring.{sessions-reveal_expired}
use api_v.Review.Runs.{
  Reach, here, next, step_submit, step_edit, Reach-IsFiled, Reach-IsBlind, Reach-IsSummed,
}
use api_v.Review.Lasting.{IsLater, Reach-IsLater, reveal_expired-shows}

abbrev server : Client
server = record {
  Number = ℕ;
  zero_rating = 0;
  average = λ sum count. sum / count;
  bookings = memory (λ b. b.id);
  professionals = memory (λ p. p.id);
  sessions = memory (λ s. s.id);
  reviews = memory (λ r. r.id);
  cancellations = memory (λ e. e.id);
}

server-IsLawfulClient : IsLawfulClient server
server-IsLawfulClient = record {
  bookings = memory-IsLawful (λ b. b.id);
  professionals = memory-IsLawful (λ p. p.id);
  sessions = memory-IsLawful (λ s. s.id);
  reviews = memory-IsLawful (λ r. r.id);
  cancellations = memory-IsLawful (λ e. e.id);
}

abbrev visit : Booking
visit = record {
  id = 0;
  client_id = 7;
  professional_id = 0;
  service_id = 0;
  status = completed;
  scheduled_at = 1;
  duration_min = 60;
  total_price = 3500;
  travel_fee = 500;
  commune = codes "Cocody";
  address = none;
  client_notes = none;
  confirmed_at = some 0;
  cancelled_at = none;
  cancellation_note = none;
  cancellation_request_status = request_none;
  cancellation_requested_at = none;
  cancellation_reviewed_at = none;
  cancellation_request_reason = none;
  booking_services = [];
  deleted_at = none;
}

abbrev awa : RatedRow ℕ
awa = record { id = 0; user_id = 3; rating = 0; review_count = 0 }

abbrev start : Store server
start = record {
  bookings = record { size = 1; slot = λ i. some visit };
  professionals = record { size = 1; slot = λ i. some awa };
  sessions = record { size = 0; slot = λ i. none };
  reviews = record { size = 0; slot = λ i. none };
  cancellations = record { size = 0; slot = λ i. none };
}

abbrev opened : Store server
opened = record start { sessions = (server.sessions.create (new_session 5 0) start.sessions).1 }

abbrev of_client : SubmitCommand
of_client = record { booking_id = 0; reviewer_id = 7; rating = 5; comment = some (codes "Parfait") }

abbrev of_professional : SubmitCommand
of_professional = record { booking_id = 0; reviewer_id = 3; rating = 4; comment = none }

abbrev first : Submission
first = record { booking = visit; user_id = 3; session = new_session 5 0 0; reviews = [] }

abbrev with_one : Store server
with_one = (submitted server 10 10 of_client first opened).1

abbrev second : Submission
second = record first { reviews = new_review 10 of_client first 0 ∷ [] }

abbrev correction : EditCommand
correction = record { review_id = 0; reviewer_id = 7; rating = 3; comment = none }

abbrev with_edit : Store server
with_edit = record with_one {
  reviews = server.reviews.update 0 (edited correction) with_one.reviews;
}

abbrev second_after_edit : Submission
second_after_edit = record first {
  reviews = edited correction (new_review 10 of_client first 0) ∷ [];
}

abbrev with_both : Store server
with_both = (submitted server 20 21 of_professional second_after_edit with_edit).1

handlers : Unit {0}
unfolding check_submission submit_review edit_review on_completed reveal_expired reveal_session
handlers = tt

on_completed-first : on_completed server 5 0 start ≡ opened
unfolding handlers
on_completed-first = refl

submit_review-first : submit_review server 10 10 of_client opened ≡ ok (0, with_one)
unfolding handlers
submit_review-first = refl

edit_review-first : edit_review server 15 correction with_one ≡ ok with_edit
unfolding handlers
edit_review-first = refl

submit_review-second : submit_review server 20 21 of_professional with_edit ≡ ok (1, with_both)
unfolding handlers
submit_review-second = refl

-- From the session to the reveal.
run : Reach server opened with_both
run =
    next
      (next (next here (step_submit 10 10 of_client 0 with_one submit_review-first))
        (step_edit 15 correction with_edit edit_review-first))
      (step_submit 20 21 of_professional 1 with_both submit_review-second)

opened-IsFiled : IsFiled server opened
unfolding IsFiled
opened-IsFiled i r h = ground arith

opened-IsBlind : IsBlind server opened
unfolding IsBlind
opened-IsBlind i r h = ground arith

opened-IsSummed : IsSummed server opened
unfolding IsSummed
opened-IsSummed i p h =
    subst (IsAggregate server opened.reviews i) (found i h) (record { count = refl; rating = refl })
  where
    found :
        (i : ℕ) → (if ltb i 1 then (if 0 == i then some awa else none) else none) ≡ some p → awa ≡ p
    found i e = ground arith

-- The client's review alone.
one_step : Reach server opened with_one
one_step = next here (step_submit 10 10 of_client 0 with_one submit_review-first)

with_one-IsFiled : IsFiled server with_one
with_one-IsFiled =
    Reach-IsFiled server server-IsLawfulClient opened with_one one_step opened-IsFiled

Reach-IsBlind_example : IsBlind server with_both
Reach-IsBlind_example =
    Reach-IsBlind server server-IsLawfulClient opened with_both run opened-IsFiled opened-IsBlind

Reach-IsSummed_example : IsSummed server with_both
Reach-IsSummed_example =
    Reach-IsSummed server server-IsLawfulClient opened with_both run opened-IsFiled opened-IsSummed

Reach-IsLater_example :
    (q : Review) × (server.reviews.find_unique 0 with_both.reviews ≡ some q)
    × IsLater (edited correction (new_review 10 of_client first 0)) q
Reach-IsLater_example =
    Reach-IsLater server server-IsLawfulClient with_edit with_both 0
      (edited correction (new_review 10 of_client first 0))
      (next here (step_submit 20 21 of_professional 1 with_both submit_review-second))
      (Reach-IsFiled server server-IsLawfulClient opened with_edit
        (next one_step (step_edit 15 correction with_edit edit_review-first)) opened-IsFiled)
      refl

sessions-reveal_expired_example :
    server.sessions.find_unique 0 (reveal_expired server 172800005 with_one).sessions
    ≡ changed_if
        (is_expired 172800005)
        (revealed 172800005)
        (server.sessions.find_unique 0 with_one.sessions)
sessions-reveal_expired_example =
    sessions-reveal_expired server server-IsLawfulClient 172800005 with_one 0 with_one-IsFiled

reveal_expired-shows_example :
    (q : Review) × (server.reviews.find_unique 0 (reveal_expired server 172800005 with_one).reviews
      ≡ some q)
    × (q.is_visible ≡ true)
reveal_expired-shows_example =
    reveal_expired-shows server server-IsLawfulClient with_one 172800005 0
      (new_review 10 of_client first 0) (new_session 5 0 0) with_one-IsFiled
      (Reach-IsBlind server server-IsLawfulClient opened with_one one_step opened-IsFiled
        opened-IsBlind)
      refl refl refl (omega arith)
