-- ===== src/Review.antt =====
-- src/modules/review: the reviews of a booking, one from each side, which stay hidden until both
-- are there or the time is over. Here are the rows that the handlers read and write, and the calls
-- that two of them share. Dates are milliseconds since the epoch.
pub mod Submission
pub mod Editing
pub mod Opening
pub mod Expiry
pub mod Effects
pub mod Runs
pub mod Lasting
pub mod Answers
mod Tests
use api_v.Base.{
  ℕ, ◌+◌, ◌*◌, Bool, true, false, not, ◌&&◌, Option, none, some, is_some, List, Text, ◌==◌,
  get_or_else, if◌then◌else◌,
}
use api_v.Database.{Table, IsLawful, total}
use api_v.Booking.{Booking}

-- The enum `ReviewerType` of the schema.
pub data ReviewerType : Type 0 where
  by_client by_professional : ReviewerType

-- The enum `CancellationInitiator`.
pub data CancellationInitiator : Type 0 where
  of_client of_professional : CancellationInitiator

-- A row of `Review`. The dates that the database keeps by itself are left out.
pub record Review : Type 0 where
  pub id : ℕ
  pub session_id : ℕ
  pub booking_id : ℕ
  pub reviewer_type : ReviewerType
  pub reviewer_id : ℕ
  pub reviewee_id : ℕ
  pub professional_id : ℕ
  pub rating : ℕ
  pub comment : Option Text
  pub editable_until : ℕ
  pub is_edited : Bool
  pub is_visible : Bool
  pub deleted_at : Option ℕ

pub record ReviewSession : Type 0 where
  pub id : ℕ
  pub booking_id : ℕ
  pub expires_at : ℕ
  pub revealed_at : Option ℕ

pub record CancellationEvent : Type 0 where
  pub id : ℕ
  pub booking_id : ℕ
  pub initiated_by : CancellationInitiator
  pub client_id : ℕ
  pub professional_id : ℕ
  pub reason : Option Text

-- The columns of `Professional` that these handlers touch.
pub record RatedRow (Number : Type 0) : Type 0 where
  pub id : ℕ
  pub user_id : ℕ
  pub rating : Number
  pub review_count : ℕ

-- The models of the client that the handlers call. `zero_rating` is the literal 0, and `average` the
-- mean that the database forms of a sum and of a count that is not 0.
pub record Client : Type 1 where
  pub Number : Type 0
  pub zero_rating : Number
  pub average : ℕ → ℕ → Number
  pub bookings : Table Booking
  pub professionals : Table (RatedRow Number)
  pub sessions : Table ReviewSession
  pub reviews : Table Review
  pub cancellations : Table CancellationEvent

pub record Store (C : Client) : Type 0 where
  pub bookings : C.bookings.State
  pub professionals : C.professionals.State
  pub sessions : C.sessions.State
  pub reviews : C.reviews.State
  pub cancellations : C.cancellations.State

pub record IsLawfulClient (C : Client) : Type 0 where
  pub bookings : IsLawful (λ b. b.id) C.bookings
  pub professionals : IsLawful (λ p. p.id) C.professionals
  pub sessions : IsLawful (λ s. s.id) C.sessions
  pub reviews : IsLawful (λ r. r.id) C.reviews
  pub cancellations : IsLawful (λ e. e.id) C.cancellations

-- `r.reviewerType === type`
abbrev pub same_type : ReviewerType → ReviewerType → Bool
same_type by_client by_client = true
same_type by_professional by_professional = true
same_type _ _ = false

-- `deletedAt: null`
abbrev pub is_live : Review → Bool
is_live r = not (is_some r.deleted_at)

-- `where: { sessionId, deletedAt: null }`
abbrev pub is_live_of : ℕ → Review → Bool
is_live_of session_id r = r.session_id == session_id && is_live r

-- `data: { isVisible: true }`
abbrev pub visible : Review → Review
visible r = record r { is_visible = true }

-- `data: { revealedAt: now }`
abbrev pub revealed : ℕ → ReviewSession → ReviewSession
revealed now s = record s { revealed_at = some now }

-- The reviews of clients that everyone sees: the `where` clause of the aggregate.
abbrev pub is_counted : ℕ → Review → Bool
is_counted professional_id r =
    r.professional_id == professional_id
    && same_type r.reviewer_type by_client
    && r.is_visible
    && is_live r

-- `_avg: { rating: true }`: null where there is no row.
abbrev pub mean {ℓ} : {Number : Type ℓ} → (ℕ → ℕ → Number) → ℕ → ℕ → Option Number
mean average sum count = if count == 0 then none else some (average sum count)

abbrev pub rated :
    {Number : Type 0} → Number → Option Number → ℕ → RatedRow Number → RatedRow Number
rated zero_rating mean count p = record p {
  rating = get_or_else mean zero_rating;
  review_count = count;
}

module _ (C : Client) where
  abbrev pub rating_sum : ℕ → C.reviews.State → ℕ
  rating_sum professional_id reviews =
      total (λ r. r.rating) (C.reviews.find_many (is_counted professional_id) reviews)

  abbrev pub review_total : ℕ → C.reviews.State → ℕ
  review_total professional_id reviews =
      total (λ r. 1) (C.reviews.find_many (is_counted professional_id) reviews)

  -- The update of the professional with the aggregate over the reviews.
  abbrev pub summarised : ℕ → C.reviews.State → RatedRow C.Number → RatedRow C.Number
  summarised professional_id reviews =
      rated C.zero_rating
        (mean C.average (rating_sum professional_id reviews) (review_total professional_id reviews))
        (review_total professional_id reviews)

  -- The transaction of a reveal, in `SubmitReviewHandler.revealSession` and in the scheduler.
  unfoldable pub reveal_session : ℕ → ℕ → ℕ → Store C → Store C
  reveal_session now session_id professional_id db =
      let reviews = C.reviews.update_many (is_live_of session_id) visible db.reviews in
      record db {
        reviews = reviews;
        sessions = C.sessions.update session_id (revealed now) db.sessions;
        professionals =
            C.professionals.update professional_id (summarised professional_id reviews)
              db.professionals;
      }
