-- ===== src/Booking/Decisions/Allowed.antt =====
-- When the handlers return, in terms of the row under the key of the command alone.
use api_v.Base.{
  ℕ, ◌≡◌, refl, ◌∙◌, Bool, true, false, not, ◌&&◌, ◌||◌, Option, none, some, is_some, Text, Result,
  ok, err, Exception, bad_request, throw_if, required, ◌>>=◌, ◌>>◌, ◌==◌, arith,
}
use api_v.Database.{passing}
use api_v.Database.Keys.{find_first_key}
use api_v.Booking.{
  Client, Store, IsLawfulClient, Booking, is_pending, is_confirmed, is_request_pending,
}
use api_v.Booking.Creation.{asked, request_cancellation}
use api_v.Booking.Decisions.{
  is_cancellable, as_cancelled, as_approved, as_refused, updated, confirm, reject, complete, cancel,
  approve_cancellation, reject_cancellation, mark_no_show,
}

abbrev pub returns {ℓ} : {V : Type ℓ} → Result V → Bool
returns (ok _) = true
returns (err _) = false

-- Whether the row that was looked up is there and passes a test.
abbrev pub holds_of : (Booking → Bool) → Option Booking → Bool
holds_of t none = false
holds_of t (some b) = t b

-- The row is not deleted, is the professional's own, and passes a test.
abbrev pub is_own : ℕ → (Booking → Bool) → Booking → Bool
is_own professional_id t b =
    (b.professional_id == professional_id && not (is_some b.deleted_at)) && t b

abbrev pub has_open_request : Booking → Bool
has_open_request b = is_confirmed b.status && is_request_pending b.cancellation_request_status

module _ {V : Type 0} (o : Option Booking) (p t : Booking → Bool) (e e' : Exception)
    (k : Booking → V) where
  -- A handler with one test after its query.
  tested :
      returns (required (passing p o) e >>= λ b. (throw_if (not (t b)) e' >> ok (k b)))
      ≡ holds_of (λ b. p b && t b) o
  tested =
      elim o
        as (λ o.
          returns (required (passing p o) e >>= λ b. (throw_if (not (t b)) e' >> ok (k b)))
          ≡ holds_of (λ b. p b && t b) o) [ none ↦ refl | some b ↦ ground arith ]

  -- A handler with two tests after its query.
  tested_twice :
      (u : Booking → Bool) (e'' : Exception)
      → returns (
          required (passing p o) e >>= λ b.
          (throw_if (not (t b)) e' >> (throw_if (not (u b)) e'' >> ok (k b))))
        ≡ holds_of (λ b. p b && (t b && u b)) o
  tested_twice u e'' =
      elim o
        as (λ o.
          returns (
            required (passing p o) e >>= λ b.
            (throw_if (not (t b)) e' >> (throw_if (not (u b)) e'' >> ok (k b))))
          ≡ holds_of (λ b. p b && (t b && u b)) o) [ none ↦ refl | some b ↦ ground arith ]

-- Two tests that agree on every row agree on the row that was looked up.
holds_of_same :
    (t u : Booking → Bool) (o : Option Booking)
    → ((b : Booking) → t b ≡ u b)
    → holds_of t o ≡ holds_of u o
holds_of_same t u none h = refl
holds_of_same t u (some b) h = h b

-- A handler that throws if one of two tests holds.
refused_by :
    {V : Type 0} (p t u : Booking → Bool) (e e' e'' : Exception) (k : Booking → V)
    (o : Option Booking)
    → returns
        (required (passing p o) e >>= λ b. (throw_if (t b) e' >> (throw_if (u b) e'' >> ok (k b))))
      ≡ holds_of (λ b. p b && not (t b) && not (u b)) o
refused_by p t u e e' e'' k none = refl
refused_by p t u e e' e'' k (some b) = ground arith

module _ (C : Client) (lawful : IsLawfulClient C) (db : Store C) (now booking_id : ℕ) where
  -- The handlers of the professional return exactly where the row under the key of the command is
  -- there, is not deleted, is that professional's and is, for a confirmation and a rejection,
  -- pending, for a completion and an absence, confirmed, and for the two answers to a request of
  -- cancellation, confirmed with an open request. In every other case they throw.
  pub decisions_return :
      (professional_id : ℕ) (reason : Option Text)
      → (returns (confirm C now booking_id professional_id db)
          ≡ holds_of
              (is_own professional_id (λ b. is_pending b.status))
              (C.bookings.find_unique booking_id db.bookings))
        × (returns (reject C now booking_id professional_id reason db)
            ≡ holds_of
                (is_own professional_id (λ b. is_pending b.status))
                (C.bookings.find_unique booking_id db.bookings))
        × (returns (complete C booking_id professional_id db)
            ≡ holds_of
                (is_own professional_id (λ b. is_confirmed b.status))
                (C.bookings.find_unique booking_id db.bookings))
        × (returns (mark_no_show C booking_id professional_id db)
            ≡ holds_of
                (is_own professional_id (λ b. is_confirmed b.status))
                (C.bookings.find_unique booking_id db.bookings))
        × (returns (approve_cancellation C now booking_id professional_id db)
            ≡ holds_of
                (is_own professional_id has_open_request)
                (C.bookings.find_unique booking_id db.bookings))
        × (returns (reject_cancellation C now booking_id professional_id reason db)
            ≡ holds_of
                (is_own professional_id has_open_request)
                (C.bookings.find_unique booking_id db.bookings))
  unfolding confirm reject complete mark_no_show approve_cancellation reject_cancellation
  decisions_return professional_id reason =
      rw
        (find_first_key (λ b. b.id) C.bookings lawful.bookings booking_id
          (λ b.
            b.id == booking_id
            && b.professional_id == professional_id
            && not (is_some b.deleted_at))
          (λ b. b.professional_id == professional_id && not (is_some b.deleted_at)) db.bookings
          (λ b. ground arith))
        (
          tested (row db) _ _ _ _ _,
          tested (row db) _ _ _ _ _,
          tested (row db) _ _ _ _ _,
          tested (row db) _ _ _ _ _,
          tested_twice (row db) _ (λ b. is_confirmed b.status) _
              (bad_request
                "Seules les reservations confirmees peuvent recevoir une validation d'annulation")
              (λ b. updated C b (as_approved now) db)
              (λ b. is_request_pending b.cancellation_request_status)
              (bad_request "Aucune demande d'annulation en attente pour cette reservation"),
          tested_twice (row db) _ (λ b. is_confirmed b.status) _
              (bad_request
                "Seules les reservations confirmees peuvent recevoir un refus d'annulation")
              (λ b. updated C b (as_refused now reason) db)
              (λ b. is_request_pending b.cancellation_request_status)
              (bad_request "Aucune demande d'annulation en attente pour cette reservation"),
        )
    where
      row : Store C → Option Booking
      row d = C.bookings.find_unique booking_id d.bookings

  -- A cancellation returns exactly where the row under the key is there, is not deleted, is the
  -- user's as its client or as its professional, and is pending or confirmed; a client's request of
  -- cancellation exactly where the row is there, is not deleted, is that client's, is confirmed, and
  -- has no open request.
  pub cancellations_return :
      (user_id : ℕ) (reason : Option Text)
      → (returns (cancel C now booking_id user_id reason db)
          ≡ holds_of
              (λ b.
                not (is_some b.deleted_at)
                && (b.client_id == user_id || b.professional_id == user_id)
                && (is_pending b.status || is_confirmed b.status))
              (C.bookings.find_unique booking_id db.bookings))
        × (returns (request_cancellation C now booking_id user_id reason db)
            ≡ holds_of
                (λ b.
                  not (is_some b.deleted_at)
                  && b.client_id == user_id
                  && is_confirmed b.status
                  && not (is_request_pending b.cancellation_request_status))
                (C.bookings.find_unique booking_id db.bookings))
  unfolding cancel request_cancellation
  cancellations_return user_id reason =
      rw
        (
          find_first_key (λ b. b.id) C.bookings lawful.bookings booking_id
              (λ b. b.id == booking_id && not (is_some b.deleted_at))
              (λ b. not (is_some b.deleted_at)) db.bookings (λ b. ground arith),
          find_first_key (λ b. b.id) C.bookings lawful.bookings booking_id
              (λ b. b.id == booking_id && b.client_id == user_id && not (is_some b.deleted_at))
              (λ b. b.client_id == user_id && not (is_some b.deleted_at)) db.bookings
              (λ b. ground arith),
        )
        (
          refused_by (λ b. not (is_some b.deleted_at))
                (λ b. not (b.client_id == user_id) && not (b.professional_id == user_id))
                (λ b. not (is_cancellable b)) _
                (bad_request "Vous ne pouvez pas annuler cette reservation")
                (bad_request "Cette reservation ne peut plus etre annulee")
                (λ b. updated C b (as_cancelled now reason) db) row
              ∙ holds_of_same _ _ row (λ b. ground arith),
          refused_by (λ b. b.client_id == user_id && not (is_some b.deleted_at))
                (λ b. not (is_confirmed b.status))
                (λ b. is_request_pending b.cancellation_request_status) _
                (bad_request
                  "Une demande d'annulation est possible uniquement pour une reservation confirmee")
                (bad_request "Une demande d'annulation est deja en cours")
                (λ b. (
                  asked now reason b,
                  record db { bookings = C.bookings.update b.id (asked now reason) db.bookings },
                ))
                row
              ∙ holds_of_same _ _ row (λ b. ground arith),
        )
    where
      row : Option Booking
      row = C.bookings.find_unique booking_id db.bookings
