-- ===== src/Review/Effects/Summed.antt =====
-- The rating and the number of reviews of every professional are the aggregate over the reviews of
-- clients that can be seen.
use api_v.Base.{
  ℕ, ◌≡◌, ◌≢◌, inl, inr, refl, sym, ap, subst, ◌∙◌, true, Option, none, some, get_or_else, ◌==◌,
  ==_iff, Bool-cases, some_injective, arith,
}
use api_v.Database.{passing, changed_if}
use api_v.Database.Writes.{passing-create, passing-update}
use api_v.Review.{
  Review, ReviewSession, RatedRow, Client, Store, IsLawfulClient, is_live_of, is_counted, visible,
  mean, rating_sum, review_total, summarised, reveal_session,
}
use api_v.Review.Effects.{IsSessionOf, Effect, adds, edits, reveals, closes, opens, notes}
use api_v.Review.Effects.Filed.{IsFiled, IsFiledAs}

-- The columns of a professional are the aggregate over a state of the table of reviews.
pub record IsAggregate (C : Client) (reviews : C.reviews.State) (i : ℕ) (p : RatedRow C.Number)
    : Type 0 where
  pub count : p.review_count ≡ review_total C i reviews
  pub rating :
      p.rating
      ≡ get_or_else
          (mean C.average (rating_sum C i reviews) (review_total C i reviews))
          C.zero_rating

unfoldable pub IsSummed : (C : Client) → Store C → Type 0
IsSummed C db =
    (i : ℕ) (p : RatedRow C.Number)
    → C.professionals.find_unique i db.professionals ≡ some p
    → IsAggregate C db.reviews i p

module _ (C : Client) (lawful : IsLawfulClient C) where
  -- The aggregate looks at the counted rows only.
  kept :
      (s t : C.reviews.State) (i : ℕ) (p : RatedRow C.Number)
      → ((j : ℕ)
          → passing (is_counted i) (C.reviews.find_unique j s)
            ≡ passing (is_counted i) (C.reviews.find_unique j t))
      → IsAggregate C s i p
      → IsAggregate C t i p
  kept s t i p same v =
      let sums = lawful.reviews.find_many_total (is_counted i) (λ r. r.rating) s t same in
      let counts = lawful.reviews.find_many_total (is_counted i) (λ r. 1) s t same in
      record {
        count = v.count ∙ counts;
        rating =
            v.rating
            ∙ ap (λ n. get_or_else (mean C.average n (review_total C i s)) C.zero_rating) sums
            ∙ ap (λ n. get_or_else (mean C.average (rating_sum C i t) n) C.zero_rating) counts;
      }

  -- A reveal does not touch the reviews of another professional.
  shown_of_other :
      (session_id professional_id i : ℕ) (o : Option Review)
      → ((r : Review)
          → o ≡ some r
          → is_live_of session_id r ≡ true
          → r.professional_id ≡ professional_id)
      → i ≢ professional_id
      → passing (is_counted i) o
        ≡ passing (is_counted i) (changed_if (is_live_of session_id) visible o)
  shown_of_other session_id professional_id i none of n = refl
  shown_of_other session_id professional_id i (some r) of n =
      elim (Bool-cases (is_live_of session_id r)) [
        | inl e ↦ rw e (ground (arith, of r refl e))
        | inr e ↦ rw e refl
      ]

  -- A filed review of a session is of the professional of its booking.
  pub of_session :
      (db : Store C) (s : ReviewSession) (professional_id : ℕ) (r : Review)
      → IsFiledAs C db r
      → IsSessionOf C db s professional_id
      → r.session_id ≡ s.id
      → r.professional_id ≡ professional_id
  of_session db s professional_id r v w e =
      let same_session : v.session ≡ w.stored =
        some_injective
          (sym v.stored ∙ ap (λ i. C.sessions.find_unique i db.sessions) e ∙ w.session) in
      let same_booking : v.booking ≡ w.found = some_injective (
        sym v.found
        ∙ ap (λ i. C.bookings.find_unique i db.bookings)
            (sym v.same_booking ∙ ap (λ s. s.booking_id) same_session)
        ∙ w.booking) in
      sym v.same_professional ∙ ap (λ b. b.professional_id) same_booking ∙ w.same_professional

  -- Whatever is written, the columns of the professionals stay the aggregates.
  pub Effect-IsSummed :
      {db after : Store C} → Effect C db after → IsFiled C db → IsSummed C db → IsSummed C after
  unfolding IsFiled IsSummed reveal_session
  Effect-IsSummed {db} (adds now command sub v) filed summed i p h =
      kept db.reviews _ i p
        (λ j.
          passing-create (λ r. r.id) C.reviews lawful.reviews (is_counted i) _ db.reviews j
            (λ i. refl) (λ k. ground arith))
        (summed i p h)
  Effect-IsSummed {db} (edits command r u w x) filed summed i p h =
      kept db.reviews _ i p
        (λ j.
          passing-update (λ r. r.id) C.reviews lawful.reviews (is_counted i) _ db.reviews r.id r j u
            refl (ground arith) (ground arith))
        (summed i p h)
  Effect-IsSummed {db} (reveals now s pid v) filed summed i p h = elim (Bool-cases (pid == i)) [
    | inl e ↦
        subst
          (λ k.
            C.professionals.find_unique k (reveal_session C now s.id pid db).professionals ≡ some p
            → IsAggregate C (reveal_session C now s.id pid db).reviews k p)
          ((==_iff pid i).0 e)
          (λ k.
            subst (IsAggregate C _ pid)
              (some_injective (
                sym (
                  lawful.professionals.find_unique-update pid (summarised C pid _) db.professionals
                    v.rated v.professional
                    (lawful.professionals.find_unique_key pid db.professionals v.rated
                      v.professional))
                ∙ k))
              (record { count = refl; rating = refl }))
          h
    | inr e ↦
        kept db.reviews _ i p
          (λ j.
            shown_of_other s.id pid i (C.reviews.find_unique j db.reviews)
              (λ r k t. of_session db s pid r (filed j r k) v (ground arith)) (ground arith)
            ∙ ap (passing (is_counted i)) (
                sym (
                  lawful.reviews.find_unique-update_many (is_live_of s.id) visible db.reviews j
                    (λ x. refl))))
          (summed i p (
            sym (
              lawful.professionals.find_unique-update_ne pid i (summarised C pid _) db.professionals
                (ground arith))
            ∙ h))
  ]
  Effect-IsSummed {db} (closes now s stored u none_live) filed summed i p h = summed i p h
  Effect-IsSummed {db} (opens now booking_id) filed summed i p h = summed i p h
  Effect-IsSummed {db} (notes events) filed summed i p h = summed i p h
