-- ===== src/Review/Effects/Filed.antt =====
-- Every review is filed under the professional of its session's booking.
use api_v.Base.{ℕ, ◌≡◌, inl, inr, refl, sym, ap, subst, ◌∙◌, some, ◌==◌, if◌then◌else◌, arith}
use api_v.Database.{changed_if}
use api_v.Database.Writes.{
  changed_from, find_unique-update_if, find_unique-create_cases, create-keeps,
}
use api_v.Booking.{Booking}
use api_v.Review.{
  Review, ReviewSession, RatedRow, summarised, Client, Store, IsLawfulClient, is_live_of, visible,
  revealed, reveal_session,
}
use api_v.Review.Editing.{EditCommand, edited}
use api_v.Review.Effects.{Effect, adds, edits, reveals, closes, opens, notes}

-- A review is filed: its session is there, it is of the review's booking, and the booking's
-- professional is the review's and is there.
pub record IsFiledAs (C : Client) (db : Store C) (r : Review) : Type 0 where
  pub session : ReviewSession
  pub stored : C.sessions.find_unique r.session_id db.sessions ≡ some session
  pub same_booking : session.booking_id ≡ r.booking_id
  pub booking : Booking
  pub found : C.bookings.find_unique r.booking_id db.bookings ≡ some booking
  pub same_professional : booking.professional_id ≡ r.professional_id
  pub rated : RatedRow C.Number
  pub professional : C.professionals.find_unique r.professional_id db.professionals ≡ some rated

unfoldable pub IsFiled : (C : Client) → Store C → Type 0
IsFiled C db = (i : ℕ) (r : Review) → C.reviews.find_unique i db.reviews ≡ some r → IsFiledAs C db r

module _ (C : Client) (lawful : IsLawfulClient C) where
  -- A review stays filed where its session is there with the same booking.
  refiled :
      (db after : Store C) (r q : Review)
      → IsFiledAs C db r
      → q.session_id ≡ r.session_id
      → q.booking_id ≡ r.booking_id
      → q.professional_id ≡ r.professional_id
      → after.bookings ≡ db.bookings
      → ((s : ReviewSession)
          → C.sessions.find_unique r.session_id db.sessions ≡ some s
          → (t : ReviewSession) × (C.sessions.find_unique r.session_id after.sessions ≡ some t)
            × (t.booking_id ≡ s.booking_id))
      → ((p : RatedRow C.Number)
          → C.professionals.find_unique r.professional_id db.professionals ≡ some p
          → (o : RatedRow C.Number) × (C.professionals.find_unique r.professional_id
                after.professionals
              ≡ some o))
      → IsFiledAs C after q
  refiled db after r q v e f g b keeps keeps_rated =
      let (t, u, w) = keeps v.session v.stored in
      let (o, k) = keeps_rated v.rated v.professional in
      record {
        session = t;
        stored = ap (λ i. C.sessions.find_unique i after.sessions) e ∙ u;
        same_booking = w ∙ v.same_booking ∙ sym f;
        booking = v.booking;
        found =
            ap (λ i. C.bookings.find_unique i after.bookings) f
            ∙ ap (C.bookings.find_unique r.booking_id) b
            ∙ v.found;
        same_professional = v.same_professional ∙ sym g;
        rated = o;
        professional = ap (λ i. C.professionals.find_unique i after.professionals) g ∙ k;
      }

  -- A stamped session is there with its booking.
  pub revealed-keeps :
      (now : ℕ) (i j : ℕ) (db : Store C) (found s : ReviewSession)
      → C.sessions.find_unique i db.sessions ≡ some found
      → C.sessions.find_unique j db.sessions ≡ some s
      → (t : ReviewSession) × (C.sessions.find_unique j
            (C.sessions.update i (revealed now) db.sessions)
          ≡ some t)
        × (t.booking_id ≡ s.booking_id)
  revealed-keeps now i j db found s h k = (
    if s.id == i then revealed now s else s,
    find_unique-update_if (λ s. s.id) C.sessions lawful.sessions i (revealed now) db.sessions found
          j h (λ x. refl)
        ∙ ap (changed_if (λ x. x.id == i) (revealed now)) k
        ∙ ground arith,
    ground arith,
  )

  -- A rated professional is there.
  pub rated-keeps :
      (i j : ℕ) (reviews : C.reviews.State) (db : Store C) (found p : RatedRow C.Number)
      → C.professionals.find_unique i db.professionals ≡ some found
      → C.professionals.find_unique j db.professionals ≡ some p
      → (o : RatedRow C.Number) × (C.professionals.find_unique j
            (C.professionals.update i (summarised C i reviews) db.professionals)
          ≡ some o)
  rated-keeps i j reviews db found p h k = (
    if p.id == i then summarised C i reviews p else p,
    find_unique-update_if (λ p. p.id) C.professionals lawful.professionals i
          (summarised C i reviews) db.professionals found j h (λ x. refl)
        ∙ ap (changed_if (λ x. x.id == i) (summarised C i reviews)) k
        ∙ ground arith,
  )

  -- The row that an edit has left comes from a row.
  pub edited_from :
      (db : Store C) (command : EditCommand) (r : Review) (i : ℕ) (q : Review)
      → C.reviews.find_unique r.id db.reviews ≡ some r
      → C.reviews.find_unique i (C.reviews.update r.id (edited command) db.reviews) ≡ some q
      → (p : Review) × (C.reviews.find_unique i db.reviews ≡ some p)
        × (q ≡ (if p.id == r.id then edited command p else p))
  edited_from db command r i q u h =
      changed_from (λ p. p.id == r.id) (edited command) _ q
        (sym (
            find_unique-update_if (λ r. r.id) C.reviews lawful.reviews r.id (edited command)
              db.reviews r i u (λ x. refl))
          ∙ h)

  -- So does a row that a reveal has left.
  pub shown_from :
      (db : Store C) (session_id i : ℕ) (q : Review)
      → C.reviews.find_unique i (C.reviews.update_many (is_live_of session_id) visible db.reviews)
        ≡ some q
      → (p : Review) × (C.reviews.find_unique i db.reviews ≡ some p)
        × (q ≡ (if is_live_of session_id p then visible p else p))
  shown_from db session_id i q h = changed_from (is_live_of session_id) visible _ q (
      sym (
        lawful.reviews.find_unique-update_many (is_live_of session_id) visible db.reviews i
          (λ x. refl))
      ∙ h)

  -- Whatever is written, the reviews stay filed.
  pub Effect-IsFiled : {db after : Store C} → Effect C db after → IsFiled C db → IsFiled C after
  unfolding IsFiled reveal_session
  Effect-IsFiled {db} (adds now command sub v) filed i q h =
      elim (find_unique-create_cases (λ r. r.id) C.reviews lawful.reviews _ db.reviews i q
        (λ i. refl) h) [
          | inl (e, _) ↦ subst (IsFiledAs C _) (sym e) (record {
            session = sub.session;
            stored = v.session;
            same_booking = v.same_booking;
            booking = sub.booking;
            found = v.booking;
            same_professional = refl;
            rated = v.rated;
            professional = v.professional;
          })
          | inr u ↦
              refiled db _ q q (filed i q u) refl refl refl refl (λ s k. (s, k, refl))
                (λ p k. (p, k))
        ]
  Effect-IsFiled {db} (edits command r u w x) filed i q h =
      let (p, k, e) = edited_from db command r i q u h in
      refiled db _ p q (filed i p k) (ground arith) (ground arith) (ground arith) refl
        (λ s k. (s, k, refl)) (λ p k. (p, k))
  Effect-IsFiled {db} (reveals now s pid v) filed i q h =
      let (p, k, e) = shown_from db s.id i q h in
      refiled db _ p q (filed i p k) (ground arith) (ground arith) (ground arith) refl
        (λ t k. revealed-keeps now s.id p.session_id db v.stored t v.session k)
        (λ o k. rated-keeps pid p.professional_id _ db v.rated o v.professional k)
  Effect-IsFiled {db} (closes now s stored u w) filed i q h =
      refiled db _ q q (filed i q h) refl refl refl refl
        (λ t k. revealed-keeps now s.id q.session_id db stored t u k) (λ p k. (p, k))
  Effect-IsFiled {db} (opens now booking_id) filed i q h =
      refiled db _ q q (filed i q h) refl refl refl refl
        (λ t k. (
          t,
          create-keeps (λ s. s.id) C.sessions lawful.sessions _ db.sessions q.session_id t
              (λ i. refl) k,
          refl,
        ))
        (λ p k. (p, k))
  Effect-IsFiled {db} (notes events) filed i q h =
      refiled db _ q q (filed i q h) refl refl refl refl (λ s k. (s, k, refl)) (λ p k. (p, k))
