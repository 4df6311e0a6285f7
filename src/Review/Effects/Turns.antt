-- ===== src/Review/Effects/Turns.antt =====
-- A turn of the loop of the scheduler: it is one write, and what the later turns have read stays
-- true.
use api_v.Base.{ℕ, ◌≡◌, refl, ap, ◌∙◌, false, some, List, [], ◌∷◌, Every, ◌==◌, arith}
use api_v.Database.{changed_if}
use api_v.Database.Writes.{find_unique-update_if}
use api_v.Review.{
  Review, ReviewSession, Client, Store, IsLawfulClient, is_live, revealed, reveal_session,
}
use api_v.Review.Expiry.{reveal_one}
use api_v.Review.Effects.{IsSessionOf, Effect, reveals, closes}
use api_v.Review.Effects.Filed.{revealed-keeps, rated-keeps, shown_from}

-- A session that is there and has no live review.
pub record IsEmpty (C : Client) (db : Store C) (s : ReviewSession) : Type 0 where
  pub stored : ReviewSession
  pub session : C.sessions.find_unique s.id db.sessions ≡ some stored
  pub none_live :
      (i : ℕ) (r : Review)
      → C.reviews.find_unique i db.reviews ≡ some r
      → r.session_id ≡ s.id
      → is_live r ≡ false

-- What the loop relies on for an entry that it has read.
abbrev pub IsReady : (C : Client) → Store C → ReviewSession × List Review → Type 0
IsReady C db (s, []) = IsEmpty C db s
IsReady C db (s, r ∷ _) = IsSessionOf C db s r.professional_id

module _ (C : Client) (lawful : IsLawfulClient C) (now : ℕ) where
  pub turn-Effect :
      (db : Store C) (s : ReviewSession) (reviews : List Review)
      → IsReady C db (s, reviews)
      → Effect C db (reveal_one C now s reviews db)
  turn-Effect db s [] v = closes now s v.stored v.session v.none_live
  turn-Effect db s (r ∷ reviews) v = reveals now s r.professional_id v

  -- The sessions after a turn.
  pub turn-sessions :
      (db : Store C) (s : ReviewSession) (reviews : List Review) (j : ℕ)
      → IsReady C db (s, reviews)
      → C.sessions.find_unique j (reveal_one C now s reviews db).sessions
        ≡ changed_if (λ x. x.id == s.id) (revealed now) (C.sessions.find_unique j db.sessions)
  unfolding reveal_session
  turn-sessions db s [] j v =
      find_unique-update_if (λ s. s.id) C.sessions lawful.sessions s.id (revealed now) db.sessions
        v.stored j v.session (λ x. refl)
  turn-sessions db s (r ∷ reviews) j v =
      find_unique-update_if (λ s. s.id) C.sessions lawful.sessions s.id (revealed now) db.sessions
        v.stored j v.session (λ x. refl)

  keeps-IsEmpty :
      (db : Store C) (s t : ReviewSession) (reviews : List Review)
      → IsReady C db (s, reviews)
      → IsEmpty C db t
      → IsEmpty C (reveal_one C now s reviews db) t
  unfolding reveal_session
  keeps-IsEmpty db s t [] v w =
      let (stored, k, _) =
        revealed-keeps C lawful now s.id t.id db v.stored w.stored v.session w.session in
      record { stored = stored; session = k; none_live = w.none_live }
  keeps-IsEmpty db s t (r ∷ reviews) v w =
      let (stored, k, _) =
        revealed-keeps C lawful now s.id t.id db v.stored w.stored v.session w.session in
      record {
        stored = stored;
        session = k;
        none_live = λ i q h e.
            let (p, u, x) = shown_from C lawful db s.id i q h in ground (arith, w.none_live i p u);
      }

  keeps-IsSessionOf :
      (db : Store C) (s t : ReviewSession) (reviews : List Review) (professional_id : ℕ)
      → IsReady C db (s, reviews)
      → IsSessionOf C db t professional_id
      → IsSessionOf C (reveal_one C now s reviews db) t professional_id
  unfolding reveal_session
  keeps-IsSessionOf db s t [] pid v w =
      let (stored, k, e) =
        revealed-keeps C lawful now s.id t.id db v.stored w.stored v.session w.session in
      record {
        stored = stored;
        session = k;
        found = w.found;
        booking = ap (λ i. C.bookings.find_unique i db.bookings) e ∙ w.booking;
        same_professional = w.same_professional;
        rated = w.rated;
        professional = w.professional;
      }
  keeps-IsSessionOf db s t (r ∷ reviews) pid v w =
      let (stored, k, e) =
        revealed-keeps C lawful now s.id t.id db v.stored w.stored v.session w.session in
      let (rated, p) =
        rated-keeps C lawful r.professional_id pid _ db v.rated w.rated v.professional
          w.professional in
      record {
        stored = stored;
        session = k;
        found = w.found;
        booking = ap (λ i. C.bookings.find_unique i db.bookings) e ∙ w.booking;
        same_professional = w.same_professional;
        rated = rated;
        professional = p;
      }

  pub keeps-Ready :
      (db : Store C) (s : ReviewSession) (reviews : List Review)
      (rest : List (ReviewSession × List Review))
      → IsReady C db (s, reviews)
      → Every (IsReady C db) rest
      → Every (IsReady C (reveal_one C now s reviews db)) rest
  keeps-Ready db s reviews [] v all = tt
  keeps-Ready db s reviews ((t, []) ∷ rest) v all =
      (keeps-IsEmpty db s t reviews v all.0, keeps-Ready db s reviews rest v all.1)
  keeps-Ready db s reviews ((t, r ∷ _) ∷ rest) v all = (
    keeps-IsSessionOf db s t reviews r.professional_id v all.0,
    keeps-Ready db s reviews rest v all.1,
  )
