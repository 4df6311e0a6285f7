-- ===== src/Review/Effects/Expiring.antt =====
-- The run of the scheduler: a sequence of writes, which stamps exactly the sessions that are over.
use api_v.Base.{
  ℕ, ◌≡◌, refl, sym, ap, ◌∙◌, true, false, not, ◌&&◌, ◌||◌, is_some, leb, Option, none, some, List,
  [], ◌∷◌, map, any, Every, if◌then◌else◌, ◌==◌, some_injective, arith,
}
use api_v.Database.{changed_if}
use api_v.Database.Queries.{find_many_key}
use api_v.Review.{Review, ReviewSession, Client, Store, IsLawfulClient, is_live_of, revealed}
use api_v.Review.Expiry.{is_expired, expired_sessions, reveal_one, reveal_all, reveal_expired}
use api_v.Review.Effects.{Effects, done, and_then}
use api_v.Review.Effects.Filed.{IsFiled}
use api_v.Review.Effects.Turns.{IsReady, turn-Effect, turn-sessions, keeps-Ready}

module _ (C : Client) (lawful : IsLawfulClient C) (now : ℕ) where
  loop-Effects :
      (entries : List (ReviewSession × List Review)) (start db : Store C)
      → Effects C start db
      → Every (IsReady C db) entries
      → Effects C start (reveal_all C now entries db)
  loop-Effects [] start db before all = before
  loop-Effects ((s, reviews) ∷ rest) start db before all =
      loop-Effects rest start (reveal_one C now s reviews db)
        (and_then before (turn-Effect C lawful now db s reviews all.0))
        (keeps-Ready C lawful now db s reviews rest all.0 all.1)

  loop-sessions :
      (entries : List (ReviewSession × List Review)) (db : Store C) (j : ℕ)
      → Every (IsReady C db) entries
      → C.sessions.find_unique j (reveal_all C now entries db).sessions
        ≡ changed_if
            (λ x. any (λ e. e.0.id == x.id) entries)
            (revealed now)
            (C.sessions.find_unique j db.sessions)
  loop-sessions [] db j all = unchanged (C.sessions.find_unique j db.sessions)
    where
      unchanged : (o : Option ReviewSession) → o ≡ changed_if (λ x. false) (revealed now) o
      unchanged none = refl
      unchanged (some x) = refl
  loop-sessions ((s, reviews) ∷ rest) db j all =
      loop-sessions rest (reveal_one C now s reviews db) j
        (keeps-Ready C lawful now db s reviews rest all.0 all.1)
      ∙ ap (changed_if (λ x. any (λ e. e.0.id == x.id) rest) (revealed now))
          (turn-sessions C lawful now db s reviews j all.0)
      ∙ both (C.sessions.find_unique j db.sessions)
    where
      both :
          (o : Option ReviewSession)
          → changed_if
              (λ x. any (λ e. e.0.id == x.id) rest)
              (revealed now)
              (changed_if (λ x. x.id == s.id) (revealed now) o)
            ≡ changed_if (λ x. s.id == x.id || any (λ e. e.0.id == x.id) rest) (revealed now) o
      both none = refl
      both (some x) = ground arith

  entry-IsReady :
      (db : Store C) (s : ReviewSession) (reviews : List Review)
      → IsFiled C db
      → C.sessions.find_unique s.id db.sessions ≡ some s
      → ((i : ℕ) (r : Review)
          → C.reviews.find_unique i db.reviews ≡ some r
          → is_live_of s.id r ≡ true
          → any (λ q. q.id == i) reviews ≡ true)
      → Every
          (λ r. (is_live_of s.id r ≡ true) × (C.reviews.find_unique r.id db.reviews ≡ some r))
          reviews
      → IsReady C db (s, reviews)
  unfolding IsFiled
  entry-IsReady db s [] filed h all passes = record {
    stored = s;
    session = h;
    none_live = λ i r k same. ground (arith, all i r k);
  }
  entry-IsReady db s (r ∷ reviews) filed h all passes =
      let v = filed r.id r passes.0.1 in
      let same_session : v.session ≡ s = some_injective (
        sym v.stored ∙ ap (λ i. C.sessions.find_unique i db.sessions) (live_of r passes.0.0) ∙ h) in
      record {
        stored = s;
        session = h;
        found = v.booking;
        booking =
            ap (λ i. C.bookings.find_unique i db.bookings)
              (ap (λ s. s.booking_id) (sym same_session) ∙ v.same_booking)
            ∙ v.found;
        same_professional = v.same_professional;
        rated = v.rated;
        professional = v.professional;
      }
    where
      live_of : (r : Review) → is_live_of s.id r ≡ true → r.session_id ≡ s.id
      live_of r e = ground arith

  all-IsReady :
      (db : Store C) (sessions : List ReviewSession)
      → IsFiled C db
      → Every
          (λ s. (is_expired now s ≡ true) × (C.sessions.find_unique s.id db.sessions ≡ some s))
          sessions
      → Every
          (IsReady C db)
          (map (λ s. (s, C.reviews.find_many (is_live_of s.id) db.reviews)) sessions)
  all-IsReady db [] filed all = tt
  all-IsReady db (s ∷ sessions) filed all = (
    entry-IsReady db s (C.reviews.find_many (is_live_of s.id) db.reviews) filed all.0.1
        (λ i r k e. lawful.reviews.find_many_all (is_live_of s.id) db.reviews i r k e)
        (lawful.reviews.find_many_passes (is_live_of s.id) db.reviews),
    all-IsReady db sessions filed all.1,
  )

  -- The scheduler is a sequence of the writes, where the reviews are filed.
  pub reveal_expired-Effects :
      (db : Store C) → IsFiled C db → Effects C db (reveal_expired C now db)
  unfolding reveal_expired
  reveal_expired-Effects db filed = loop-Effects (expired_sessions C now db) db db done (
      all-IsReady db (C.sessions.find_many (is_expired now) db.sessions) filed
        (lawful.sessions.find_many_passes (is_expired now) db.sessions))

  -- Where the reviews are filed, a run of the scheduler stamps exactly the sessions that expire no
  -- later than the date of the run and were not revealed, with that date, and leaves every other
  -- session as it was.
  pub sessions-reveal_expired :
      (db : Store C) (j : ℕ)
      → IsFiled C db
      → C.sessions.find_unique j (reveal_expired C now db).sessions
        ≡ changed_if
            (λ s. leb s.expires_at now && not (is_some s.revealed_at))
            (λ s. record s { revealed_at = some now })
            (C.sessions.find_unique j db.sessions)
  unfolding reveal_expired
  sessions-reveal_expired db j filed =
      loop-sessions (expired_sessions C now db) db j (
        all-IsReady db (C.sessions.find_many (is_expired now) db.sessions) filed
          (lawful.sessions.find_many_passes (is_expired now) db.sessions))
      ∙ same (C.sessions.find_unique j db.sessions) refl
    where
      any-map :
          (x : ReviewSession) (rows : List ReviewSession)
          → any
              (λ (e : ReviewSession × List Review). e.0.id == x.id)
              (map (λ s. (s, C.reviews.find_many (is_live_of s.id) db.reviews)) rows)
            ≡ any (λ s. s.id == x.id) rows
      any-map x [] = refl
      any-map x (s ∷ rows) = ap (λ b. (s.id == x.id) || b) (any-map x rows)

      same :
          (o : Option ReviewSession)
          → C.sessions.find_unique j db.sessions ≡ o
          → changed_if (λ x. any (λ e. e.0.id == x.id) (expired_sessions C now db)) (revealed now) o
            ≡ changed_if (is_expired now) (revealed now) o
      same none h = refl
      same (some x) h =
          ap (λ b. if b then some (revealed now x) else some x)
            (any-map x (C.sessions.find_many (is_expired now) db.sessions)
              ∙ ap (λ i. any (λ s. s.id == i) (C.sessions.find_many (is_expired now) db.sessions))
                  (lawful.sessions.find_unique_key j db.sessions x h)
              ∙ find_many_key (λ s. s.id) C.sessions lawful.sessions (is_expired now) db.sessions j
                  x h)
