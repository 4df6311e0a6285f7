-- ===== src/Review/Expiry.antt =====
-- src/modules/review/review.scheduler.ts: `revealExpiredSessions`, which reads the sessions that are
-- over with their reviews, and then reveals one after another.
use api_v.Base.{ℕ, Bool, not, ◌&&◌, is_some, List, [], ◌∷◌, map, leb}
use api_v.Review.{Review, ReviewSession, Client, Store, is_live_of, revealed, reveal_session}

-- `expiresAt: { lte: now }, revealedAt: null`
abbrev pub is_expired : ℕ → ReviewSession → Bool
is_expired now s = leb s.expires_at now && not (is_some s.revealed_at)

module _ (C : Client) where
  -- The query, with the live reviews of each session.
  abbrev pub expired_sessions : ℕ → Store C → List (ReviewSession × List Review)
  expired_sessions now db =
      map (λ s. (s, C.reviews.find_many (is_live_of s.id) db.reviews))
        (C.sessions.find_many (is_expired now) db.sessions)

  -- One turn of the loop.
  abbrev pub reveal_one : ℕ → ReviewSession → List Review → Store C → Store C
  reveal_one now s [] db = record db {
    sessions = C.sessions.update s.id (revealed now) db.sessions;
  }
  reveal_one now s (r ∷ _) db = reveal_session C now s.id r.professional_id db

  abbrev pub reveal_all : ℕ → List (ReviewSession × List Review) → Store C → Store C
  reveal_all now [] db = db
  reveal_all now ((s, reviews) ∷ rest) db = reveal_all now rest (reveal_one now s reviews db)

  unfoldable pub reveal_expired : ℕ → Store C → Store C
  reveal_expired now db = reveal_all now (expired_sessions now db) db
