-- ===== src/Review/Editing.antt =====
-- src/modules/review/interface/handlers/edit-review.handler.ts: `EditReviewHandler`.
use api_v.Base.{
  ℕ, true, not, ◌&&◌, ◌||◌, Option, is_some, or_else, Text, ltb, ◌==◌, Result, ok, not_found,
  bad_request, forbidden, internal, throw_if, required, ◌>>=◌, ◌>>◌,
}
use api_v.Review.{Review, Client, Store, is_live}

pub record EditCommand : Type 0 where
  pub review_id : ℕ
  pub reviewer_id : ℕ
  pub rating : ℕ
  pub comment : Option Text

-- The data of the update, written into a row: a comment that is left out keeps the old one.
abbrev pub edited : EditCommand → Review → Review
edited command r = record r {
  rating = command.rating;
  comment = or_else command.comment r.comment;
  is_edited = true;
}

module _ (C : Client) where
  unfoldable pub edit_review : ℕ → EditCommand → Store C → Result (Store C)
  edit_review now command db = do
    review ←
        required (C.reviews.find_first (λ r. r.id == command.review_id && is_live r) db.reviews)
          (not_found "Avis non trouvé")
    session ←
        required (C.sessions.find_unique review.session_id db.sessions)
          (internal "Inconsistent query result")
    throw_if (not (review.reviewer_id == command.reviewer_id))
        (forbidden "Vous ne pouvez modifier que vos propres avis")
    throw_if review.is_edited (bad_request "Un avis ne peut être modifié qu'une seule fois")
    throw_if (ltb review.editable_until now)
        (bad_request "La fenêtre de modification de 30 minutes est expirée")
    throw_if (review.is_visible || is_some session.revealed_at)
        (bad_request "Les avis ont été révélés, toute modification est verrouillée")
    ok (record db { reviews = C.reviews.update review.id (edited command) db.reviews })
