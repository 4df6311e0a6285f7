-- ===== src/Review/Effects/Blind.antt =====
-- A review can be seen exactly where its session has been revealed.
use api_v.Base.{
  ℕ, ◌≡◌, inl, inr, refl, sym, ap, subst, ◌∙◌, Bool, true, false, Option, none, some, is_some, ◌==◌,
  ==_iff, Bool-cases, arith,
}
use api_v.Database.{Table}
use api_v.Database.Writes.{find_unique-create_cases, create-keeps}
use api_v.Review.{
  Review, ReviewSession, Client, Store, IsLawfulClient, is_live, visible, revealed, reveal_session,
}
use api_v.Review.Effects.{Effect, adds, edits, reveals, closes, opens, notes}
use api_v.Review.Effects.Filed.{IsFiled, edited_from, shown_from}

abbrev pub is_shown : Option ReviewSession → Bool
is_shown none = false
is_shown (some s) = is_some s.revealed_at

unfoldable pub IsBlind : (C : Client) → Store C → Type 0
IsBlind C db =
    (i : ℕ) (r : Review)
    → C.reviews.find_unique i db.reviews ≡ some r
    → is_live r ≡ true
    → r.is_visible ≡ is_shown (C.sessions.find_unique r.session_id db.sessions)

seen :
    (p q : Review) (T : Table ReviewSession) (sessions : T.State)
    → q.session_id ≡ p.session_id
    → q.is_visible ≡ p.is_visible
    → p.is_visible ≡ is_shown (T.find_unique p.session_id sessions)
    → q.is_visible ≡ is_shown (T.find_unique q.session_id sessions)
seen p q T sessions e f h = f ∙ h ∙ ap (λ j. is_shown (T.find_unique j sessions)) (sym e)

module _ (C : Client) (lawful : IsLawfulClient C) where
  -- Whatever is written, live reviews can be seen exactly where their session has been revealed.
  pub Effect-IsBlind :
      {db after : Store C} → Effect C db after → IsFiled C db → IsBlind C db → IsBlind C after
  unfolding IsFiled IsBlind reveal_session
  Effect-IsBlind {db} (adds now command sub v) filed blind i q h live =
      elim (find_unique-create_cases (λ r. r.id) C.reviews lawful.reviews _ db.reviews i q
        (λ i. refl) h) [
          | inl (e, _) ↦
              subst (λ q. q.is_visible ≡ is_shown (C.sessions.find_unique q.session_id db.sessions))
                (sym e) (rw (v.session, v.hidden) refl)
          | inr u ↦ blind i q u live
        ]
  Effect-IsBlind {db} (edits command r u w x) filed blind i q h live =
      let (p, k, e) = edited_from C lawful db command r i q u h in
      seen p q (C.sessions) db.sessions (ground arith) (ground arith) (blind i p k (ground arith))
  Effect-IsBlind {db} (reveals now s pid v) filed blind i q h live =
      let (p, k, e) = shown_from C lawful db s.id i q h in
      elim (Bool-cases (p.session_id == s.id)) [
        | inl t ↦
            let stamped =
              lawful.sessions.find_unique-update s.id (revealed now) db.sessions v.stored v.session
                (lawful.sessions.find_unique_key s.id db.sessions v.stored v.session) in
            seen (visible p) q C.sessions _ (ground arith) (ground arith) (
              sym (
                ap
                  (λ j.
                    is_shown (
                      C.sessions.find_unique j (C.sessions.update s.id (revealed now) db.sessions)))
                  ((==_iff p.session_id s.id).0 t)
                ∙ ap is_shown stamped))
        | inr t ↦ seen p q C.sessions _ (ground arith) (ground arith) (
            blind i p k (ground arith)
            ∙ sym (
                ap is_shown (
                  lawful.sessions.find_unique-update_ne s.id p.session_id (revealed now) db.sessions
                    (λ e. ground (arith, sym e)))))
      ]
  Effect-IsBlind {db} (closes now s stored u none_live) filed blind i q h live =
      blind i q h live
      ∙ sym (
          ap is_shown (
            lawful.sessions.find_unique-update_ne s.id q.session_id (revealed now) db.sessions
              (λ e. ground (arith, none_live i q h (sym e)))))
  Effect-IsBlind {db} (opens now booking_id) filed blind i q h live =
      blind i q h live
      ∙ ap is_shown (
          let v = filed i q h in
          v.stored
          ∙ sym (
              create-keeps (λ s. s.id) C.sessions lawful.sessions _ db.sessions q.session_id
                v.session (λ i. refl) v.stored))
  Effect-IsBlind {db} (notes events) filed blind i q h live = blind i q h live
