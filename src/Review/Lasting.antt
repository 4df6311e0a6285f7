-- ===== src/Review/Lasting.antt =====
-- What becomes of a review once it is there.
use api_v.Base.{
  ℕ, ◌≡◌, ◌≤◌, refl, sym, ap, subst, ◌∙◌, inl, inr, true_not_false, Bool, true, false, not, some,
  some_injective, is_some, ◌==◌, ==_iff, if◌then◌else◌, Bool-cases, arith,
}
use api_v.Database.{changed_if}
use api_v.Database.Writes.{find_unique-update_if, create-keeps}
use api_v.Review.{
  Review, ReviewSession, Client, Store, IsLawfulClient, is_live, is_live_of, revealed, visible,
  reveal_session,
}
use api_v.Review.Editing.{edited}
use api_v.Review.Expiry.{is_expired, reveal_expired}
use api_v.Review.Effects.{
  Effect, adds, edits, reveals, closes, opens, notes, Effects, done, and_then,
}
use api_v.Review.Effects.Filed.{IsFiled}
use api_v.Review.Effects.Blind.{IsBlind, is_shown}
use api_v.Review.Effects.Expiring.{sessions-reveal_expired}
use api_v.Review.Runs.{Reach, here, next, step_expire, Reach-Effects, Reach-IsBlind}

-- The same review at a later time: it is of the same session, what can be seen is as it was, and what
-- was edited has the same words.
pub record IsLater (r q : Review) : Type 0 where
  pub session : q.session_id ≡ r.session_id
  pub deleted : q.deleted_at ≡ r.deleted_at
  pub shown : r.is_visible ≡ true → q ≡ r
  pub edited :
      r.is_edited ≡ true → (q.is_edited ≡ true) × (q.rating ≡ r.rating) × (q.comment ≡ r.comment)

same : (r : Review) → IsLater r r
same r = record { session = refl; deleted = refl; shown = λ h. refl; edited = λ h. (h, refl, refl) }

visible-IsLater : (r : Review) (b : Bool) → IsLater r (if b then visible r else r)
visible-IsLater r false = same r
visible-IsLater r true = record {
  session = refl;
  deleted = refl;
  shown = λ h. ground arith;
  edited = λ h. (h, refl, refl);
}

later_again : (r p q : Review) → IsLater r p → IsLater p q → IsLater r q
later_again r p q v w = record {
  session = w.session ∙ v.session;
  deleted = w.deleted ∙ v.deleted;
  shown = λ h. w.shown (ap (λ r. r.is_visible) (v.shown h) ∙ h) ∙ v.shown h;
  edited = λ h. let (a, b, c) = v.edited h in let (d, e, f) = w.edited a in (d, e ∙ b, f ∙ c);
}

module _ (C : Client) (lawful : IsLawfulClient C) where
  Effect-IsLater :
      {db after : Store C} (i : ℕ) (r : Review)
      → Effect C db after
      → C.reviews.find_unique i db.reviews ≡ some r
      → (q : Review) × (C.reviews.find_unique i after.reviews ≡ some q) × IsLater r q
  unfolding reveal_session
  Effect-IsLater {db} i r (adds now command sub v) h =
      (r, create-keeps (λ r. r.id) C.reviews lawful.reviews _ db.reviews i r (λ i. refl) h, same r)
  Effect-IsLater {db} i r (edits command o u w x) h = (
    if r.id == o.id then edited command r else r,
    find_unique-update_if (λ r. r.id) C.reviews lawful.reviews o.id (edited command) db.reviews o i
          u (λ x. refl)
        ∙ ap (changed_if (λ x. x.id == o.id) (edited command)) h
        ∙ ground arith,
    elim (Bool-cases (r.id == o.id)) [
      | inl e ↦
          let is_it : r ≡ o = some_injective (
            sym h
            ∙ subst (λ j. C.reviews.find_unique j db.reviews ≡ some o)
                (sym ((==_iff r.id o.id).0 e) ∙ lawful.reviews.find_unique_key i db.reviews r h)
                u) in
          rw e (record {
            session = refl;
            deleted = refl;
            shown = λ t. absurd (true_not_false (sym t ∙ ap (λ r. r.is_visible) is_it ∙ w));
            edited = λ t. absurd (true_not_false (sym t ∙ ap (λ r. r.is_edited) is_it ∙ x));
          })
      | inr e ↦ rw e (same r)
    ],
  )
  Effect-IsLater {db} i r (reveals now s pid v) h = (
    if is_live_of s.id r then visible r else r,
    lawful.reviews.find_unique-update_many (is_live_of s.id) visible db.reviews i (λ x. refl)
        ∙ ap (changed_if (is_live_of s.id) visible) h
        ∙ ground arith,
    visible-IsLater r (is_live_of s.id r),
  )
  Effect-IsLater {db} i r (closes now s stored u none_live) h = (r, h, same r)
  Effect-IsLater {db} i r (opens now booking_id) h = (r, h, same r)
  Effect-IsLater {db} i r (notes events) h = (r, h, same r)

  Effects-IsLater :
      {db after : Store C} (i : ℕ) (r : Review)
      → Effects C db after
      → C.reviews.find_unique i db.reviews ≡ some r
      → (q : Review) × (C.reviews.find_unique i after.reviews ≡ some q) × IsLater r q
  Effects-IsLater i r done h = (r, h, same r)
  Effects-IsLater i r (and_then es e) h =
      let (p, k, v) = Effects-IsLater i r es h in
      let (q, l, w) = Effect-IsLater i p e k in (q, l, later_again r p q v w)

  -- Where the reviews are filed, and whatever calls follow, a review is never lost, a review that can be seen is never changed again,
  -- and a review that was edited keeps its rating and its comment.
  pub Reach-IsLater :
      (db after : Store C) (i : ℕ) (r : Review)
      → Reach C db after
      → IsFiled C db
      → C.reviews.find_unique i db.reviews ≡ some r
      → (q : Review) × (C.reviews.find_unique i after.reviews ≡ some q) × IsLater r q
  Reach-IsLater db after i r run filed = Effects-IsLater i r (Reach-Effects C lawful run filed)

  -- Where the reviews are filed and a live review can be seen exactly where its session has been
  -- revealed, a run of the scheduler makes every live review visible whose session ends at the date of
  -- the run or before.
  pub reveal_expired-shows :
      (db : Store C) (now i : ℕ) (r : Review) (s : ReviewSession)
      → IsFiled C db
      → IsBlind C db
      → C.reviews.find_unique i db.reviews ≡ some r
      → is_live r ≡ true
      → C.sessions.find_unique r.session_id db.sessions ≡ some s
      → s.expires_at ≤ now
      → (q : Review) × (C.reviews.find_unique i (reveal_expired C now db).reviews ≡ some q)
        × (q.is_visible ≡ true)
  unfolding IsBlind
  reveal_expired-shows db now i r s filed blind h live opened over =
      let run = next here (step_expire now) in
      let (q, k, v) = Reach-IsLater db (reveal_expired C now db) i r run filed h in
      (
        q,
        k,
        Reach-IsBlind C lawful db (reveal_expired C now db) run filed blind i q k
              (ap (λ d. not (is_some d)) v.deleted ∙ live)
            ∙ ap (λ j. is_shown (C.sessions.find_unique j (reveal_expired C now db).sessions))
                v.session
            ∙ ap is_shown (
                sessions-reveal_expired C lawful now db r.session_id filed
                ∙ ap (changed_if (is_expired now) (revealed now)) opened)
            ∙ stamped s over,
      )
    where
      stamped :
          (s : ReviewSession)
          → s.expires_at ≤ now
          → is_shown (if is_expired now s then some (revealed now s) else some s) ≡ true
      stamped s e = elim (Bool-cases (is_some s.revealed_at)) [
        | inl t ↦ ground arith
        | inr t ↦ ground arith
      ]
