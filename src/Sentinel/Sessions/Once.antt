-- ===== src/Sentinel/Sessions/Once.antt =====
-- A refresh token works once, and a session that was closed stays closed.
use api_v.Base.{
  ℕ, ◌≡◌, refl, sym, ap, subst, ◌∙◌, true, false, Option, none, some, some_injective, Text, same,
  same_iff, if◌then◌else◌, Result, ok, err, unauthorized, Bool-cases, arith,
}
use api_v.Database.{changed_if}
use api_v.Sentinel.{UserEntity, TokenRow, Client, Store, IsLawfulClient, is_token_valid}
use api_v.Sentinel.Sessions.{
  Renewed, revoked, used_at, is_open_of, find_by_hash, revoke, update_last_used, check_refresh,
  successor, rotate, refresh, logout,
}
use api_v.Sentinel.Sessions.Steps.{Reach, here, next, step_refresh, step_logout, IsDistinct, done}
use api_v.Sentinel.Sessions.Calls.{
  check_refresh-IsRefreshable, create-Effects, Effects-IsLater, Reach-IsLater, Reach-IsDistinct,
}

module _ (C : Client) (lawful : IsLawfulClient C) where
  refused :
      (now : ℕ) (raw fresh : Text) (db : Store C) (o : Option TokenRow)
      → find_by_hash C (C.digest raw) db ≡ o
      → ((t : TokenRow) → o ≡ some t → is_token_valid now t ≡ false)
      → refresh C now raw fresh db ≡ (err (unauthorized "Session expirée. Reconnectez-vous."), db)
  unfolding refresh check_refresh
  refused now raw fresh db none e n = rw e refl
  refused now raw fresh db (some t) e n = rw (e, n t refl) refl

  -- A revoked token is refused, now and after any calls.
  revoked_for_good :
      (db later : Store C) (i : ℕ) (t : TokenRow) (now : ℕ) (raw fresh : Text)
      → IsDistinct C db
      → C.tokens.find_unique i db.tokens ≡ some t
      → t.is_revoked ≡ true
      → t.token_hash ≡ C.digest raw
      → Reach C db later
      → refresh C now raw fresh later
        ≡ (err (unauthorized "Session expirée. Reconnectez-vous."), later)
  unfolding IsDistinct
  revoked_for_good db later i t now raw fresh distinct h r s run =
      let (u, k, v) = Reach-IsLater C lawful i t run h in
      refused now raw fresh later (find_by_hash C (C.digest raw) later) refl (λ w e.
        let (hash, stored) =
          lawful.tokens.find_first_some (λ t. same t.token_hash (C.digest raw)) later.tokens w e in
        let same_id =
          Reach-IsDistinct C lawful db later run distinct w.id i w u stored k
            ((same_iff w.token_hash (C.digest raw)).0 hash ∙ sym (v.hash ∙ s)) in
        let is_it : w ≡ u =
          some_injective (sym stored ∙ ap (λ i. C.tokens.find_unique i later.tokens) same_id ∙ k) in
        ground (arith, ap (λ t. t.is_revoked) is_it ∙ v.stays_revoked r))

  -- A refresh token works once: if no two tokens have the same hash and a refresh has returned, then
  -- after any further calls, at any date, a refresh with the same token is refused and changes nothing.
  pub used_once :
      (db later : Store C) (now again : ℕ) (raw fresh other : Text) (answer : Renewed)
      → IsDistinct C db
      → (refresh C now raw fresh db).0 ≡ ok answer
      → Reach C (refresh C now raw fresh db).1 later
      → refresh C again raw other later
        ≡ (err (unauthorized "Session expirée. Reconnectez-vous."), later)
  unfolding refresh
  used_once db later now again raw fresh other answer distinct =
      go (check_refresh C now raw db) refl
    where
      go :
          (o : Result (TokenRow × UserEntity))
          → check_refresh C now raw db ≡ o
          → (rotate C now fresh o db).0 ≡ ok answer
          → Reach C (rotate C now fresh o db).1 later
          → refresh C again raw other later
            ≡ (err (unauthorized "Session expirée. Reconnectez-vous."), later)
      go (err e) h a run = cc
      go (ok (t, u)) h a run =
          let v = check_refresh-IsRefreshable C lawful now raw db t u h in
          let closed = revoke C t.id (update_last_used C now t.id db) in
          let (w, k, x) =
            Effects-IsLater C lawful t.id (revoked (used_at now t))
              (create-Effects C lawful now (successor C now fresh t u) closed closed done)
              (lawful.tokens.find_unique-update t.id revoked _ (used_at now t)
                (lawful.tokens.find_unique-update t.id (used_at now) db.tokens t v.stored refl)
                refl) in
          revoked_for_good _ later t.id w again raw other
            (subst (λ o. IsDistinct C (rotate C now fresh o db).1) h
              (Reach-IsDistinct C lawful db (refresh C now raw fresh db).1
                (next here (step_refresh now raw fresh)) distinct))
            k (x.stays_revoked refl) (x.hash ∙ v.hash) run

  -- After a logout from all devices every token that the user had is refused, at any date and after
  -- any further calls, if no two tokens have the same hash.
  pub logged_out :
      (db later : Store C) (i : ℕ) (t : TokenRow) (last : Option Text) (now : ℕ) (raw fresh : Text)
      → IsDistinct C db
      → C.tokens.find_unique i db.tokens ≡ some t
      → t.token_hash ≡ C.digest raw
      → Reach C (logout C true t.user_id last db) later
      → refresh C now raw fresh later
        ≡ (err (unauthorized "Session expirée. Reconnectez-vous."), later)
  unfolding logout
  logged_out db later i t last now raw fresh distinct h s run =
      revoked_for_good (logout C true t.user_id last db) later i
        (if is_open_of t.user_id t then revoked t else t) now raw fresh
        (Reach-IsDistinct C lawful db (logout C true t.user_id last db)
          (next here (step_logout true t.user_id last)) distinct)
        (lawful.tokens.find_unique-update_many (is_open_of t.user_id) revoked db.tokens i
            (λ x. refl)
          ∙ ap (changed_if (is_open_of t.user_id) revoked) h
          ∙ ground arith)
        (closed t) (hash_of t ∙ s) run
    where
      closed : (t : TokenRow) → (if is_open_of t.user_id t then revoked t else t).is_revoked ≡ true
      closed t = ground (arith, Bool-cases t.is_revoked)

      hash_of :
          (t : TokenRow)
          → (if is_open_of t.user_id t then revoked t else t).token_hash ≡ t.token_hash
      hash_of t = ground arith
