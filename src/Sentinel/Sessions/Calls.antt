-- ===== src/Sentinel/Sessions/Calls.antt =====
-- What the calls on refresh tokens write, and what stays true of the table over any sequence of them.
use api_v.Base.{
  ℕ, ◌≡◌, refl, ap, subst, ◌∙◌, Bool, true, false, not, Option, none, some, Text, same, same_iff,
  is_empty, ◌==◌, if◌then◌else◌, Result, ok, err, given, passed_test, ok_injective,
}
use api_v.Sentinel.{
  UserEntity, TokenRow, Client, Store, IsLawfulClient, is_account_active, is_token_valid,
  find_by_id,
}
use api_v.Sentinel.Sessions.{
  TokenData, used_at, find_by_hash, find_token_by_id, revoke, update_last_used, created, create,
  check_refresh, successor, rotate, refresh, revoke_found, logout, revoke_session,
}
use api_v.Sentinel.Sessions.Steps.{
  Step, step_create, step_refresh, step_logout, step_revoke, step_other, Reach, here, next, IsLater,
  unchanged, later_again, revokes, uses, adds, touches, clears, elsewhere, Effects, done, and_then,
  IsDistinct, Effect-IsLater, Effect-IsDistinct,
}

-- The checks of a refresh that passed.
pub record IsRefreshable (C : Client) (now : ℕ) (raw : Text) (db : Store C) (t : TokenRow)
    (u : UserEntity) : Type 0 where
  pub stored : C.tokens.find_unique t.id db.tokens ≡ some t
  pub hash : t.token_hash ≡ C.digest raw
  pub valid : is_token_valid now t ≡ true
  pub user : find_by_id C t.user_id db ≡ some u
  pub active : is_account_active u ≡ true

module _ (C : Client) (lawful : IsLawfulClient C) where
  pub check_refresh-IsRefreshable :
      (now : ℕ) (raw : Text) (db : Store C) (t : TokenRow) (u : UserEntity)
      → check_refresh C now raw db ≡ ok (t, u)
      → IsRefreshable C now raw db t u
  unfolding check_refresh
  check_refresh-IsRefreshable now raw db t u h =
      let (token, found, h1) = given _ _ _ h in
      let (valid, h2) = passed_test (not (is_token_valid now token)) _ _ h1 in
      let (user, named, h3) = given _ _ _ h2 in
      let (active, h4) = passed_test (not (is_account_active user)) _ _ h3 in
      let (hash, stored) =
        lawful.tokens.find_first_some (λ t. same t.token_hash (C.digest raw)) db.tokens token
          found in
      subst (λ o. IsRefreshable C now raw db o.0 o.1) (ok_injective h4)
        (record {
          stored = stored;
          hash = (same_iff token.token_hash (C.digest raw)).0 hash;
          valid = of_not (is_token_valid now token) valid;
          user = named;
          active = of_not (is_account_active user) active;
        })
    where
      of_not : (b : Bool) → not b ≡ false → b ≡ true
      of_not true e = refl
      of_not false e = cc

  pub create-Effects :
      (now : ℕ) (props : TokenData) (start db : Store C)
      → Effects C start db
      → Effects C start (create C now props db).1
  unfolding create
  create-Effects now props start db before = go (find_by_hash C props.token_hash db) refl
    where
      go :
          (o : Option TokenRow)
          → find_by_hash C props.token_hash db ≡ o
          → Effects C start (created C now props o db).1
      go none e = and_then before (adds now props e)
      go (some t) e = before

  -- A token after its last use, and then revoked.
  pub closed-Effects :
      (now : ℕ) (db : Store C) (t : TokenRow)
      → C.tokens.find_unique t.id db.tokens ≡ some t
      → Effects C db (revoke C t.id (update_last_used C now t.id db))
  closed-Effects now db t h = and_then (and_then done (touches t (uses now) h)) (
      touches (used_at now t) revokes
        (lawful.tokens.find_unique-update t.id (used_at now) db.tokens t h refl))

  pub refresh-Effects :
      (now : ℕ) (raw fresh : Text) (db : Store C) → Effects C db (refresh C now raw fresh db).1
  unfolding refresh
  refresh-Effects now raw fresh db = go (check_refresh C now raw db) refl
    where
      go :
          (o : Result (TokenRow × UserEntity))
          → check_refresh C now raw db ≡ o
          → Effects C db (rotate C now fresh o db).1
      go (err e) h = done
      go (ok (t, u)) h =
          create-Effects now (successor C now fresh t u) db _
            (closed-Effects now db t (check_refresh-IsRefreshable now raw db t u h).stored)

  logout-Effects :
      (all_devices : Bool) (user_id : ℕ) (raw : Option Text) (db : Store C)
      → Effects C db (logout C all_devices user_id raw db)
  unfolding logout
  logout-Effects true user_id raw db = and_then done (clears user_id)
  logout-Effects false user_id none db = done
  logout-Effects false user_id (some raw) db = go (is_empty raw)
    where
      found :
          (o : Option TokenRow)
          → find_by_hash C (C.digest raw) db ≡ o
          → Effects C db (revoke_found C o db)
      found none e = done
      found (some t) e = and_then done (
          touches t revokes
            (lawful.tokens.find_first_some (λ t. same t.token_hash (C.digest raw)) db.tokens t e).1)

      go :
          (b : Bool)
          → Effects C db (if b then db else revoke_found C (find_by_hash C (C.digest raw) db) db)
      go true = done
      go false = found _ refl

  revoke_session-Effects :
      (session_id user_id : ℕ) (db after : Store C)
      → revoke_session C session_id user_id db ≡ ok after
      → Effects C db after
  unfolding revoke_session
  revoke_session-Effects session_id user_id db after h =
      let (t, found, h1) = given (find_token_by_id C session_id db) _ _ h in
      let (own, h2) = passed_test (not (t.user_id == user_id)) _ _ h1 in
      let same_id = lawful.tokens.find_unique_key session_id db.tokens t found in
      subst (Effects C db) (ap (λ i. revoke C i db) same_id ∙ ok_injective h2) (
        and_then done
          (touches t revokes (ap (λ i. C.tokens.find_unique i db.tokens) same_id ∙ found)))

  Step-Effects : {db after : Store C} → Step C db after → Effects C db after
  Step-Effects {db} (step_create now props) = create-Effects now props db db done
  Step-Effects {db} (step_refresh now raw fresh) = refresh-Effects now raw fresh db
  Step-Effects {db} (step_logout all_devices user_id raw) =
      logout-Effects all_devices user_id raw db
  Step-Effects {db} (step_revoke session_id user_id after h) =
      revoke_session-Effects session_id user_id db after h
  Step-Effects (step_other phones users secrets) = and_then done (elsewhere phones users secrets)

  pub Effects-IsLater :
      {db after : Store C} (i : ℕ) (t : TokenRow)
      → Effects C db after
      → C.tokens.find_unique i db.tokens ≡ some t
      → (u : TokenRow) × (C.tokens.find_unique i after.tokens ≡ some u) × IsLater t u
  Effects-IsLater i t done h = (t, h, unchanged t)
  Effects-IsLater i t (and_then es e) h =
      let (u, k, v) = Effects-IsLater i t es h in
      let (w, l, x) = Effect-IsLater C lawful i u e k in (w, l, later_again t u w v x)

  pub Effects-IsDistinct :
      {db after : Store C} → Effects C db after → IsDistinct C db → IsDistinct C after
  Effects-IsDistinct done distinct = distinct
  Effects-IsDistinct (and_then es e) distinct =
      Effect-IsDistinct C lawful e (Effects-IsDistinct es distinct)

  pub Reach-IsLater :
      {db after : Store C} (i : ℕ) (t : TokenRow)
      → Reach C db after
      → C.tokens.find_unique i db.tokens ≡ some t
      → (u : TokenRow) × (C.tokens.find_unique i after.tokens ≡ some u) × IsLater t u
  Reach-IsLater i t here h = (t, h, unchanged t)
  Reach-IsLater i t (next r s) h =
      let (u, k, v) = Reach-IsLater i t r h in
      let (w, l, x) = Effects-IsLater i u (Step-Effects s) k in (w, l, later_again t u w v x)

  -- If no two tokens have the same hash, as in an empty table, this stays so whatever calls follow.
  pub Reach-IsDistinct :
      (db after : Store C) → Reach C db after → IsDistinct C db → IsDistinct C after
  Reach-IsDistinct db after here distinct = distinct
  Reach-IsDistinct db after (next r s) distinct =
      Effects-IsDistinct (Step-Effects s) (Reach-IsDistinct db _ r distinct)
