-- ===== src/Sentinel/Sessions/Rotation.antt =====
-- What a refresh that returns has done, and that the token it gave works in turn.
use api_v.Base.{
  ℕ, ◌+◌, ◌*◌, ◌≡◌, ◌≢◌, ◌≤◌, refl, sym, ap, ◌∙◌, inl, inr, true, false, not, ◌&&◌, Option, none,
  some, some_injective, none_not_some, ltb, is_some, Text, same, same_iff, ◌==◌, ==_iff, Result, ok,
  err, Option-cases, true_not_false, ok_injective, arith,
}
use api_v.Database.Writes.{create-keeps}
use api_v.Sentinel.{
  UserRow, UserEntity, is_account_active, with_secret, TokenRow, Client, Store, IsLawfulClient,
  is_token_valid, find_by_id,
}
use api_v.Sentinel.Sessions.{
  Renewed, new_token, revoked, used_at, find_by_hash, revoke, update_last_used, created, create,
  check_refresh, successor, renewed, rotate, refresh, thirty_days_after,
}
use api_v.Sentinel.Sessions.Steps.{here, next, step_refresh, IsDistinct}
use api_v.Sentinel.Sessions.Calls.{
  IsRefreshable, check_refresh-IsRefreshable, Effects-IsLater, closed-Effects, Reach-IsDistinct,
}

-- The tokens after a refresh: the old one is revoked, a new one is there, the others are as before.
pub record IsRotated (C : Client) (now : ℕ) (raw fresh : Text) (db : Store C) (answer : Renewed)
    (after : Store C) : Type 0 where
  pub token : TokenRow
  pub user : UserEntity
  pub refreshable : IsRefreshable C now raw db token user
  pub answered : answer ≡ record {
    sub = user.user.id;
    phone = user.user.phone;
    role = user.user.role;
    refresh_token = fresh;
  }
  pub id : ℕ
  pub new_id : C.tokens.find_unique id db.tokens ≡ none
  pub new_row :
      C.tokens.find_unique id after.tokens
      ≡ some (record {
        id = id;
        user_id = user.user.id;
        token_hash = C.digest fresh;
        device_info = token.device_info;
        ip_address = token.ip_address;
        platform = token.platform;
        is_revoked = false;
        expires_at = now + 30 * 24 * 3600 * 1000;
        last_used_at = now;
      })
  pub closed :
      C.tokens.find_unique token.id after.tokens
      ≡ some (record token { is_revoked = true; last_used_at = now })
  pub others :
      (j : ℕ) (t : TokenRow)
      → token.id ≢ j
      → C.tokens.find_unique j db.tokens ≡ some t
      → C.tokens.find_unique j after.tokens ≡ some t
  pub users : after.users ≡ db.users
  pub secrets : after.secrets ≡ db.secrets

module _ (C : Client) (lawful : IsLawfulClient C) where
  was_none :
      (t : TokenRow) {now : ℕ} {raw : Text} {db : Store C} {u : UserEntity}
      → IsRefreshable C now raw db t u
      → (i : ℕ)
      → C.tokens.find_unique i (revoke C t.id (update_last_used C now t.id db)).tokens ≡ none
      → C.tokens.find_unique i db.tokens ≡ none
  was_none t {now} {raw} {db} v i e = elim (Option-cases (C.tokens.find_unique i db.tokens)) [
    | inl h ↦ h
    | inr (x, h) ↦
        let (w, k, _) =
          Effects-IsLater C lawful i x (closed-Effects C lawful now db t v.stored) h in
        absurd (none_not_some (sym e ∙ k))
  ]

  created-IsRotated :
      (now : ℕ) (raw fresh : Text) (db : Store C) (t : TokenRow) (u : UserEntity) (answer : Renewed)
      (o : Option TokenRow)
      → IsRefreshable C now raw db t u
      → let made =
          created C now
            (successor C now fresh t u)
            o
            (revoke C t.id (update_last_used C now t.id db)) in
        renewed C fresh u made.0 ≡ ok answer → IsRotated C now raw fresh db answer made.1
  created-IsRotated now raw fresh db t u answer (some x) v h = cc
  created-IsRotated now raw fresh db t u answer none v h =
      let used = C.tokens.update t.id (used_at now) db.tokens in
      let closed_tokens = C.tokens.update t.id revoked used in
      let is_used = lawful.tokens.find_unique-update t.id (used_at now) db.tokens t v.stored refl in
      let is_closed : C.tokens.find_unique t.id closed_tokens ≡ some (revoked (used_at now t)) =
        lawful.tokens.find_unique-update t.id revoked used (used_at now t) is_used refl in
      let (row, new, stored) =
        lawful.tokens.create_row (new_token now (successor C now fresh t u)) closed_tokens
          (λ i. refl) in
      let keeps =
        create-keeps (λ t. t.id) C.tokens lawful.tokens (new_token now (successor C now fresh t u))
          closed_tokens in
      record {
        token = t;
        user = u;
        refreshable = v;
        answered = sym (ok_injective h);
        id = (C.tokens.create (new_token now (successor C now fresh t u)) closed_tokens).0.id;
        new_id = was_none t v _ new;
        new_row = stored ∙ ap some row;
        closed = keeps t.id (revoked (used_at now t)) (λ i. refl) is_closed;
        others = λ j x n k.
            keeps j x (λ i. refl)
              (lawful.tokens.find_unique-update_ne t.id j revoked used n
                ∙ lawful.tokens.find_unique-update_ne t.id j (used_at now) db.tokens n
                ∙ k);
        users = refl;
        secrets = refl;
      }

  -- A refresh that returns has closed the session of the token and opened another for thirty days,
  -- for the same user and on the same device; no other token is changed, and neither users nor PINs.
  pub refresh-IsRotated :
      (now : ℕ) (raw fresh : Text) (db : Store C) (answer : Renewed)
      → (refresh C now raw fresh db).0 ≡ ok answer
      → IsRotated C now raw fresh db answer (refresh C now raw fresh db).1
  unfolding refresh create
  refresh-IsRotated now raw fresh db answer = go (check_refresh C now raw db) refl
    where
      go :
          (o : Result (TokenRow × UserEntity))
          → check_refresh C now raw db ≡ o
          → (rotate C now fresh o db).0 ≡ ok answer
          → IsRotated C now raw fresh db answer (rotate C now fresh o db).1
      go (err e) h a = cc
      go (ok (t, u)) h a =
          created-IsRotated now raw fresh db t u answer _
            (check_refresh-IsRefreshable C lawful now raw db t u h) a

  -- The account of a refresh that passed is found by its own key.
  user_again :
      (id : ℕ) (db : Store C) (u : UserEntity) → find_by_id C id db ≡ some u → u.user.id ≡ id
  unfolding find_by_id
  user_again id db u h =
      go
        (C.users.find_first (λ u. u.id == id && not (is_some u.deleted_at) && u.is_active) db.users)
        refl h
    where
      go :
          (o : Option UserRow)
          → C.users.find_first
              (λ u. u.id == id && not (is_some u.deleted_at) && u.is_active)
              db.users
            ≡ o
          → with_secret C db o ≡ some u
          → u.user.id ≡ id
      go none e k = cc
      go (some x) e k =
          ap (λ u. u.user.id) (sym (some_injective k))
          ∙ (==_iff x.id id).0 (first_of (lawful.users.find_first_some _ db.users x e).0)
        where
          first_of :
              (x.id == id && not (is_some x.deleted_at) && x.is_active) ≡ true → (x.id == id) ≡ true
          first_of e = ground arith

  same_account :
      (id : ℕ) (db after : Store C)
      → after.users ≡ db.users
      → after.secrets ≡ db.secrets
      → find_by_id C id after ≡ find_by_id C id db
  unfolding find_by_id
  same_account id db after e f = rw (e, f) refl

  -- The index finds the token of a hash.
  finds :
      (db : Store C) (i : ℕ) (n : TokenRow)
      → IsDistinct C db
      → C.tokens.find_unique i db.tokens ≡ some n
      → find_by_hash C n.token_hash db ≡ some n
  unfolding IsDistinct
  finds db i n distinct h = elim (Option-cases (find_by_hash C n.token_hash db)) [
    | inl e ↦ absurd (
        true_not_false (
          sym ((same_iff n.token_hash n.token_hash).1 refl)
          ∙ lawful.tokens.find_first_none (λ t. same t.token_hash n.token_hash) db.tokens i n e h))
    | inr (x, e) ↦
        let (hash, stored) =
          lawful.tokens.find_first_some (λ t. same t.token_hash n.token_hash) db.tokens x e in
        e
        ∙ sym stored
        ∙ ap (λ i. C.tokens.find_unique i db.tokens)
            (distinct x.id i x n stored h ((same_iff x.token_hash n.token_hash).0 hash))
        ∙ h
  ]

  passes :
      (now : ℕ) (raw : Text) (db : Store C) (n : TokenRow) (u : UserEntity)
      → find_by_hash C (C.digest raw) db ≡ some n
      → is_token_valid now n ≡ true
      → find_by_id C n.user_id db ≡ some u
      → is_account_active u ≡ true
      → check_refresh C now raw db ≡ ok (n, u)
  unfolding check_refresh
  passes now raw db n u e v h a = rw (e, v, h, a) refl

  -- The token that a refresh gives is good for the next one: if no two tokens have the same hash and a
  -- refresh has returned, then a refresh with the new token passes the checks within the next thirty
  -- days, for the same user, as long as nothing else has happened.
  pub check_refresh-refresh :
      (now again : ℕ) (raw fresh : Text) (db : Store C) (answer : Renewed)
      → IsDistinct C db
      → (refresh C now raw fresh db).0 ≡ ok answer
      → again ≤ thirty_days_after now
      → (n : TokenRow) × (u : UserEntity) × (check_refresh C again answer.refresh_token
            (refresh C now raw fresh db).1
          ≡ ok (n, u))
        × (u.user.id ≡ answer.sub)
        × (n.expires_at ≡ thirty_days_after now)
  check_refresh-refresh now again raw fresh db answer distinct h within =
      let v = refresh-IsRotated now raw fresh db answer h in
      let after = (refresh C now raw fresh db).1 in
      let n = new_token now (successor C now fresh v.token v.user) v.id in
      (
        n,
        v.user,
        passes again answer.refresh_token after n v.user
            (ap (λ r. find_by_hash C (C.digest r) after) (ap (λ r. r.refresh_token) v.answered)
              ∙ finds after v.id n
                  (Reach-IsDistinct C lawful db after (next here (step_refresh now raw fresh))
                    distinct)
                  v.new_row)
            (still_open (thirty_days_after now) within)
            (same_account v.user.user.id db after v.users v.secrets
              ∙ ap (λ i. find_by_id C i db)
                  (user_again v.token.user_id db v.user v.refreshable.user)
              ∙ v.refreshable.user)
            v.refreshable.active,
        ap (λ r. r.sub) (sym v.answered),
        refl,
      )
    where
      still_open : (until : ℕ) → again ≤ until → (not false && not (ltb until again)) ≡ true
      still_open until e = ground arith
