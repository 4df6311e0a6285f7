-- ===== src/Sentinel/Pins/Guessing.antt =====
-- Wrong PINs in a row, and a PIN that was changed.
use api_v.Base.{
  ℕ, suc, ◌+◌, ◌≡◌, ◌<◌, refl, sym, ap, subst, ◌∙◌, Bool, true, false, not, ◌&&◌, none, some, List,
  [], ◌∷◌, Every, length, Text, is_empty, ltb, unauthorized, Bool-cases, arith,
}
use api_v.Sentinel.{
  LoginApp, SecretRow, UserEntity, Client, Store, IsLawfulClient, is_blocked_at, is_account_active,
  find_by_phone, has_pin,
}
use api_v.Sentinel.Pins.{one_hour_after, check_pin, check_account, check_login}
use api_v.Sentinel.Pins.Rules.{passes}
use api_v.Sentinel.Pins.Tries.{
  outcome, IsEntity, IsTried, reread, reread_found, find_by_phone-reread, check_pin-IsTried,
}

-- An active account with a PIN.
pub record IsKnown (C : Client) (db : Store C) (phone : Text) (app : LoginApp) (u : UserEntity)
    (s : SecretRow) : Type 0 where
  pub named : find_by_phone C phone app db ≡ some u
  pub entity : IsEntity C db u s
  pub active : is_account_active u ≡ true
  pub usable : is_empty s.secret_hash ≡ false

-- Logins one after another, with their dates.
abbrev pub logins : (C : Client) → Text → LoginApp → List (ℕ × Text) → Store C → Store C
logins C phone app [] db = db
logins C phone app ((now, pin) ∷ rest) db =
    logins C phone app rest (check_login C now phone app pin db).1

outcome_hash :
    (now : ℕ) (right : Bool) (s : SecretRow) → (outcome now right s).secret_hash ≡ s.secret_hash
outcome_hash now right s = ground (arith, Bool-cases (ltb s.fail_count 4))

module _ (C : Client) (lawful : IsLawfulClient C) (phone : Text) (app : LoginApp) where
  login_checks :
      (now : ℕ) (pin : Text) (db : Store C) (u : UserEntity) (s : SecretRow)
      → IsKnown C db phone app u s
      → check_login C now phone app pin db
        ≡ check_pin C (unauthorized "PIN incorrect.") now pin u db
  unfolding check_login check_account
  login_checks now pin db u s v = rw (v.named, v.active, usable u s v.entity.secret v.usable) refl
    where
      usable :
          (u : UserEntity) (s : SecretRow)
          → u.client_secret ≡ some s
          → is_empty s.secret_hash ≡ false
          → has_pin u ≡ true
      usable u s e h = rw (e, h) refl

  known_after :
      (now : ℕ) (pin : Text) (db : Store C) (u : UserEntity) (s : SecretRow)
      → IsKnown C db phone app u s
      → IsTried C now (C.compare pin s.secret_hash) db u s (check_login C now phone app pin db)
        × IsKnown C
            (check_login C now phone app pin db).1
            phone
            app
            (reread C (check_login C now phone app pin db).1.secrets u)
            (outcome now (C.compare pin s.secret_hash) s)
  known_after now pin db u s v =
      let tried =
        subst (IsTried C now (C.compare pin s.secret_hash) db u s)
          (sym (login_checks now pin db u s v))
          (check_pin-IsTried C lawful (unauthorized "PIN incorrect.") now pin u s db v.entity) in
      (
        tried,
        record {
          named =
              ap (find_by_phone C phone app) tried.elsewhere
              ∙ find_by_phone-reread C phone app db _
              ∙ ap (reread_found C _) v.named;
          entity = record { secret = tried.secret; stored = tried.secret };
          active = v.active;
          usable = ap is_empty (outcome_hash now (C.compare pin s.secret_hash) s) ∙ v.usable;
        },
      )

  -- Wrong logins are counted, and fewer than five do not block.
  counted :
      (tries : List (ℕ × Text)) (db : Store C) (u : UserEntity) (s : SecretRow)
      → IsKnown C db phone app u s
      → s.blocked_until ≡ none
      → s.fail_count + length tries < 5
      → Every (λ t. C.compare t.1 s.secret_hash ≡ false) tries
      → (w : UserEntity) × (r : SecretRow) × IsKnown C (logins C phone app tries db) phone app w r
        × (r.secret_hash ≡ s.secret_hash)
        × (r.blocked_until ≡ none)
        × (r.fail_count ≡ s.fail_count + length tries)
  counted [] db u s v free few all = (u, s, v, refl, free, omega arith)
  counted ((now, pin) ∷ rest) db u s v free few all =
      let (_, known) = known_after now pin db u s v in
      let r = outcome now (C.compare pin s.secret_hash) s in
      let (same_hash, still_free, one_more) =
        missed now (C.compare pin s.secret_hash) s all.0 free (small s.fail_count _ few) in
      let (w, q, k, h, o, n) =
        counted rest _ _ r known still_free (next_few s.fail_count _ r.fail_count one_more few)
          (subst (λ h. Every (λ t. C.compare t.1 h ≡ false) rest) (sym same_hash) all.1) in
      (w, q, k, h ∙ same_hash, o, n ∙ total s.fail_count _ r.fail_count one_more)
    where
      missed :
          (now : ℕ) (right : Bool) (s : SecretRow)
          → right ≡ false
          → s.blocked_until ≡ none
          → ltb s.fail_count 4 ≡ true
          → ((outcome now right s).secret_hash ≡ s.secret_hash)
            × ((outcome now right s).blocked_until ≡ none)
            × ((outcome now right s).fail_count ≡ suc s.fail_count)
      missed now right s e o f = rw (o, e, f) (refl, refl, refl)

      small : (n m : ℕ) → n + suc m < 5 → ltb n 4 ≡ true
      small n m h = ground arith

      next_few : (n m k : ℕ) → k ≡ suc n → n + suc m < 5 → k + m < 5
      next_few n m k e h = omega arith

      total : (n m k : ℕ) → k ≡ suc n → k + m ≡ n + suc m
      total n m k e = omega arith

  -- For an account whose PIN is not blocked and has no failure counted: after four wrong logins the
  -- right PIN is still accepted, and only it; after a fifth one, at a date t, every PIN is refused
  -- before t plus one hour, and from then on the right PIN is accepted again, and only it.
  pub fifth_wrong_pin-blocks :
      (tries : List (ℕ × Text)) (t now : ℕ) (wrong pin : Text) (db : Store C) (u : UserEntity)
      (s : SecretRow)
      → IsKnown C db phone app u s
      → s.blocked_until ≡ none
      → s.fail_count ≡ 0
      → length tries ≡ 4
      → Every (λ t. C.compare t.1 s.secret_hash ≡ false) tries
      → C.compare wrong s.secret_hash ≡ false
      → let four = logins C phone app tries db in
        (passes (check_login C now phone app pin four).0 ≡ C.compare pin s.secret_hash)
        × (passes (check_login C now phone app pin (check_login C t phone app wrong four).1).0
            ≡ (not (ltb now (one_hour_after t)) && C.compare pin s.secret_hash))
  fifth_wrong_pin-blocks tries t now wrong pin db u s v free zero_count four all miss =
      let (w, r, k, h, o, n) =
        counted tries db u s v free (below s.fail_count (length tries) zero_count four) all in
      let (tried, _) = known_after now pin (logins C phone app tries db) w r k in
      let (_, known) = known_after t wrong (logins C phone app tries db) w r k in
      let (again, _) =
        known_after now pin (check_login C t phone app wrong (logins C phone app tries db)).1 _ _
          known in
      let is_blocked =
        fifth t (C.compare wrong r.secret_hash) r (ap (C.compare wrong) h ∙ miss) o
          (n ∙ sum s.fail_count (length tries) zero_count four) in
      (
        tried.answer
            ∙ ap (λ b. not b && C.compare pin r.secret_hash) (ap (is_blocked_at now) o)
            ∙ ap (C.compare pin) h,
        again.answer
            ∙ ap
                (λ o.
                  not (is_blocked_at now o)
                  && C.compare pin (outcome t (C.compare wrong r.secret_hash) r).secret_hash)
                is_blocked
            ∙ ap (λ h. not (ltb now (one_hour_after t)) && C.compare pin h)
                (outcome_hash t (C.compare wrong r.secret_hash) r ∙ h),
      )
    where
      below : (n m : ℕ) → n ≡ 0 → m ≡ 4 → n + m < 5
      below n m e f = omega arith

      sum : (n m : ℕ) → n ≡ 0 → m ≡ 4 → n + m ≡ 4
      sum n m e f = omega arith

      fifth :
          (t : ℕ) (right : Bool) (s : SecretRow)
          → right ≡ false
          → s.blocked_until ≡ none
          → s.fail_count ≡ 4
          → (outcome t right s).blocked_until ≡ some (one_hour_after t)
      fifth t right s e o f = rw (o, e, f) refl
