-- ===== src/Sentinel/Pins/Changing.antt =====
-- A PIN that was changed is the PIN.
use api_v.Base.{
  ℕ, ◌≡◌, refl, sym, ap, subst, ◌∙◌, Bool, true, false, not, some, Text, Exception, Result, ok, err,
  unauthorized, given, passed_test, passed, ok_injective,
}
use api_v.Sentinel.{
  SecretRow, UserEntity, Client, Store, IsLawfulClient, is_account_active, has_pin, find_by_id,
}
use api_v.Sentinel.Accounts.{find_by_id_lem, secret_of_pin}
use api_v.Sentinel.Pins.{
  with_hash, update_secret, check_pin, check_changed_pin, check_change, replaced, change_for,
  change_pin,
}
use api_v.Sentinel.Pins.Rules.{passes}
use api_v.Sentinel.Pins.Tries.{
  outcome, IsEntity, IsTried, reread, reread_found, find_by_id-reread, check_pin-IsTried,
}

-- The account is found, and the PIN passes the check at any date.
pub record IsPinOf (C : Client) (db : Store C) (user_id : ℕ) (pin : Text) : Type 0 where
  pub account : UserEntity
  pub found : find_by_id C user_id db ≡ some account
  pub accepted :
      (now : ℕ) (wrong : Exception) → passes (check_pin C wrong now pin account db).0 ≡ true

module _ (C : Client) (lawful : IsLawfulClient C) where
  written-IsPinOf :
      (now salt user_id : ℕ) (right : Bool) (pin : Text) (db : Store C) (u : UserEntity)
      (s : SecretRow) (x : Result (Unit {0}) × Store C)
      → IsTried C now right db u s x
      → find_by_id C user_id db ≡ some u
      → u.user.id ≡ user_id
      → IsPinOf C (update_secret C user_id (with_hash (C.salted salt pin)) x.1) user_id pin
  written-IsPinOf now salt user_id right pin db u s x v found same_id =
      let secrets = C.secrets.update user_id (with_hash (C.salted salt pin)) x.1.secrets in
      let new = with_hash (C.salted salt pin) (outcome now right s) in
      let stored : C.secrets.find_unique u.user.id secrets ≡ some new =
        ap (λ i. C.secrets.find_unique i secrets) same_id
        ∙ lawful.secrets.find_unique-update user_id (with_hash (C.salted salt pin)) x.1.secrets
            (outcome now right s)
            (ap (λ i. C.secrets.find_unique i x.1.secrets) (sym same_id) ∙ v.secret)
            (lawful.secrets.find_unique_key u.user.id x.1.secrets (outcome now right s) v.secret
              ∙ same_id) in
      record {
        account = reread C secrets u;
        found =
            ap (λ d. find_by_id C user_id (record d { secrets = secrets })) v.elsewhere
            ∙ find_by_id-reread C user_id db secrets
            ∙ ap (reread_found C secrets) found;
        accepted = λ again wrong.
            (check_pin-IsTried C lawful wrong again pin (reread C secrets u) new
              (record x.1 { secrets = secrets })
              (record { secret = stored; stored = stored })).answer
            ∙ lawful.compare-salted salt pin;
      }

  check_change-IsEntity :
      (user_id : ℕ) (current pin confirm : Text) (db : Store C) (u : UserEntity)
      → check_change C user_id current pin confirm db ≡ ok u
      → (s : SecretRow) × IsEntity C db u s
        × (find_by_id C user_id db ≡ some u)
        × (u.user.id ≡ user_id)
  unfolding check_change
  check_change-IsEntity user_id current pin confirm db u h =
      let (_, h1) = passed (check_changed_pin current pin confirm) _ h in
      let (v, found, h2) = given (find_by_id C user_id db) _ _ h1 in
      let (_, h3) = passed_test (not (is_account_active v)) _ _ h2 in
      let (pinned, h4) = passed_test (not (has_pin v)) _ _ h3 in
      let (s, e) = secret_of_pin v (of_not (has_pin v) pinned) in
      let (same_id, secret) = find_by_id_lem C lawful user_id db v found in
      subst
        (λ u.
          (s : SecretRow) × IsEntity C db u s
          × (find_by_id C user_id db ≡ some u)
          × (u.user.id ≡ user_id))
        (ok_injective h4) (s, record { secret = e; stored = sym secret ∙ e }, found, same_id)
    where
      of_not : (b : Bool) → not b ≡ false → b ≡ true
      of_not true e = refl
      of_not false e = cc

  -- After a change of PIN that returned, the account is found and the new PIN passes the check, at any
  -- date, whatever was counted or blocked before.
  pub change_pin-IsPinOf :
      (now salt user_id : ℕ) (current pin confirm : Text) (db : Store C)
      → (change_pin C now salt user_id current pin confirm db).0 ≡ ok tt
      → IsPinOf C (change_pin C now salt user_id current pin confirm db).1 user_id pin
  unfolding change_pin
  change_pin-IsPinOf now salt user_id current pin confirm db h =
      go (check_change C user_id current pin confirm db) refl h
    where
      written :
          (x : Result (Unit {0}) × Store C)
          → IsPinOf C (update_secret C user_id (with_hash (C.salted salt pin)) x.1) user_id pin
          → (replaced C user_id salt pin x).0 ≡ ok tt
          → IsPinOf C (replaced C user_id salt pin x).1 user_id pin
      written (err e, d) v k = cc
      written (ok tt, d) v k = v

      go :
          (o : Result UserEntity)
          → check_change C user_id current pin confirm db ≡ o
          → (change_for C now salt user_id current pin o db).0 ≡ ok tt
          → IsPinOf C (change_for C now salt user_id current pin o db).1 user_id pin
      go (err e) c k = cc
      go (ok u) c k =
          let (s, entity, found, same_id) =
            check_change-IsEntity user_id current pin confirm db u c in
          let tried =
            check_pin-IsTried C lawful (unauthorized "PIN actuel incorrect.") now current u s db
              entity in
          written _
            (written-IsPinOf now salt user_id (C.compare current s.secret_hash) pin db u s _ tried
              found same_id)
            k
