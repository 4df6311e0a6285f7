-- ===== src/Sentinel/Pins/Tries.antt =====
-- What the check of a PIN does to the secret, and what a row of wrong PINs leads to.
use api_v.Base.{
  ℕ, suc, ◌+◌, ◌-◌, ◌≡◌, ◌≢◌, refl, ap, ◌∙◌, inl, inr, Bool, true, false, not, ◌&&◌, Option, none,
  some, is_some, Text, same, ltb, leb, ◌==◌, if◌then◌else◌, Exception, Result, Bool-cases, arith,
}
use api_v.Sentinel.{
  LoginApp, PhoneRow, UserRow, SecretRow, UserEntity, Client, Store, IsLawfulClient, is_blocked_at,
  with_secret, find_by_id, slot_of, of_slot, of_phone, find_by_phone,
}
use api_v.Sentinel.Pins.{
  fail_counted, blocked, fail_reset, one_hour_after, update_secret, check_pin,
}
use api_v.Sentinel.Pins.Rules.{passes}

-- The secret after a try, as the rules say it: while it is held nothing happens, the right PIN
-- clears the count, and the fifth wrong one in a row blocks it for an hour.
abbrev pub outcome_of : Bool → ℕ → Bool → SecretRow → SecretRow
outcome_of held now right s =
    if held
    then s
    else if right
    then record s { fail_count = 0; blocked_until = none }
    else if ltb s.fail_count 4
    then record s { fail_count = suc s.fail_count }
    else record s { fail_count = 0; blocked_until = some (now + 3600000) }

abbrev pub outcome : ℕ → Bool → SecretRow → SecretRow
outcome now right s = outcome_of (is_blocked_at now s.blocked_until) now right s

-- A block lasts until its date.
abbrev pub lasts : ℕ → Option ℕ → Bool
lasts now until = elim until [ none ↦ false | some date ↦ ltb now date ]

same_block : (now : ℕ) (until : Option ℕ) → is_blocked_at now until ≡ lasts now until
same_block now none = refl
same_block now (some until) = refl

module _ (C : Client) where
  -- A user entity with its secret, as the database has it.
  pub record IsEntity (db : Store C) (u : UserEntity) (s : SecretRow) : Type 0 where
    pub secret : u.client_secret ≡ some s
    pub stored : C.secrets.find_unique u.user.id db.secrets ≡ some s

  -- What a try answers, and the database after it.
  pub record IsTried (now : ℕ) (right : Bool) (db : Store C) (u : UserEntity) (s : SecretRow)
      (x : Result (Unit {0}) × Store C) : Type 0 where
    pub answer : passes x.0 ≡ (not (is_blocked_at now s.blocked_until) && right)
    pub secret : C.secrets.find_unique u.user.id x.1.secrets ≡ some (outcome now right s)
    pub others :
        (j : ℕ)
        → u.user.id ≢ j
        → C.secrets.find_unique j x.1.secrets ≡ C.secrets.find_unique j db.secrets
    pub elsewhere : x.1 ≡ record db { secrets = x.1.secrets }

  -- The same, with a block as one that lasts.
  pub record IsChecked (now : ℕ) (right : Bool) (db : Store C) (u : UserEntity) (s : SecretRow)
      (x : Result (Unit {0}) × Store C) : Type 0 where
    pub answer : passes x.0 ≡ (not (lasts now s.blocked_until) && right)
    pub secret :
        C.secrets.find_unique u.user.id x.1.secrets
        ≡ some (outcome_of (lasts now s.blocked_until) now right s)
    pub others :
        (j : ℕ)
        → u.user.id ≢ j
        → C.secrets.find_unique j x.1.secrets ≡ C.secrets.find_unique j db.secrets
    pub elsewhere : x.1 ≡ record db { secrets = x.1.secrets }

  -- The entity after its secret was written.
  abbrev pub reread : C.secrets.State → UserEntity → UserEntity
  reread secrets u = record u { client_secret = C.secrets.find_unique u.user.id secrets }

  abbrev pub reread_found : C.secrets.State → Option UserEntity → Option UserEntity
  reread_found secrets none = none
  reread_found secrets (some u) = some (reread secrets u)

  pub find_by_id-reread :
      (id : ℕ) (db : Store C) (secrets : C.secrets.State)
      → find_by_id C id (record db { secrets = secrets })
        ≡ reread_found secrets (find_by_id C id db)
  unfolding find_by_id
  find_by_id-reread id db secrets =
      go
        (C.users.find_first (λ u. u.id == id && not (is_some u.deleted_at) && u.is_active) db.users)
    where
      go :
          (o : Option UserRow)
          → with_secret C (record db { secrets = secrets }) o
            ≡ reread_found secrets (with_secret C db o)
      go none = refl
      go (some u) = refl

  pub find_by_phone-reread :
      (phone : Text) (app : LoginApp) (db : Store C) (secrets : C.secrets.State)
      → find_by_phone C phone app (record db { secrets = secrets })
        ≡ reread_found secrets (find_by_phone C phone app db)
  unfolding find_by_phone
  find_by_phone-reread phone app db secrets =
      go (C.phones.find_first (λ p. same p.number phone && not (is_some p.deleted_at)) db.phones)
    where
      slot :
          (o : Option ℕ)
          → of_slot C (record db { secrets = secrets }) o ≡ reread_found secrets (of_slot C db o)
      slot none = refl
      slot (some id) = find_by_id-reread id db secrets

      go :
          (o : Option PhoneRow)
          → of_phone C app (record db { secrets = secrets }) o
            ≡ reread_found secrets (of_phone C app db o)
      go none = refl
      go (some p) = slot (slot_of app p)

module _ (C : Client) (lawful : IsLawfulClient C) where
  updated_secret :
      (db : Store C) (i : ℕ) (f : SecretRow → SecretRow) (s : SecretRow)
      → C.secrets.find_unique i db.secrets ≡ some s
      → (f s).client_id ≡ s.client_id
      → C.secrets.find_unique i (C.secrets.update i f db.secrets) ≡ some (f s)
  updated_secret db i f s h k =
      lawful.secrets.find_unique-update i f db.secrets s h
        (k ∙ lawful.secrets.find_unique_key i db.secrets s h)

  written_others :
      (db : Store C) (i j : ℕ) (f : SecretRow → SecretRow)
      → i ≢ j
      → C.secrets.find_unique j (C.secrets.update i f db.secrets)
        ≡ C.secrets.find_unique j db.secrets
  written_others db i j f n = lawful.secrets.find_unique-update_ne i j f db.secrets n

  few : (n : ℕ) → ltb n 4 ≡ true → leb (5 - n) 1 ≡ false
  few n e = ground arith

  many : (n : ℕ) → ltb n 4 ≡ false → leb (5 - n) 1 ≡ true
  many n e = ground arith

  -- A check of a PIN, by the test of the code for a block.
  pub check_pin-IsTried :
      (wrong : Exception) (now : ℕ) (pin : Text) (u : UserEntity) (s : SecretRow) (db : Store C)
      → IsEntity C db u s
      → IsTried C now (C.compare pin s.secret_hash) db u s (check_pin C wrong now pin u db)
  unfolding check_pin
  check_pin-IsTried wrong now pin u s db v = elim (Bool-cases (is_blocked_at now s.blocked_until)) [
    | inl b ↦
        rw (v.secret, b)
          (record {
            answer = ground arith;
            secret = v.stored ∙ ground arith;
            others = λ j n. refl;
            elsewhere = refl;
          })
    | inr b ↦ elim (Bool-cases (C.compare pin s.secret_hash)) [
      | inl r ↦
          rw (v.secret, b, r)
            (record {
              answer = ground arith;
              secret = updated_secret db u.user.id fail_reset s v.stored refl ∙ ground arith;
              others = λ j n. written_others db u.user.id j fail_reset n;
              elsewhere = refl;
            })
      | inr r ↦ elim (Bool-cases (ltb s.fail_count 4)) [
        | inl e ↦
            rw (v.secret, b, r, few s.fail_count e)
              (record {
                answer = ground arith;
                secret = updated_secret db u.user.id fail_counted s v.stored refl ∙ ground arith;
                others = λ j n. written_others db u.user.id j fail_counted n;
                elsewhere = refl;
              })
        | inr e ↦
            let counted = updated_secret db u.user.id fail_counted s v.stored refl in
            rw (v.secret, b, r, many s.fail_count e)
              (record {
                answer = ground arith;
                secret =
                    updated_secret (update_secret C u.user.id fail_counted db) u.user.id
                      (blocked (one_hour_after now)) (fail_counted s) counted refl
                    ∙ ground arith;
                others = λ j n.
                    written_others (update_secret C u.user.id fail_counted db) u.user.id j
                      (blocked (one_hour_after now)) n
                    ∙ written_others db u.user.id j fail_counted n;
                elsewhere = refl;
              })
      ]
    ]
  ]

  -- A check of a PIN answers yes exactly where no block of the secret lasts beyond the date and the
  -- PIN is right; it leaves the secret unchanged while a block lasts, without failures or block after
  -- the right PIN, and otherwise with one more failure counted or, where four were counted before,
  -- blocked for an hour with the count cleared. Nothing else is changed.
  pub check_pin-IsChecked :
      (wrong : Exception) (now : ℕ) (pin : Text) (u : UserEntity) (s : SecretRow) (db : Store C)
      → IsEntity C db u s
      → IsChecked C now (C.compare pin s.secret_hash) db u s (check_pin C wrong now pin u db)
  check_pin-IsChecked wrong now pin u s db v =
      let t = check_pin-IsTried wrong now pin u s db v in
      let right = C.compare pin s.secret_hash in
      let block = same_block now s.blocked_until in
      record {
        answer = t.answer ∙ ap (λ b. not b && right) block;
        secret = t.secret ∙ ap (λ b. some (outcome_of b now right s)) block;
        others = t.others;
        elsewhere = t.elsewhere;
      }
