-- ===== src/Sentinel/Pins.antt =====
-- PINs: the rules for a new one in create-pin.handler.ts, reset-pin.handler.ts and
-- change-pin.handler.ts of src/modules/sentinel/interface/handler, the check of a PIN in
-- start-login.handler.ts and change-pin.handler.ts, and the writes of user.repository.ts on the
-- secret of a user. A call returns what it answers and the database that it leaves. The code that
-- start-login.handler.ts sends after the check, the hash of the new PIN and the log are not modelled.
pub mod Rules
pub mod Tries
pub mod Guessing
pub mod Changing
use api_v.Base.{
  ℕ, suc, ◌+◌, ◌*◌, Bool, true, false, not, ◌&&◌, ◌||◌, Option, none, some, List, [], ◌∷◌, any,
  length, Text, codes, same, is_empty, ltb, leb, ◌==◌, if◌then◌else◌, Exception, Result, ok, err,
  bad_request, unauthorized, throw_if, required, ◌>>=◌, ◌>>◌,
}
use api_v.Availability.Ranges.{is_digit}
use api_v.Sentinel.{
  LoginApp, UserRow, SecretRow, UserEntity, Client, Store, is_pin_blocked, has_pin,
  is_account_active, pin_remaining_attempts, find_by_id, find_by_phone,
}

-- `WEAK_PINS`
abbrev pub weak_pins : List Text
weak_pins =
    codes "0000"
    ∷ codes "1234"
    ∷ codes "4321"
    ∷ codes "1111"
    ∷ codes "2222"
    ∷ codes "3333"
    ∷ codes "4444"
    ∷ codes "5555"
    ∷ codes "6666"
    ∷ codes "7777"
    ∷ codes "8888"
    ∷ codes "9999"
    ∷ codes "1212"
    ∷ codes "2580"
    ∷ []

abbrev pub is_weak : Text → Bool
is_weak pin = any (same pin) weak_pins

-- `/^\d{4}$/`
abbrev pub four_digits : Text → Bool
four_digits (a ∷ b ∷ c ∷ d ∷ []) = is_digit a && is_digit b && is_digit c && is_digit d
four_digits _ = false

abbrev pub all_equal : ℕ → Text → Bool
all_equal d [] = true
all_equal d (c ∷ s) = c == d && all_equal d s

-- `/^(\d)\1+$/`
abbrev pub one_digit : Text → Bool
one_digit (d ∷ c ∷ s) = is_digit d && all_equal d (c ∷ s)
one_digit _ = false

-- The checks of `CreatePinHandler`.
unfoldable pub check_created_pin : Text → Text → Result (Unit {0})
check_created_pin pin confirm = do
  throw_if (not (same pin confirm)) (bad_request "Les deux PIN ne correspondent pas.")
  throw_if (not (four_digits pin)) (bad_request "Le PIN doit contenir exactement 4 chiffres.")
  throw_if (is_weak pin) (bad_request "PIN non autorisé. Choisissez un code différent.")
  throw_if (one_digit pin)
      (bad_request "PIN trop simple. Évitez les chiffres identiques (ex: 1111).")
  ok tt

-- The checks of `ResetPinHandler`.
unfoldable pub check_reset_pin : Text → Text → Result (Unit {0})
check_reset_pin pin confirm = do
  throw_if (not (same pin confirm)) (bad_request "Les deux PIN ne correspondent pas.")
  throw_if (not (four_digits pin)) (bad_request "Le PIN doit contenir exactement 4 chiffres.")
  throw_if (is_weak pin || one_digit pin)
      (bad_request "PIN trop simple. Choisissez un code plus sécurisé.")
  ok tt

-- The checks of `ChangePinHandler`.
unfoldable pub check_changed_pin : Text → Text → Text → Result (Unit {0})
check_changed_pin current pin confirm = do
  throw_if (not (same pin confirm)) (bad_request "Les deux nouveaux PIN ne correspondent pas.")
  throw_if (not (four_digits pin)) (bad_request "Le PIN doit contenir exactement 4 chiffres.")
  throw_if (is_weak pin || one_digit pin)
      (bad_request "PIN trop simple. Choisissez un code plus sécurisé.")
  throw_if (same current pin) (bad_request "Le nouveau PIN doit être différent de l'actuel.")
  ok tt

abbrev pub fail_counted : SecretRow → SecretRow
fail_counted s = record s { fail_count = suc s.fail_count }

abbrev pub blocked : ℕ → SecretRow → SecretRow
blocked until s = record s { blocked_until = some until; fail_count = 0 }

abbrev pub fail_reset : SecretRow → SecretRow
fail_reset s = record s { fail_count = 0; blocked_until = none }

abbrev pub with_hash : Text → SecretRow → SecretRow
with_hash hash s = record s { secret_hash = hash; fail_count = 0; blocked_until = none }

-- `Date.now() + 60 * 60 * 1000`
abbrev pub one_hour_after : ℕ → ℕ
one_hour_after now = now + 60 * 60 * 1000

abbrev pub hash_of : UserEntity → Text
hash_of u = elim u.client_secret [ none ↦ [] | some s ↦ s.secret_hash ]

module _ (C : Client) where
  -- The updates of the secret of a user: `incrementPinFail`, `blockPin`, `resetPinFail`, and
  -- `updatePin` where there is a secret.
  abbrev pub update_secret : ℕ → (SecretRow → SecretRow) → Store C → Store C
  update_secret user_id f db = record db { secrets = C.secrets.update user_id f db.secrets }

  -- What follows a wrong PIN, with what is thrown while tries are left. The entity is the one that was read before the failure is counted.
  abbrev pub wrong_pin : Exception → ℕ → UserEntity → Store C → Result (Unit {0}) × Store C
  wrong_pin wrong now u db =
      let counted = update_secret u.user.id fail_counted db in
      if leb (pin_remaining_attempts u) 1
      then (
        err (unauthorized "Trop de tentatives. PIN bloqué 1 heure."),
        update_secret u.user.id (blocked (one_hour_after now)) counted,
      )
      else (err wrong, counted)

  -- The check of a PIN, which start-login.handler.ts and change-pin.handler.ts have in common.
  unfoldable pub check_pin :
      Exception → ℕ → Text → UserEntity → Store C → Result (Unit {0}) × Store C
  check_pin wrong now pin u db =
      if is_pin_blocked now u
      then (err (unauthorized "PIN bloqué 1 heure."), db)
      else if not (C.compare pin (hash_of u))
      then wrong_pin wrong now u db
      else (ok tt, update_secret u.user.id fail_reset db)

  -- The account of a login, or the exception.
  unfoldable pub check_account : Text → LoginApp → Store C → Result UserEntity
  check_account phone app db = do
    u ← required (find_by_phone C phone app db) (bad_request "Aucun compte pour ce numéro.")
    throw_if (not (is_account_active u)) (bad_request "Aucun compte pour ce numéro.")
    throw_if (not (has_pin u)) (unauthorized "PIN non configuré.")
    ok u

  abbrev pub with_account : ℕ → Text → Result UserEntity → Store C → Result (Unit {0}) × Store C
  with_account now pin (err e) db = (err e, db)
  with_account now pin (ok u) db = check_pin (unauthorized "PIN incorrect.") now pin u db

  -- `StartLoginHandler`, up to the code that it sends.
  unfoldable pub check_login : ℕ → Text → LoginApp → Text → Store C → Result (Unit {0}) × Store C
  check_login now phone app pin db = with_account now pin (check_account phone app db) db

  -- The account of a change of PIN, or the exception.
  unfoldable pub check_change : ℕ → Text → Text → Text → Store C → Result UserEntity
  check_change user_id current pin confirm db = do
    check_changed_pin current pin confirm
    u ← required (find_by_id C user_id db) (unauthorized "Session invalide.")
    throw_if (not (is_account_active u)) (unauthorized "Session invalide.")
    throw_if (not (has_pin u)) (bad_request "Aucun PIN configuré.")
    ok u

  abbrev pub replaced : ℕ → ℕ → Text → Result (Unit {0}) × Store C → Result (Unit {0}) × Store C
  replaced user_id salt pin (err e, db) = (err e, db)
  replaced user_id salt pin (ok tt, db) =
      (ok tt, update_secret user_id (with_hash (C.salted salt pin)) db)

  abbrev pub change_for :
      ℕ → ℕ → ℕ → Text → Text → Result UserEntity → Store C → Result (Unit {0}) × Store C
  change_for now salt user_id current pin (err e) db = (err e, db)
  change_for now salt user_id current pin (ok u) db =
      replaced user_id salt pin (check_pin (unauthorized "PIN actuel incorrect.") now current u db)

  -- `ChangePinHandler`, where the number `salt` is the randomness of bcrypt.
  unfoldable pub change_pin : ℕ → ℕ → ℕ → Text → Text → Text → Store C → Result (Unit {0}) × Store C
  change_pin now salt user_id current pin confirm db =
      change_for now salt user_id current pin (check_change user_id current pin confirm db) db
