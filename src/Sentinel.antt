-- ===== src/Sentinel.antt =====
-- src/modules/sentinel: accounts, PINs and sessions. Here are the rows that the handlers read and
-- write, `UserEntity` and `RefreshTokenEntity` of core/entities, and the look-up of an account in
-- infrastructure/persistence/repositories/user.repository.ts.
pub mod Sessions
pub mod Accounts
pub mod Pins
mod Tests
use api_v.Base.{
  ℕ, ◌-◌, ◌≡◌, Bool, true, false, not, ◌&&◌, Option, none, some, is_some, ltb, leb, ◌==◌, Text,
  same, is_empty,
}
use api_v.Database.{Table, IsLawful}

-- The enum `Role` of the schema.
pub data Role : Type 0 where
  client_role professional_role admin_role : Role

-- `LoginApp`
pub data LoginApp : Type 0 where
  client_app professional_app : LoginApp

-- The columns of `PhoneNumber`.
pub record PhoneRow : Type 0 where
  pub id : ℕ
  pub number : Text
  pub client_user_id : Option ℕ
  pub professional_user_id : Option ℕ
  pub deleted_at : Option ℕ

-- The columns of `User`, with the number of its phone, that the handlers read.
pub record UserRow : Type 0 where
  pub id : ℕ
  pub phone_id : ℕ
  pub phone : Text
  pub role : Role
  pub is_verified : Bool
  pub is_active : Bool
  pub deleted_at : Option ℕ

-- A row of `ClientSecret`, which has one row for a user at most and is looked up by the user.
pub record SecretRow : Type 0 where
  pub client_id : ℕ
  pub secret_hash : Text
  pub fail_count : ℕ
  pub blocked_until : Option ℕ

-- A row of `RefreshToken`, without the metadata and the dates that nothing reads.
pub record TokenRow : Type 0 where
  pub id : ℕ
  pub user_id : ℕ
  pub token_hash : Text
  pub device_info : Option Text
  pub ip_address : Option Text
  pub platform : Option Text
  pub is_revoked : Bool
  pub expires_at : ℕ
  pub last_used_at : ℕ

-- The models of the database client, and the functions of the cryptographic libraries: the digest
-- SHA-256 in hexadecimal, and bcrypt, where the number stands for the random salt.
pub record Client : Type 1 where
  pub phones : Table PhoneRow
  pub users : Table UserRow
  pub secrets : Table SecretRow
  pub tokens : Table TokenRow
  pub digest : Text → Text
  pub compare : Text → Text → Bool
  pub salted : ℕ → Text → Text

pub record Store (C : Client) : Type 0 where
  pub phones : C.phones.State
  pub users : C.users.State
  pub secrets : C.secrets.State
  pub tokens : C.tokens.State

-- What the documentation of the libraries promises, of bcrypt that it accepts a text against a hash
-- that it made of it.
pub record IsLawfulClient (C : Client) : Type 0 where
  pub phones : IsLawful (λ p. p.id) C.phones
  pub users : IsLawful (λ u. u.id) C.users
  pub secrets : IsLawful (λ s. s.client_id) C.secrets
  pub tokens : IsLawful (λ t. t.id) C.tokens
  pub compare-salted : (salt : ℕ) (pin : Text) → C.compare pin (C.salted salt pin) ≡ true

-- `UserEntity`: a user with its secret.
pub record UserEntity : Type 0 where
  pub user : UserRow
  pub client_secret : Option SecretRow

abbrev pub is_blocked_at : ℕ → Option ℕ → Bool
is_blocked_at now none = false
is_blocked_at now (some until) = ltb now until

abbrev pub is_pin_blocked : ℕ → UserEntity → Bool
is_pin_blocked now u = elim u.client_secret [
  | none ↦ false
  | some s ↦ is_blocked_at now s.blocked_until
]

abbrev pub has_pin : UserEntity → Bool
has_pin u = elim u.client_secret [ none ↦ false | some s ↦ not (is_empty s.secret_hash) ]

abbrev pub is_account_active : UserEntity → Bool
is_account_active u = u.user.is_active && not (is_some u.user.deleted_at)

abbrev pub fail_count_of : Option SecretRow → ℕ
fail_count_of none = 0
fail_count_of (some s) = s.fail_count

-- `Math.max(0, 5 - failCount)`: the difference of natural numbers stops at zero.
abbrev pub pin_remaining_attempts : UserEntity → ℕ
pin_remaining_attempts u = 5 - fail_count_of u.client_secret

abbrev pub is_token_expired : ℕ → TokenRow → Bool
is_token_expired now t = ltb t.expires_at now

abbrev pub is_token_valid : ℕ → TokenRow → Bool
is_token_valid now t = not t.is_revoked && not (is_token_expired now t)

-- The account that a phone number has for one of the applications.
abbrev pub slot_of : LoginApp → PhoneRow → Option ℕ
slot_of client_app p = p.client_user_id
slot_of professional_app p = p.professional_user_id

module _ (C : Client) where
  abbrev pub with_secret : Store C → Option UserRow → Option UserEntity
  with_secret db none = none
  with_secret db (some u) =
      some (record { user = u; client_secret = C.secrets.find_unique u.id db.secrets })

  -- `UserRepository.findById`
  unfoldable pub find_by_id : ℕ → Store C → Option UserEntity
  find_by_id id db =
      with_secret db
        (C.users.find_first (λ u. u.id == id && not (is_some u.deleted_at) && u.is_active) db.users)

  abbrev pub of_slot : Store C → Option ℕ → Option UserEntity
  of_slot db none = none
  of_slot db (some id) = find_by_id id db

  abbrev pub of_phone : LoginApp → Store C → Option PhoneRow → Option UserEntity
  of_phone app db none = none
  of_phone app db (some p) = of_slot db (slot_of app p)

  -- `UserRepository.findByPhone`
  unfoldable pub find_by_phone : Text → LoginApp → Store C → Option UserEntity
  find_by_phone phone app db =
      of_phone app db
        (C.phones.find_first (λ p. same p.number phone && not (is_some p.deleted_at)) db.phones)
