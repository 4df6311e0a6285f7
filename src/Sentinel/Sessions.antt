-- ===== src/Sentinel/Sessions.antt =====
-- The refresh tokens: infrastructure/persistence/repositories/refresh-token.repository.ts, and the
-- handlers refresh-token.handler.ts, logout.handler.ts and revoke-session.handler.ts of
-- interface/handler. A call returns what it answers and the database that it leaves, since a call
-- that throws may have written before. The random token is an argument; an access token is the data
-- that is signed. The log of events is not modelled.
pub mod Steps
pub mod Calls
pub mod Once
pub mod Rotation
use api_v.Base.{
  ℕ, ◌+◌, ◌*◌, Bool, true, false, not, ◌&&◌, ◌||◌, Option, none, some, is_some, List, Text, same,
  is_empty, ltb, ◌==◌, if◌then◌else◌, Result, ok, err, unauthorized, not_found, forbidden, internal,
  throw_if, required, ◌>>=◌, ◌>>◌,
}
use api_v.Sentinel.{
  Role, UserRow, UserEntity, TokenRow, Client, Store, is_account_active, is_token_valid, find_by_id,
}

-- The data of a new token, without its key.
pub record TokenData : Type 0 where
  pub user_id : ℕ
  pub token_hash : Text
  pub device_info : Option Text
  pub ip_address : Option Text
  pub platform : Option Text
  pub expires_at : ℕ

abbrev pub new_token : ℕ → TokenData → ℕ → TokenRow
new_token now props id = record {
  id = id;
  user_id = props.user_id;
  token_hash = props.token_hash;
  device_info = props.device_info;
  ip_address = props.ip_address;
  platform = props.platform;
  is_revoked = false;
  expires_at = props.expires_at;
  last_used_at = now;
}

-- What the access token says, and the new refresh token.
pub record Renewed : Type 0 where
  pub sub : ℕ
  pub phone : Text
  pub role : Role
  pub refresh_token : Text

abbrev pub revoked : TokenRow → TokenRow
revoked t = record t { is_revoked = true }

abbrev pub used_at : ℕ → TokenRow → TokenRow
used_at now t = record t { last_used_at = now }

-- `where: { userId, isRevoked: false }`
abbrev pub is_open_of : ℕ → TokenRow → Bool
is_open_of user_id t = t.user_id == user_id && not t.is_revoked

-- `Date.now() + 30 * 24 * 60 * 60 * 1000`
abbrev pub thirty_days_after : ℕ → ℕ
thirty_days_after now = now + 30 * 24 * 60 * 60 * 1000

module _ (C : Client) where
  abbrev pub find_by_hash : Text → Store C → Option TokenRow
  find_by_hash hash db = C.tokens.find_first (λ t. same t.token_hash hash) db.tokens

  abbrev pub find_token_by_id : ℕ → Store C → Option TokenRow
  find_token_by_id id db = C.tokens.find_unique id db.tokens

  abbrev pub find_all_active_for_user : ℕ → ℕ → Store C → List TokenRow
  find_all_active_for_user now user_id db =
      C.tokens.find_many (λ t. is_open_of user_id t && ltb now t.expires_at) db.tokens

  abbrev pub revoke : ℕ → Store C → Store C
  revoke id db = record db { tokens = C.tokens.update id revoked db.tokens }

  abbrev pub revoke_all_for_user : ℕ → Store C → Store C
  revoke_all_for_user user_id db = record db {
    tokens = C.tokens.update_many (is_open_of user_id) revoked db.tokens;
  }

  abbrev pub update_last_used : ℕ → ℕ → Store C → Store C
  update_last_used now id db = record db { tokens = C.tokens.update id (used_at now) db.tokens }

  -- The creation of a row, where the schema has a unique index on the hash.
  abbrev pub created : ℕ → TokenData → Option TokenRow → Store C → Result ℕ × Store C
  created now props (some _) db = (err (internal "Unique constraint failed"), db)
  created now props none db =
      let made = C.tokens.create (new_token now props) db.tokens in
      (ok made.0.id, record db { tokens = made.1 })

  unfoldable pub create : ℕ → TokenData → Store C → Result ℕ × Store C
  create now props db = created now props (find_by_hash props.token_hash db) db

  -- The reads and the checks of `RefreshTokenHandler`.
  unfoldable pub check_refresh : ℕ → Text → Store C → Result (TokenRow × UserEntity)
  check_refresh now raw db = do
    token ←
        required (find_by_hash (C.digest raw) db)
          (unauthorized "Session expirée. Reconnectez-vous.")
    throw_if (not (is_token_valid now token)) (unauthorized "Session expirée. Reconnectez-vous.")
    user ← required (find_by_id C token.user_id db) (unauthorized "Compte désactivé.")
    throw_if (not (is_account_active user)) (unauthorized "Compte désactivé.")
    ok (token, user)

  -- The token that takes the place of another.
  abbrev pub successor : ℕ → Text → TokenRow → UserEntity → TokenData
  successor now fresh token user = record {
    user_id = user.user.id;
    token_hash = C.digest fresh;
    device_info = token.device_info;
    ip_address = token.ip_address;
    platform = token.platform;
    expires_at = thirty_days_after now;
  }

  abbrev pub renewed : Text → UserEntity → Result ℕ → Result Renewed
  renewed fresh user (err e) = err e
  renewed fresh user (ok _) = ok (record {
    sub = user.user.id;
    phone = user.user.phone;
    role = user.user.role;
    refresh_token = fresh;
  })

  abbrev pub rotate : ℕ → Text → Result (TokenRow × UserEntity) → Store C → Result Renewed × Store C
  rotate now fresh (err e) db = (err e, db)
  rotate now fresh (ok (token, user)) db =
      let made =
        create now (successor now fresh token user)
          (revoke token.id (update_last_used now token.id db)) in
      (renewed fresh user made.0, made.1)

  -- `RefreshTokenHandler`, where `fresh` is the random token that it makes.
  unfoldable pub refresh : ℕ → Text → Text → Store C → Result Renewed × Store C
  refresh now raw fresh db = rotate now fresh (check_refresh now raw db) db

  abbrev pub revoke_found : Option TokenRow → Store C → Store C
  revoke_found none db = db
  revoke_found (some t) db = revoke t.id db

  -- The handler's `if (cmd.refreshToken)`, where the empty text counts as none.
  abbrev pub logout_one : Option Text → Store C → Store C
  logout_one none db = db
  logout_one (some raw) db =
      if is_empty raw then db else revoke_found (find_by_hash (C.digest raw) db) db

  -- `LogoutHandler`
  unfoldable pub logout : Bool → ℕ → Option Text → Store C → Store C
  logout all_devices user_id raw db =
      if all_devices then revoke_all_for_user user_id db else logout_one raw db

  -- `RevokeSessionHandler`
  unfoldable pub revoke_session : ℕ → ℕ → Store C → Result (Store C)
  revoke_session session_id user_id db = do
    token ← required (find_token_by_id session_id db) (not_found "Session introuvable.")
    throw_if (not (token.user_id == user_id)) (forbidden "Accès refusé.")
    ok (revoke session_id db)
