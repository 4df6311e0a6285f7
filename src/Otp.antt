-- ===== src/Otp.antt =====
-- src/modules/sentinel: one-time codes. `OtpEntity` of core/entities/otp.entity.ts, the writes of
-- infrastructure/persistence/repositories/otp.repository.ts on one row, and the check of a code in
-- interface/handler/verify-otp.handler.ts and login-complete.handler.ts. Whether a code matches its
-- hash is what `bcrypt.compare` answers, an argument.
pub mod Laws
mod Tests
use api_v.Base.{
  ℕ, suc, ◌+◌, ◌-◌, ◌*◌, Bool, true, false, not, ◌&&◌, Option, none, some, if◌then◌else◌, ltb, leb,
  Text, Result, ok, err, bad_request, unauthorized,
}

-- The fields of `OtpEntity` that the check of a code reads and writes.
pub record Otp : Type 0 where
  pub id : ℕ
  pub code : Text
  pub is_used : Bool
  pub fail_count : ℕ
  pub blocked_until : Option ℕ
  pub expires_at : ℕ

abbrev pub max_attempts : ℕ
max_attempts = 5

unfoldable pub is_expired : ℕ → Otp → Bool
is_expired now otp = ltb otp.expires_at now

unfoldable pub is_blocked : ℕ → Otp → Bool
is_blocked now otp = elim otp.blocked_until [ none ↦ false | some until ↦ ltb now until ]

unfoldable pub is_valid : ℕ → Otp → Bool
unfolding is_expired is_blocked
is_valid now otp = not otp.is_used && not (is_expired now otp) && not (is_blocked now otp)

unfoldable pub has_reached_max_attempts : Otp → Bool
has_reached_max_attempts otp = leb max_attempts otp.fail_count

-- `Math.max(0, MAX_ATTEMPTS - failCount)`: the difference of natural numbers stops at zero.
unfoldable pub remaining_attempts : Otp → ℕ
remaining_attempts otp = max_attempts - otp.fail_count

abbrev pub mark_used : Otp → Otp
mark_used otp = record otp { is_used = true }

abbrev pub increment_fail : Otp → Otp
increment_fail otp = record otp { fail_count = suc otp.fail_count }

abbrev pub block_otp : ℕ → Otp → Otp
block_otp until otp = record otp { blocked_until = some until }

-- The row is written before the handler throws, and `otp` is the row as it was read before.
unfoldable pub wrong_code : ℕ → Otp → Result (Unit {0}) × Otp
wrong_code now otp =
    if has_reached_max_attempts otp
    then (
      err (unauthorized "Trop de tentatives. Bloqué 1 heure."),
      block_otp (now + 60 * 60 * 1000) (increment_fail otp),
    )
    else (err (unauthorized "Code incorrect."), increment_fail otp)

-- The check of a code on the row that `findLatestValid` gave, with what it throws and the row that
-- it leaves.
unfoldable pub check_code : (Text → Text → Bool) → ℕ → Text → Otp → Result (Unit {0}) × Otp
check_code compare now code otp =
    if otp.is_used
    then (err (bad_request "Aucun code valide. Demandez un nouveau code."), otp)
    else if is_blocked now otp
    then (err (unauthorized "Trop de tentatives. Réessayez dans 1 heure."), otp)
    else if is_expired now otp
    then (err (bad_request "Code expiré. Demandez un nouveau code."), otp)
    else if not (compare code otp.code)
    then wrong_code now otp
    else (ok tt, mark_used otp)
