-- ===== src/Otp/Tests.antt =====
-- A code that is entered wrong six times, and one that is entered right.
use api_v.Base.{
  ℕ, ◌*◌, ◌+◌, ◌≡◌, ◌≤◌, refl, true, false, none, some, List, [], ◌∷◌, Text, codes, same, ok, err,
  bad_request, arith,
}
use api_v.Otp.{Otp, is_expired, is_blocked, is_valid, remaining_attempts, check_code, mark_used}
use api_v.Otp.Laws.{entered, sixth_wrong_code_blocks, accepted_once}

abbrev issued : Otp
issued = record {
  id = 3;
  code = codes "4711";
  is_used = false;
  fail_count = 0;
  blocked_until = none;
  expires_at = 600000;
}

issued-is_valid : (is_valid 100 issued ≡ true) × (remaining_attempts issued ≡ 5)
unfolding is_valid is_expired is_blocked remaining_attempts
issued-is_valid = (refl, refl)

abbrev guess : ℕ × Text
guess = (200, codes "0000")

abbrev guesses : List (ℕ × Text)
guesses = guess ∷ guess ∷ guess ∷ guess ∷ guess ∷ []

-- Whether two codes are the same, in place of the comparison of hashes.
mismatch : same (codes "0000") issued.code ≡ false
unfolding same
mismatch = refl

in_time : (200 ≤ 600000) × (false ≡ false)
in_time = (omega arith, refl)

sixth_wrong_code_blocks_example :
    ((entered same guesses issued).blocked_until ≡ none)
    × ((check_code same 300 (codes "0001") (entered same guesses issued)).1.blocked_until
        ≡ some (300 + 60 * 60 * 1000))
unfolding same
sixth_wrong_code_blocks_example =
    sixth_wrong_code_blocks same guesses 300 (codes "0001") issued refl refl refl refl
      (in_time, (in_time, (in_time, (in_time, (in_time, tt))))) (omega arith, refl)

accepts : check_code same 200 (codes "4711") issued ≡ (ok tt, mark_used issued)
unfolding check_code is_expired is_blocked same
accepts = refl

accepted_once_example :
    (same (codes "4711") issued.code ≡ true)
    × (200 ≤ issued.expires_at)
    × (is_blocked 200 issued ≡ false)
    × (entered same guesses (mark_used issued) ≡ mark_used issued)
    × ((check_code same 400 (codes "4711") (entered same guesses (mark_used issued))).0
        ≡ err (bad_request "Aucun code valide. Demandez un nouveau code."))
accepted_once_example =
    accepted_once same 200 (codes "4711") issued (mark_used issued) guesses 400 (codes "4711")
      accepts
