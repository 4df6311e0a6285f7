-- ===== src/Otp/Laws.antt =====
-- Wrong codes one after another, and codes after one was accepted.
use api_v.Base.{
  ℕ, ◌+◌, ◌*◌, ◌≤◌, ◌≡◌, refl, ap, ◌∙◌, Bool, true, false, none, some, List, [], ◌∷◌, length, Every,
  Text, ok, err, bad_request, arith,
}
use api_v.Otp.{
  Otp, is_expired, is_blocked, has_reached_max_attempts, wrong_code, check_code, increment_fail,
}

module _ (compare : Text → Text → Bool) where
  -- The row after codes were entered one after another, each with its date.
  unfoldable pub entered : List (ℕ × Text) → Otp → Otp
  entered [] otp = otp
  entered ((now, code) ∷ rest) otp = entered rest (check_code compare now code otp).1

  -- A code that is entered before the row expires and does not match.
  abbrev pub IsWrong : Otp → ℕ × Text → Type 0
  IsWrong otp attempt = (attempt.0 ≤ otp.expires_at) × (compare attempt.1 otp.code ≡ false)

  wrong_counts :
      (now : ℕ) (code : Text) (otp : Otp)
      → otp.is_used ≡ false
      → otp.blocked_until ≡ none
      → otp.fail_count ≤ 4
      → IsWrong otp (now, code)
      → (check_code compare now code otp).1 ≡ increment_fail otp
  unfolding check_code wrong_code is_expired is_blocked has_reached_max_attempts
  wrong_counts now code otp u b f w = ground arith

  entered_counts :
      (attempts : List (ℕ × Text)) (otp : Otp)
      → otp.is_used ≡ false
      → otp.blocked_until ≡ none
      → otp.fail_count + length attempts ≤ 5
      → Every (IsWrong otp) attempts
      → entered attempts otp ≡ record otp { fail_count = otp.fail_count + length attempts }
  unfolding entered
  entered_counts [] otp u b f w = ap (λ n. record otp { fail_count = n }) (omega arith)
  entered_counts ((now, code) ∷ rest) otp u b f w =
      ap (entered rest) (wrong_counts now code otp u b (omega (arith, f)) w.0)
      ∙ entered_counts rest (increment_fail otp) u b (omega (arith, f)) w.1
      ∙ ap (λ n. record otp { fail_count = n }) (omega arith)

  sixth :
      (now : ℕ) (code : Text) (otp : Otp)
      → otp.is_used ≡ false
      → otp.blocked_until ≡ none
      → otp.fail_count ≡ 5
      → IsWrong otp (now, code)
      → (check_code compare now code otp).1.blocked_until ≡ some (now + 60 * 60 * 1000)
  unfolding check_code wrong_code is_expired is_blocked has_reached_max_attempts
  sixth now code otp u b f w = ground arith

  -- On a new row, five codes that do not match, each before the row expires, leave it without a
  -- block, and it is a sixth one that blocks it for an hour.
  pub sixth_wrong_code_blocks :
      (attempts : List (ℕ × Text)) (now : ℕ) (code : Text) (otp : Otp)
      → otp.is_used ≡ false
      → otp.blocked_until ≡ none
      → otp.fail_count ≡ 0
      → length attempts ≡ 5
      → Every (IsWrong otp) attempts
      → IsWrong otp (now, code)
      → ((entered attempts otp).blocked_until ≡ none)
        × ((check_code compare now code (entered attempts otp)).1.blocked_until
            ≡ some (now + 60 * 60 * 1000))
  sixth_wrong_code_blocks attempts now code otp u b f five wrong w =
      rw (entered_counts attempts otp u b (omega (arith, f, five)) wrong) (
        b,
        sixth now code (record otp { fail_count = otp.fail_count + length attempts }) u b
            (omega (arith, f, five)) w,
      )

  accepted :
      (now : ℕ) (code : Text) (otp after : Otp)
      → check_code compare now code otp ≡ (ok tt, after)
      → (compare code otp.code ≡ true)
        × (now ≤ otp.expires_at)
        × (is_blocked now otp ≡ false)
        × (after.is_used ≡ true)
  unfolding check_code wrong_code is_expired has_reached_max_attempts
  accepted now code otp after h = (ground arith, ground arith, ground arith, ground arith)

  used_kept :
      (now : ℕ) (code : Text) (otp : Otp)
      → otp.is_used ≡ true
      → (check_code compare now code otp).1 ≡ otp
  unfolding check_code
  used_kept now code otp u = ground arith

  used_stays :
      (attempts : List (ℕ × Text)) (otp : Otp) → otp.is_used ≡ true → entered attempts otp ≡ otp
  unfolding entered
  used_stays [] otp u = refl
  used_stays ((now, code) ∷ rest) otp u =
      ap (entered rest) (used_kept now code otp u) ∙ used_stays rest otp u

  used_throws :
      (now : ℕ) (code : Text) (otp : Otp)
      → otp.is_used ≡ true
      → (check_code compare now code otp).0
        ≡ err (bad_request "Aucun code valide. Demandez un nouveau code.")
  unfolding check_code
  used_throws now code otp u = rw u refl

  -- A code is accepted only where it matches, before the row expires and outside a block; after that,
  -- whatever codes follow at whatever dates, the row is not written and every code is refused.
  pub accepted_once :
      (now : ℕ) (code : Text) (otp after : Otp) (attempts : List (ℕ × Text)) (later : ℕ)
      (next : Text)
      → check_code compare now code otp ≡ (ok tt, after)
      → (compare code otp.code ≡ true)
        × (now ≤ otp.expires_at)
        × (is_blocked now otp ≡ false)
        × (entered attempts after ≡ after)
        × ((check_code compare later next (entered attempts after)).0
            ≡ err (bad_request "Aucun code valide. Demandez un nouveau code."))
  accepted_once now code otp after attempts later next h =
      let (m, e, b, u) = accepted now code otp after h in
      let stays = used_stays attempts after u in
      (m, e, b, stays, rw stays (used_throws later next after u))
