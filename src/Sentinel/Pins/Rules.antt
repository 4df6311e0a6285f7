-- ===== src/Sentinel/Pins/Rules.antt =====
-- The rules for a new PIN: the three handlers let the same PINs through.
use api_v.Base.{
  ℕ, ◌≡◌, refl, ap, ◌∙◌, inl, inr, Bool, true, false, not, ◌&&◌, ◌||◌, List, [], ◌∷◌, any, Every,
  sym, subst, ==_iff, Text, same, Result, ok, err, throw_if, ◌>>◌, Exception, ◌==◌, Bool-cases,
  arith,
}
use api_v.Availability.Ranges.{is_digit}
use api_v.Sentinel.Pins.{
  is_weak, four_digits, one_digit, check_created_pin, check_reset_pin, check_changed_pin,
}

-- Whether a check returns.
abbrev pub passes : Result (Unit {0}) → Bool
passes (err e) = false
passes (ok tt) = true

-- Four digits that are not on the list, and written twice.
abbrev pub is_acceptable : Text → Text → Bool
is_acceptable pin confirm = same pin confirm && four_digits pin && not (is_weak pin)

passes-throw_if :
    (test : Bool) (e : Exception) (rest : Result (Unit {0}))
    → passes (throw_if test e >> rest) ≡ (not test && passes rest)
passes-throw_if true e rest = refl
passes-throw_if false e rest = refl

abbrev digits : List ℕ
digits = 48 ∷ 49 ∷ 50 ∷ 51 ∷ 52 ∷ 53 ∷ 54 ∷ 55 ∷ 56 ∷ 57 ∷ []

abbrev four : ℕ → Text
four a = a ∷ a ∷ a ∷ a ∷ []

each_digit : Every (λ d. is_weak (four d) ≡ true) digits
unfolding same
each_digit = (refl, (refl, (refl, (refl, (refl, (refl, (refl, (refl, (refl, (refl, tt))))))))))

is_among : (a : ℕ) → is_digit a ≡ true → any (λ d. a == d) digits ≡ true
is_among a h = ground arith

of_each : (P : ℕ → Type 0) (a : ℕ) (ds : List ℕ) → Every P ds → any (λ d. a == d) ds ≡ true → P a
of_each P a [] all h = cc
of_each P a (d ∷ ds) all h = elim (Bool-cases (a == d)) [
  | inl e ↦ subst P (sym ((==_iff a d).0 e)) all.0
  | inr e ↦ of_each P a ds all.1 (ground arith)
]

-- Four equal digits are on the list.
repeated-is_weak : (pin : Text) → four_digits pin ≡ true → one_digit pin ≡ true → is_weak pin ≡ true
repeated-is_weak [] f o = cc
repeated-is_weak (a ∷ []) f o = cc
repeated-is_weak (a ∷ b ∷ []) f o = cc
repeated-is_weak (a ∷ b ∷ c ∷ []) f o = cc
repeated-is_weak (a ∷ b ∷ c ∷ d ∷ []) f o =
    ap is_weak (alike a b c d o)
    ∙ of_each (λ d. is_weak (four d) ≡ true) a digits each_digit
        (is_among a (first_is_digit a b c d o))
  where
    alike : (a b c d : ℕ) → one_digit (a ∷ b ∷ c ∷ d ∷ []) ≡ true → a ∷ b ∷ c ∷ d ∷ [] ≡ four a
    alike a b c d o =
        let b_is : b ≡ a = ground arith in
        let c_is : c ≡ a = ground arith in
        let d_is : d ≡ a = ground arith in rw (b_is, c_is, d_is) refl

    first_is_digit : (a b c d : ℕ) → one_digit (a ∷ b ∷ c ∷ d ∷ []) ≡ true → is_digit a ≡ true
    first_is_digit a b c d o = ground arith
repeated-is_weak (a ∷ b ∷ c ∷ d ∷ e ∷ s) f o = cc

-- The tests of a registration, and of a reset, as one Boolean value.
one_by_one :
    (a b w o : Bool) (e e' e'' e''' : Exception)
    → (b ≡ true → o ≡ true → w ≡ true)
    → passes (
        throw_if (not a) e
        >> (throw_if (not b) e' >> (throw_if w e'' >> (throw_if o e''' >> ok tt))))
      ≡ (a && b && not w)
one_by_one a b w o e e' e'' e''' h = ground (arith, Bool-cases o, h)

together :
    (a b w o : Bool) (e e' e'' : Exception) (rest : Result (Unit {0}))
    → (b ≡ true → o ≡ true → w ≡ true)
    → passes (throw_if (not a) e >> (throw_if (not b) e' >> (throw_if (w || o) e'' >> rest)))
      ≡ (a && b && not w && passes rest)
together a b w o e e' e'' rest h = ground (arith, Bool-cases o, h)

-- The PINs that a registration and a reset accept are those of four digits that are not on the list
-- of weak PINs and that were written twice; a change accepts the same, except the PIN it replaces.
pub new_pin_rules :
    (current pin confirm : Text)
    → (passes (check_created_pin pin confirm) ≡ is_acceptable pin confirm)
      × (passes (check_reset_pin pin confirm) ≡ is_acceptable pin confirm)
      × (passes (check_changed_pin current pin confirm)
          ≡ (is_acceptable pin confirm && not (same current pin)))
unfolding check_created_pin check_reset_pin check_changed_pin
new_pin_rules current pin confirm =
    let strong = repeated-is_weak pin in
    (
      one_by_one (same pin confirm) (four_digits pin) (is_weak pin) (one_digit pin) _ _ _ _ strong,
      together (same pin confirm) (four_digits pin) (is_weak pin) (one_digit pin) _ _ _ (ok tt)
            strong
          ∙ and_true (is_acceptable pin confirm),
      together (same pin confirm) (four_digits pin) (is_weak pin) (one_digit pin) _ _ _ _ strong
          ∙ ap (λ b. is_acceptable pin confirm && b)
              (passes-throw_if (same current pin) _ (ok tt) ∙ and_true _),
    )
  where
    and_true : (b : Bool) → (b && true) ≡ b
    and_true b = ground arith
