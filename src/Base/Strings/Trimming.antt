-- ===== src/Base/Strings/Trimming.antt =====
-- Trimming a text twice trims no more.
use mathlib.Core.Path.{◌≡◌, refl, sym, ap, ◌≡⟨◌⟩◌, ◌∎}
use mathlib.Core.Logic.{inl, inr}
use mathlib.Core.Bool.{false}
use mathlib.Core.List.{[], ◌∷◌, ◌++◌, reverse, reverse-append, reverse-reverse}
use api_v.Base.Tests.{Bool-cases}
use api_v.Base.Strings.{Text, is_space, trim_start, trim}

-- The text does not begin with white space.
abbrev IsClean : Text → Type 0
IsClean [] = Unit
IsClean (c ∷ _) = is_space c ≡ false

trim_start-IsClean : (s : Text) → IsClean (trim_start s)
unfolding trim_start
trim_start-IsClean [] = tt
trim_start-IsClean (c ∷ s) = elim (Bool-cases (is_space c)) [
  | inl t ↦ rw t (trim_start-IsClean s)
  | inr t ↦ rw t t
]

trim_start_of_IsClean : (s : Text) → IsClean s → trim_start s ≡ s
unfolding trim_start
trim_start_of_IsClean [] h = refl
trim_start_of_IsClean (c ∷ s) h = rw h

-- What `trim_start` cuts off.
trim_start_prefix : (s : Text) → (pre : Text) × (s ≡ pre ++ trim_start s)
unfolding trim_start
trim_start_prefix [] = ([], refl)
trim_start_prefix (c ∷ s) = elim (Bool-cases (is_space c)) [
  | inl t ↦ let (pre, e) = trim_start_prefix s in (c ∷ pre, rw t (ap (◌∷◌ c) e))
  | inr t ↦ ([], rw t)
]

IsClean-of_append : (s t : Text) → IsClean (s ++ t) → IsClean s
IsClean-of_append [] t h = tt
IsClean-of_append (c ∷ s) t h = h

trim-IsClean : (s : Text) → IsClean (trim s)
unfolding trim
trim-IsClean s =
    let (pre, e) = trim_start_prefix (reverse (trim_start s)) in
    let whole : trim_start s ≡ trim s ++ reverse pre =
      trim_start s
      ≡⟨ sym (reverse-reverse (trim_start s)) ⟩ reverse (reverse (trim_start s))
      ≡⟨ ap reverse e ⟩ reverse (pre ++ trim_start (reverse (trim_start s)))
      ≡⟨ reverse-append pre _ ⟩ trim s ++ reverse pre ∎ in
    IsClean-of_append (trim s) (reverse pre) (rw (← whole) (trim_start-IsClean s))

pub trim_idem : (s : Text) → trim (trim s) ≡ trim s
unfolding trim
trim_idem s =
    let inner = trim_start (reverse (trim_start s)) in
    reverse (trim_start (reverse (trim_start (reverse inner))))
    ≡⟨ ap (λ t. reverse (trim_start (reverse t)))
        (trim_start_of_IsClean (reverse inner) (trim-IsClean s)) ⟩
      reverse (trim_start (reverse (reverse inner)))
    ≡⟨ ap (λ t. reverse (trim_start t)) (reverse-reverse inner) ⟩ reverse (trim_start inner)
    ≡⟨ ap reverse (trim_start_of_IsClean inner (trim_start-IsClean (reverse (trim_start s)))) ⟩
      reverse inner ∎
