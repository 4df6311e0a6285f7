-- ===== src/Base/Lists.antt =====
-- Lists as JavaScript arrays: measured by native numbers, with the array methods that take a test.
use Prim.Native.Nat.{ℕ, suc, ◌+◌, ◌≤◌}
use mathlib.Core.Logic.{inl, inr}
use mathlib.Core.Path.{◌≡◌, refl, ap, subst}
use mathlib.Core.Bool.{Bool, true, false, ◌||◌}
use mathlib.Core.Option.{Option, none, some}
use mathlib.Core.List.{List, [], ◌∷◌, ◌++◌}
use native.Mathlib.Omega.{arith}
use api_v.Base.Tests.{if◌then◌else◌, Bool-cases}

module _ {ℓ} {A : Type ℓ} where
  abbrev pub length : List A → ℕ
  length [] = 0
  length (_ ∷ xs) = suc (length xs)

  -- `xs.some(p)`
  abbrev pub any : (A → Bool) → List A → Bool
  any p [] = false
  any p (x ∷ xs) = p x || any p xs

  -- `xs.find(p)`
  abbrev pub find? : (A → Bool) → List A → Option A
  find? p [] = none
  find? p (x ∷ xs) = if p x then some x else find? p xs

  -- `xs.filter(p)`
  abbrev pub filter : (A → Bool) → List A → List A
  filter p [] = []
  filter p (x ∷ xs) = let rest = filter p xs in if p x then x ∷ rest else rest

  -- The first element that passes the test, replaced.
  abbrev pub replace_first : (A → Bool) → (A → A) → List A → List A
  replace_first p f [] = []
  replace_first p f (x ∷ xs) = let rest = replace_first p f xs in if p x then f x ∷ xs else x ∷ rest

  -- How many elements pass the test.
  abbrev pub count : (A → Bool) → List A → ℕ
  count p [] = 0
  count p (x ∷ xs) = (if p x then 1 else 0) + count p xs

  -- `xs.push(x)`
  abbrev pub push : A → List A → List A
  push x xs = xs ++ x ∷ []

  pub length-push : (x : A) (xs : List A) → length (push x xs) ≡ suc (length xs)
  length-push x [] = refl
  length-push x (_ ∷ xs) = ap suc (length-push x xs)

  pub count-push :
      (p : A → Bool) (x : A) (xs : List A)
      → count p (push x xs) ≡ count p xs + (if p x then 1 else 0)
  count-push p x [] = omega arith
  count-push p x (y ∷ xs) = omega (arith, count-push p x xs)

  pub count_of_not_any : (p : A → Bool) (xs : List A) → any p xs ≡ false → count p xs ≡ 0
  count_of_not_any p [] h = refl
  count_of_not_any p (x ∷ xs) h = ground (arith, count_of_not_any p xs)

  pub any_of_find : (p : A → Bool) (xs : List A) (x : A) → find? p xs ≡ some x → any p xs ≡ true
  any_of_find p [] x h = cc
  any_of_find p (y ∷ xs) x h = ground (arith, any_of_find p xs x)

  pub find_holds : (p : A → Bool) (xs : List A) (x : A) → find? p xs ≡ some x → p x ≡ true
  find_holds p [] x h = cc
  find_holds p (y ∷ xs) x h = ground (arith, find_holds p xs x)

  pub find_of_any : (p : A → Bool) (xs : List A) → find? p xs ≡ none → any p xs ≡ false
  find_of_any p [] h = refl
  find_of_any p (y ∷ xs) h = ground (arith, find_of_any p xs)

-- What holds of every element.
module _ {ℓ κ} {A : Type ℓ} (P : A → Type κ) where
  abbrev pub Every : List A → Type κ
  Every [] = Unit
  Every (x ∷ xs) = P x × Every xs

module _ {ℓ} {A : Type ℓ} where
  -- A replacement that does not change a test leaves the count of the test.
  pub count-replace_first :
      (p q : A → Bool) (f : A → A) (xs : List A)
      → ((x : A) → q x ≡ true → p (f x) ≡ p x)
      → count p (replace_first q f xs) ≡ count p xs
  count-replace_first p q f [] h = refl
  count-replace_first p q f (x ∷ xs) h = ground (arith, h x, count-replace_first p q f xs h)

  -- A replacement that can only make a test fail does not raise the count of the test.
  pub count-replace_first_le :
      (p q : A → Bool) (f : A → A) (xs : List A)
      → ((x : A) → q x ≡ true → p (f x) ≡ true → p x ≡ true)
      → count p (replace_first q f xs) ≤ count p xs
  count-replace_first_le p q f [] h = omega arith
  count-replace_first_le p q f (x ∷ xs) h =
      ground (arith, h x, Bool-cases (p (f x)), count-replace_first_le p q f xs h)

  pub Every-push {κ} :
      (P : A → Type κ) (x : A) (xs : List A) → Every P xs → P x → Every P (push x xs)
  Every-push P x [] h k = (k, tt)
  Every-push P x (y ∷ xs) h k = (h.0, Every-push P x xs h.1 k)

  pub Every-replace_first {κ} :
      (P : A → Type κ) (q : A → Bool) (f : A → A) (xs : List A)
      → Every P xs
      → ((x : A) → q x ≡ true → P x → P (f x))
      → Every P (replace_first q f xs)
  Every-replace_first P q f [] h k = tt
  Every-replace_first P q f (x ∷ xs) h k = elim (Bool-cases (q x)) [
    | inl e ↦ rw e (k x e h.0, h.1)
    | inr e ↦ rw e (h.0, Every-replace_first P q f xs h.1 k)
  ]

  -- What `find?` returns has what all elements have.
  pub Every-find {κ} :
      (P : A → Type κ) (q : A → Bool) (xs : List A) (x : A) → Every P xs → find? q xs ≡ some x → P x
  Every-find P q [] x h e = cc
  Every-find P q (y ∷ xs) x h e = elim (Bool-cases (q y)) [
    | inl t ↦ subst P (ground arith) h.0
    | inr t ↦ Every-find P q xs x h.1 (ground arith)
  ]

  -- A test that at most one element passes still is one after a push that checks for the others.
  pub count-push_unique :
      (p : A → Bool) (x : A) (xs : List A)
      → count p xs ≤ 1
      → (p x ≡ true → any p xs ≡ false)
      → count p (push x xs) ≤ 1
  count-push_unique p x xs h k = elim (Bool-cases (p x)) [
    | inl t ↦ rw (count-push p x xs, t, count_of_not_any p xs (k t)) (omega arith)
    | inr t ↦ rw (count-push p x xs, t) (omega arith)
  ]

  pub any-push : (p : A → Bool) (x : A) (xs : List A) → any p (push x xs) ≡ (any p xs || p x)
  any-push p x [] = ground arith
  any-push p x (y ∷ xs) = ground (arith, any-push p x xs)

  pub not_any_of_count : (p : A → Bool) (xs : List A) → count p xs ≡ 0 → any p xs ≡ false
  not_any_of_count p [] h = refl
  not_any_of_count p (x ∷ xs) h = ground (arith, not_any_of_count p xs)
