-- ===== src/Base/Finding.antt =====
-- What `find?` returns after a push or a replacement.
use Prim.Native.Nat.{◌≤◌}
use mathlib.Core.Path.{◌≡◌, refl}
use mathlib.Core.Logic.{inl, inr}
use mathlib.Core.Bool.{Bool, true, false}
use mathlib.Core.Option.{none, some}
use mathlib.Core.List.{List, [], ◌∷◌}
use native.Mathlib.Omega.{arith}
use api_v.Base.Tests.{Bool-cases}
use api_v.Base.Lists.{any, find?, replace_first, count, push}

module _ {ℓ} {A : Type ℓ} where
  -- A replacement among elements that fail a test before and after leaves what the test finds.
  pub find-replace_first_ne :
      (p q : A → Bool) (f : A → A) (xs : List A)
      → ((x : A) → q x ≡ true → (p x ≡ false) × (p (f x) ≡ false))
      → find? p (replace_first q f xs) ≡ find? p xs
  find-replace_first_ne p q f [] h = refl
  find-replace_first_ne p q f (x ∷ xs) h = ground (arith, h x, find-replace_first_ne p q f xs h)

  -- Where the new element passes the test by which it is placed, the test finds it.
  pub find-replace_first_self :
      (q : A → Bool) (a x : A) (xs : List A)
      → q a ≡ true
      → find? q xs ≡ some x
      → find? q (replace_first q (λ _. a) xs) ≡ some a
  find-replace_first_self q a x [] t h = cc
  find-replace_first_self q a x (y ∷ xs) t h = ground (arith, find-replace_first_self q a x xs t)

  pub find_of_not_any : (p : A → Bool) (xs : List A) → any p xs ≡ false → find? p xs ≡ none
  find_of_not_any p [] h = refl
  find_of_not_any p (x ∷ xs) h = ground (arith, find_of_not_any p xs)

  pub count_of_found : (p : A → Bool) (xs : List A) (x : A) → find? p xs ≡ some x → 1 ≤ count p xs
  count_of_found p [] x h = cc
  count_of_found p (y ∷ xs) x h = ground (arith, count_of_found p xs x)

  -- A test that only some element of another test can pass finds nothing, once the one element of
  -- that other test is replaced by one that fails.
  pub find-replace_first_gone :
      (p q : A → Bool) (f : A → A) (xs : List A)
      → ((x : A) → p x ≡ true → q x ≡ true)
      → ((x : A) → p (f x) ≡ false)
      → count q xs ≤ 1
      → find? p (replace_first q f xs) ≡ none
  find-replace_first_gone p q f [] h k u = refl
  find-replace_first_gone p q f (x ∷ xs) h k u = elim (Bool-cases (q x)) [
    | inl t ↦ rw (t, k x) (find_of_not_any p xs (only_q xs (ground arith)))
    | inr t ↦ rw t (ground (arith, h x, find-replace_first_gone p q f xs h k (ground arith)))
  ]
    where
      only_q : (ys : List A) → count q ys ≡ 0 → any p ys ≡ false
      only_q [] e = refl
      only_q (y ∷ ys) e = ground (arith, h y, only_q ys)

  pub find-push :
      (p : A → Bool) (a : A) (xs : List A)
      → any p xs ≡ false
      → p a ≡ true
      → find? p (push a xs) ≡ some a
  find-push p a [] h t = rw t
  find-push p a (x ∷ xs) h t = ground (arith, find-push p a xs)

  pub find-push_ne :
      (p : A → Bool) (a : A) (xs : List A) → p a ≡ false → find? p (push a xs) ≡ find? p xs
  find-push_ne p a [] t = rw t
  find-push_ne p a (x ∷ xs) t = ground (arith, find-push_ne p a xs)
