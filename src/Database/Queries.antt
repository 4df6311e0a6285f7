-- ===== src/Database/Queries.antt =====
-- What is among the rows that a query returns and the code then filters.
use api_v.Base.{
  ℕ, ◌≡◌, ◌↔◌, sym, subst, inl, inr, Bool, true, false, refl, ap, true_not_false, ◌&&◌, some, List,
  [], ◌∷◌, ◌==◌, ==_iff, any, filter, Every, Bool-cases, some_injective, ◌∙◌, arith,
}
use api_v.Database.{Table, IsLawful}

module _ {Row : Type 0} (key : Row → ℕ) (T : Table Row) (lawful : IsLawful key T) where
  among :
      (i : ℕ) (p q : Row → Bool) (s : T.State) (rows : List Row)
      → Every (λ r. (p r ≡ true) × (T.find_unique (key r) s ≡ some r)) rows
      → any (λ r. key r == i) (filter q rows) ≡ true
      → (r : Row) × (T.find_unique i s ≡ some r) × (p r ≡ true) × (q r ≡ true)
  among i p q s [] all h = cc
  among i p q s (r ∷ rows) all h = elim (Bool-cases (q r && key r == i)) [
    | inl e ↦
        (r, subst (λ j. T.find_unique j s ≡ some r) (ground arith) all.0.1, all.0.0, ground arith)
    | inr e ↦ among i p q s rows all.1 (ground arith)
  ]

  stays_among :
      (i : ℕ) (p q : Row → Bool) (s : T.State) (rows : List Row) (r : Row)
      → Every (λ r. (p r ≡ true) × (T.find_unique (key r) s ≡ some r)) rows
      → T.find_unique i s ≡ some r
      → q r ≡ true
      → any (λ r. key r == i) rows ≡ true
      → any (λ r. key r == i) (filter q rows) ≡ true
  stays_among i p q s [] r all u t h = h
  stays_among i p q s (o ∷ rows) r all u t h = elim (Bool-cases (key o == i)) [
    | inl e ↦ ground (
      arith,
      subst (λ x. q x ≡ true)
          (some_injective
            (sym u ∙ subst (λ j. T.find_unique j s ≡ some o) ((==_iff (key o) i).0 e) all.0.1))
          t,
    )
    | inr e ↦ ground (arith, stays_among i p q s rows r all.1 u t (ground arith))
  ]

  -- The key is among the filtered rows of a query exactly where its row passes both tests.
  pub among_iff :
      (i : ℕ) (p q : Row → Bool) (s : T.State)
      → (any (λ r. key r == i) (filter q (T.find_many p s)) ≡ true)
        ↔ ((r : Row) × (T.find_unique i s ≡ some r) × (p r ≡ true) × (q r ≡ true))
  among_iff i p q s = (
    (λ h. among i p q s (T.find_many p s) (lawful.find_many_passes p s) h),
    λ (r, u, t, v).
        stays_among i p q s (T.find_many p s) r (lawful.find_many_passes p s) u v
          (lawful.find_many_all p s i r u t),
  )

  -- A query returns a row of a key exactly where the row of that key passes its test.
  pub find_many_key :
      (p : Row → Bool) (s : T.State) (i : ℕ) (r : Row)
      → T.find_unique i s ≡ some r
      → any (λ q. key q == i) (T.find_many p s) ≡ p r
  find_many_key p s i r h = elim (Bool-cases (p r)) [
    | inl e ↦ lawful.find_many_all p s i r h e ∙ sym e
    | inr e ↦ go (T.find_many p s) (lawful.find_many_passes p s) e ∙ sym e
  ]
    where
      go :
          (rows : List Row)
          → Every (λ r. (p r ≡ true) × (T.find_unique (key r) s ≡ some r)) rows
          → p r ≡ false
          → any (λ q. key q == i) rows ≡ false
      go [] all e = refl
      go (q ∷ rows) all e = elim (Bool-cases (key q == i)) [
        | inl u ↦ absurd (
            true_not_false (
              sym all.0.0
              ∙ ap p (
                  some_injective (
                    sym (subst (λ m. T.find_unique m s ≡ some q) ((==_iff (key q) i).0 u) all.0.1)
                    ∙ h))
              ∙ e))
        | inr u ↦ ground (arith, go rows all.1 e)
      ]
