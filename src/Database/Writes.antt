-- ===== src/Database/Writes.antt =====
-- What a look-up finds after a write, in the forms in which the proofs about handlers use it.
use api_v.Base.{
  ℕ, ◌≡◌, ◌≢◌, ◌⊎◌, inl, inr, refl, sym, ap, subst, ◌∙◌, Bool, true, false, Option, none, some,
  List, [], ◌∷◌, ◌==◌, ==_iff, if◌then◌else◌, any, Every, Bool-cases, some_injective, arith,
}
use api_v.Database.{Table, IsLawful, passing, changed_if}

-- Where a changed row is found, there was a row before.
pub changed_from :
    {Row : Type 0} (p : Row → Bool) (f : Row → Row) (o : Option Row) (q : Row)
    → changed_if p f o ≡ some q
    → (r : Row) × (o ≡ some r) × (q ≡ (if p r then f r else r))
changed_from p f none q h = cc
changed_from p f (some r) q h = (r, refl, ground arith)

module _ {Row : Type 0} (key : Row → ℕ) (T : Table Row) (lawful : IsLawful key T) where
  -- An update of a row that is there changes the row with that key.
  pub find_unique-update_if :
      (i : ℕ) (f : Row → Row) (s : T.State) (r : Row) (j : ℕ)
      → T.find_unique i s ≡ some r
      → ((x : Row) → key (f x) ≡ key x)
      → T.find_unique j (T.update i f s) ≡ changed_if (λ x. key x == i) f (T.find_unique j s)
  find_unique-update_if i f s r j h k = elim (Bool-cases (i == j)) [
    | inl e ↦
        subst
          (λ m.
            T.find_unique m (T.update i f s) ≡ changed_if (λ x. key x == i) f (T.find_unique m s))
          ((==_iff i j).0 e)
          (lawful.find_unique-update i f s r h (k r ∙ lawful.find_unique_key i s r h)
            ∙ sym (
                ap (changed_if (λ x. key x == i) f) h
                ∙ ground (arith, lawful.find_unique_key i s r h)))
    | inr e ↦
        lawful.find_unique-update_ne i j f s (ground arith)
        ∙ unchanged (T.find_unique j s) (lawful.find_unique_key j s) (ground arith)
  ]
    where
      unchanged :
          (o : Option Row)
          → ((x : Row) → o ≡ some x → key x ≡ j)
          → i ≢ j
          → o ≡ changed_if (λ x. key x == i) f o
      unchanged none l n = refl
      unchanged (some x) l n = ground (arith, l x refl)

  -- After a creation a look-up finds the new row, or what was there.
  pub find_unique-create_cases :
      (f : ℕ → Row) (s : T.State) (j : ℕ) (q : Row)
      → ((i : ℕ) → key (f i) ≡ i)
      → T.find_unique j (T.create f s).1 ≡ some q
      → ((q ≡ f j) × (key (T.create f s).0 ≡ j)) ⊎ (T.find_unique j s ≡ some q)
  find_unique-create_cases f s j q k h = elim (Bool-cases (key (T.create f s).0 == j)) [
    | inl e ↦
        let (row, _, stored) = lawful.create_row f s k in
        inl (
          subst (λ m. T.find_unique m (T.create f s).1 ≡ some q → q ≡ f m)
              ((==_iff (key (T.create f s).0) j).0 e) (λ u. some_injective (sym u ∙ stored) ∙ row)
              h,
          (==_iff (key (T.create f s).0) j).0 e,
        )
    | inr e ↦ inr (sym (lawful.create_ne f s j k (ground arith)) ∙ h)
  ]

  -- A row that is there is there after a creation.
  pub create-keeps :
      (f : ℕ → Row) (s : T.State) (j : ℕ) (q : Row)
      → ((i : ℕ) → key (f i) ≡ i)
      → T.find_unique j s ≡ some q
      → T.find_unique j (T.create f s).1 ≡ some q
  create-keeps f s j q k h =
      lawful.create_ne f s j k (λ e.
        fresh_not (T.find_unique j s)
          (subst (λ m. T.find_unique m s ≡ none) e (lawful.create_row f s k).1) h)
      ∙ h
    where
      fresh_not : (o : Option Row) → o ≡ none → o ≢ some q
      fresh_not none e u = cc
      fresh_not (some x) e u = cc

  -- Where the test fails on the new row, it passes the rows that it passed.
  pub passing-create :
      (p : Row → Bool) (f : ℕ → Row) (s : T.State) (j : ℕ)
      → ((i : ℕ) → key (f i) ≡ i)
      → ((i : ℕ) → p (f i) ≡ false)
      → passing p (T.find_unique j s) ≡ passing p (T.find_unique j (T.create f s).1)
  passing-create p f s j k n = elim (Bool-cases (key (T.create f s).0 == j)) [
    | inl e ↦
        let (row, fresh, stored) = lawful.create_row f s k in
        subst (λ m. passing p (T.find_unique m s) ≡ passing p (T.find_unique m (T.create f s).1))
          ((==_iff (key (T.create f s).0) j).0 e)
          (rw (fresh, stored, row, n (key (T.create f s).0)) refl)
    | inr e ↦ ap (passing p) (sym (lawful.create_ne f s j k (ground arith)))
  ]

  -- The same for an update of a row on which it fails before and after.
  pub passing-update :
      (p : Row → Bool) (f : Row → Row) (s : T.State) (i : ℕ) (r : Row) (j : ℕ)
      → T.find_unique i s ≡ some r
      → key (f r) ≡ i
      → p r ≡ false
      → p (f r) ≡ false
      → passing p (T.find_unique j s) ≡ passing p (T.find_unique j (T.update i f s))
  passing-update p f s i r j h k n m = elim (Bool-cases (i == j)) [
    | inl e ↦
        subst (λ m. passing p (T.find_unique m s) ≡ passing p (T.find_unique m (T.update i f s)))
          ((==_iff i j).0 e) (rw (h, lawful.find_unique-update i f s r h k, n, m) refl)
    | inr e ↦ ap (passing p) (sym (lawful.find_unique-update_ne i j f s (ground arith)))
  ]

  -- A test that no row of a query passes fails on every row that the query is for.
  pub fails_if_none :
      (p t : Row → Bool) (s : T.State) (i : ℕ) (r : Row)
      → any t (T.find_many p s) ≡ false
      → T.find_unique i s ≡ some r
      → p r ≡ true
      → t r ≡ false
  fails_if_none p t s i r none_passes h e =
      go (T.find_many p s) (lawful.find_many_passes p s) none_passes
        (lawful.find_many_all p s i r h e)
    where
      go :
          (rows : List Row)
          → Every (λ q. (p q ≡ true) × (T.find_unique (key q) s ≡ some q)) rows
          → any t rows ≡ false
          → any (λ q. key q == i) rows ≡ true
          → t r ≡ false
      go [] all n a = cc
      go (q ∷ rows) all n a = elim (Bool-cases (key q == i)) [
        | inl u ↦
            subst (λ x. t x ≡ false)
              (some_injective (
                sym (subst (λ m. T.find_unique m s ≡ some q) ((==_iff (key q) i).0 u) all.0.1) ∙ h))
              (ground arith)
        | inr u ↦ go rows all.1 (ground arith) (ground arith)
      ]
