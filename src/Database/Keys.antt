-- ===== src/Database/Keys.antt =====
-- A query for a key and more is a look-up of the key.
use api_v.Base.{
  ℕ, ◌≡◌, refl, sym, ap, ◌∙◌, subst, inl, inr, Bool, ◌&&◌, Option, none, some, ◌==◌, Option-cases,
  arith,
}
use api_v.Database.{Table, IsLawful, passing}

module _ {Row : Type 0} (key : Row → ℕ) (T : Table Row) (lawful : IsLawful key T) where
  pub find_first_key :
      (i : ℕ) (p t : Row → Bool) (s : T.State)
      → ((r : Row) → p r ≡ (key r == i && t r))
      → T.find_first p s ≡ passing t (T.find_unique i s)
  find_first_key i p t s same = elim (Option-cases (T.find_first p s)) [
    | inl e ↦ e ∙ sym (missed (T.find_unique i s) refl e)
    | inr (r, e) ↦
        let (h, u) = lawful.find_first_some p s r e in
        e
        ∙ sym (
            ap (passing t) (subst (λ j. T.find_unique j s ≡ some r) (ground (arith, same r)) u)
            ∙ ground (arith, same r))
  ]
    where
      missed :
          (o : Option Row) → T.find_unique i s ≡ o → T.find_first p s ≡ none → passing t o ≡ none
      missed none h e = refl
      missed (some r) h e =
          ground (arith, same r, lawful.find_first_none p s i r e h, lawful.find_unique_key i s r h)
