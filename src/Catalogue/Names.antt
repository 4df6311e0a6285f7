-- ===== src/Catalogue/Names.antt =====
-- The names of the live categories over any sequence of commands.
use api_v.Base.{
  ℕ, ◌≡◌, refl, sym, ap, subst, ◌∙◌, inl, inr, Bool, true, false, ◌&&◌, none, some, Text, ◌==◌,
  ==_iff, if◌then◌else◌, arith,
}
use api_v.Database.Writes.{changed_from, find_unique-update_if, find_unique-create_cases}
use api_v.Catalogue.{Category, Client, Store, IsLawfulClient}
use api_v.Catalogue.Commands.{is_live, new_category, find_by_name}
use api_v.Catalogue.Steps.{
  Reach, here, next, IsFree, IsUnique, Writes, writes_nothing, adds, keeps_name, renames,
}
use api_v.Catalogue.Effects.{Step-Writes}

-- A row of an update that keeps the names.
kept :
    (f : Category → Category) (b : Bool) (q : Category)
    → ((x : Category) → (f x).name ≡ x.name)
    → ((x : Category) → is_live (f x) ≡ true → is_live x ≡ true)
    → ((if b then f q else q).name ≡ q.name)
      × (is_live (if b then f q else q) ≡ true → is_live q ≡ true)
kept f true q n l = (n q, l q)
kept f false q n l = (refl, λ h. h)

module _ (C : Client) (lawful : IsLawfulClient C) (db : Store C) where
  from_row :
      (f : Category → Category) (o : Category) (i : ℕ) (x : Category)
      → C.categories.find_unique o.id db.categories ≡ some o
      → ((x : Category) → (f x).id ≡ x.id)
      → C.categories.find_unique i (C.categories.update o.id f db.categories) ≡ some x
      → (q : Category) × (C.categories.find_unique i db.categories ≡ some q)
        × (x ≡ (if q.id == o.id then f q else q))
  from_row f o i x h k e =
      changed_from (λ x. x.id == o.id) f (C.categories.find_unique i db.categories) x
        (sym (
            find_unique-update_if (λ c. c.id) C.categories lawful.categories o.id f db.categories o
              i h k)
          ∙ e)

  -- A live category with the name is what a look-up by name would have found.
  taken :
      (name : Text) (j : ℕ) (d : Category)
      → find_by_name C name db ≡ none
      → C.categories.find_unique j db.categories ≡ some d
      → is_live d ≡ true
      → C.same_name d.name name ≡ true
      → ⊥
  taken name j d e k alive s =
      let no =
        lawful.categories.find_first_none (λ c. C.same_name c.name name && is_live c) db.categories
          j d e k in
      ground arith

  -- After a renaming, the category of the new name is the only one of that name.
  apart :
      (f : Category → Category) (o : Category) (name : Text) (i j : ℕ) (q r : Category) (b c : Bool)
      → ((x : Category) → (f x).name ≡ name)
      → ((x : Category) → is_live (f x) ≡ is_live x)
      → IsFree C db o.id name
      → IsUnique C db
      → C.categories.find_unique i db.categories ≡ some q
      → C.categories.find_unique j db.categories ≡ some r
      → (b ≡ true → i ≡ o.id)
      → (c ≡ true → j ≡ o.id)
      → is_live (if b then f q else q) ≡ true
      → is_live (if c then f r else r) ≡ true
      → C.same_name (if b then f q else q).name (if c then f r else r).name ≡ true
      → i ≡ j
  unfolding IsFree IsUnique
  apart f o name i j q r true true n l free unique h k at_i at_j a b s = at_i refl ∙ sym (at_j refl)
  apart f o name i j q r true false n l free unique h k at_i at_j a b s =
      at_i refl
      ∙ sym (
          free j r k b
            (lawful.same_name_sym r.name name ∙ subst (λ m. C.same_name m r.name ≡ true) (n q) s))
  apart f o name i j q r false true n l free unique h k at_i at_j a b s =
      free i q h a (subst (λ m. C.same_name q.name m ≡ true) (n r) s) ∙ sym (at_j refl)
  apart f o name i j q r false false n l free unique h k at_i at_j a b s = unique i j q r h k a b s

  pub Writes-IsUnique :
      {categories : C.categories.State}
      → Writes C db categories
      → IsUnique C db
      → IsUnique C (record db { categories = categories })
  unfolding IsUnique
  Writes-IsUnique writes_nothing unique i j c d h k a b s = unique i j c d h k a b s
  Writes-IsUnique (adds name slug description absent) unique i j c d h k a b s =
      let at =
        find_unique-create_cases (λ c. c.id) C.categories lawful.categories
          (new_category name slug description) db.categories in
      elim (at i c (λ i. refl) h) [
        | inl (e, p) ↦ elim (at j d (λ i. refl) k) [
          | inl (f, q) ↦ sym p ∙ q
          | inr w ↦ absurd (
              taken name j d absent w b (
                lawful.same_name_sym d.name name
                ∙ subst (λ x. C.same_name x.name d.name ≡ true) e s))
        ]
        | inr v ↦ elim (at j d (λ i. refl) k) [
          | inl (f, q) ↦
              absurd (taken name i c absent v a (subst (λ x. C.same_name c.name x.name ≡ true) f s))
          | inr w ↦ unique i j c d v w a b s
        ]
      ]
  Writes-IsUnique (keeps_name f o stored same_id n l) unique i j c d h k a b s =
      let (q, at_i, e) = from_row f o i c stored same_id h in
      let (r, at_j, g) = from_row f o j d stored same_id k in
      let (name_q, live_q) = kept f (q.id == o.id) q n l in
      let (name_r, live_r) = kept f (r.id == o.id) r n l in
      unique i j q r at_i at_j (live_q (sym (ap is_live e) ∙ a)) (live_r (sym (ap is_live g) ∙ b)) (
        sym (
          ap (λ m. C.same_name m d.name) (ap (λ x. x.name) e ∙ name_q)
          ∙ ap (C.same_name q.name) (ap (λ x. x.name) g ∙ name_r))
        ∙ s)
  Writes-IsUnique (renames f o name stored same_id n l free) unique i j c d h k a b s =
      let (q, at_i, e) = from_row f o i c stored same_id h in
      let (r, at_j, g) = from_row f o j d stored same_id k in
      apart f o name i j q r (q.id == o.id) (r.id == o.id) n l (free unique) unique at_i at_j
        (λ t.
          sym (lawful.categories.find_unique_key i db.categories q at_i) ∙ (==_iff q.id o.id).0 t)
        (λ t.
          sym (lawful.categories.find_unique_key j db.categories r at_j) ∙ (==_iff r.id o.id).0 t)
        (sym (ap is_live e) ∙ a) (sym (ap is_live g) ∙ b)
        (sym (
            ap (λ x. C.same_name x.name d.name) e
            ∙ ap (λ x. C.same_name (if q.id == o.id then f q else q).name x.name) g)
          ∙ s)

module _ (C : Client) (lawful : IsLawfulClient C) where
  -- Where the names of the live categories are unique without regard to case, they are so after any
  -- sequence of commands: creations, renamings, deletions, requests, approvals and rejections.
  pub Reach-IsUnique : {db after : Store C} → Reach C db after → IsUnique C db → IsUnique C after
  unfolding IsUnique
  Reach-IsUnique here unique = unique
  Reach-IsUnique (next {mid} reach step) unique =
      let before = Reach-IsUnique reach unique in
      Writes-IsUnique C lawful mid (Step-Writes C lawful mid step).0 before
