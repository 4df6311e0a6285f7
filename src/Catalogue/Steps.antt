-- ===== src/Catalogue/Steps.antt =====
-- The commands on the catalogue as steps of the database, and what each writes.
use api_v.Base.{
  ℕ, ◌≡◌, refl, sym, subst, ◌∙◌, inl, inr, Bool, true, false, not, ◌&&◌, ◌||◌, Option, none, some,
  is_some, [], ◌∷◌, Text, same, same_iff, is_empty, ◌==◌, if◌then◌else◌, ok, passed, ok_injective,
  Bool-cases, arith,
}
use api_v.Catalogue.{Category, Request, Client, Store, IsLawfulClient}
use api_v.Catalogue.Commands.{
  is_live, is_pending, new_category, redescribed, new_request, slug_of, find_by_name, check_indexes,
  create_category, is_other_than, update_category, delete_category, create_request, category_for,
  approve_request, reject_request,
}

pub data Step (C : Client) (db : Store C) : Store C → Type 0 where
  step_create :
      (name : Text) (description : Option Text) (c : Category) (after : Store C)
      → create_category C name description db ≡ ok (c, after)
      → Step C db after
  step_update :
      (id : ℕ) (name description : Option Text) (after : Store C)
      → update_category C id name description db ≡ ok after
      → Step C db after
  step_delete :
      (now id : ℕ) (after : Store C) → delete_category C now id db ≡ ok after → Step C db after
  step_request :
      (professional_id : ℕ) (name : Text) (description : Option Text) (user : Option ℕ)
      (r : Request) (after : Store C)
      → create_request C professional_id name description user db ≡ ok (r, after)
      → Step C db after
  step_approve :
      (now id reviewer : ℕ) (name description : Option Text) (after : Store C)
      → approve_request C now id reviewer name description db ≡ ok after
      → Step C db after
  step_reject :
      (now id reviewer : ℕ) (note : Option Text) (after : Store C)
      → reject_request C now id reviewer note db ≡ ok after
      → Step C db after

pub data Reach (C : Client) (db : Store C) : Store C → Type 0 where
  here : Reach C db db
  next : {mid after : Store C} → Reach C db mid → Step C mid after → Reach C db after

-- No other live category has the name.
unfoldable pub IsFree : (C : Client) → Store C → ℕ → Text → Type 0
IsFree C db id name =
    (j : ℕ) (d : Category)
    → C.categories.find_unique j db.categories ≡ some d
    → is_live d ≡ true
    → C.same_name d.name name ≡ true
    → j ≡ id

-- No two live categories have the same name, whatever the case.
unfoldable pub IsUnique : (C : Client) → Store C → Type 0
IsUnique C db =
    (i j : ℕ) (c d : Category)
    → C.categories.find_unique i db.categories ≡ some c
    → C.categories.find_unique j db.categories ≡ some d
    → is_live c ≡ true
    → is_live d ≡ true
    → C.same_name c.name d.name ≡ true
    → i ≡ j

-- What is written to the categories.
pub data Writes (C : Client) (db : Store C) : C.categories.State → Type 0 where
  writes_nothing : Writes C db db.categories
  adds :
      (name slug : Text) (description : Option Text)
      → find_by_name C name db ≡ none
      → Writes C db (C.categories.create (new_category name slug description) db.categories).1
  keeps_name :
      (f : Category → Category) (c : Category)
      → C.categories.find_unique c.id db.categories ≡ some c
      → ((x : Category) → (f x).id ≡ x.id)
      → ((x : Category) → (f x).name ≡ x.name)
      → ((x : Category) → is_live (f x) ≡ true → is_live x ≡ true)
      → Writes C db (C.categories.update c.id f db.categories)
  renames :
      (f : Category → Category) (c : Category) (name : Text)
      → C.categories.find_unique c.id db.categories ≡ some c
      → ((x : Category) → (f x).id ≡ x.id)
      → ((x : Category) → (f x).name ≡ name)
      → ((x : Category) → is_live (f x) ≡ is_live x)
      → (IsUnique C db → IsFree C db c.id name)
      → Writes C db (C.categories.update c.id f db.categories)

-- What is written to the requests.
pub data Asks (C : Client) (db : Store C) : C.requests.State → Type 0 where
  asks_nothing : Asks C db db.requests
  asks :
      (professional_id : ℕ) (name : Text) (description : Option Text)
      → Asks C db (C.requests.create (new_request professional_id name description) db.requests).1
  decides :
      (f : Request → Request) (r : Request)
      → C.requests.find_unique r.id db.requests ≡ some r
      → is_pending r.status ≡ true
      → ((x : Request) → (f x).id ≡ x.id)
      → Asks C db (C.requests.update r.id f db.requests)

pub is_nothing : (name : Text) → is_empty name ≡ true → name ≡ []
is_nothing [] e = refl
is_nothing (c ∷ s) e = cc

module _ (C : Client) (lawful : IsLawfulClient C) (db : Store C) where
  -- The category of an approval.
  pub category_for-Writes :
      (name : Text) (given_description description : Option Text) (o : Option Category) (k : ℕ)
      (after : Store C)
      → find_by_name C name db ≡ o
      → category_for C name given_description description o db ≡ ok (k, after)
      → Writes C db after.categories × (after.requests ≡ db.requests)
  category_for-Writes name given_description description none k after e h =
      let (_, h1) = passed (check_indexes C (λ c. true) name (slug_of C name) db) _ h in
      subst (λ o. Writes C db o.1.categories × (o.1.requests ≡ db.requests)) (ok_injective h1)
        (adds name (slug_of C name) description e, refl)
  category_for-Writes name given_description description (some c) k after e h =
      subst (λ o. Writes C db o.1.categories × (o.1.requests ≡ db.requests)) (ok_injective h)
        (go (is_some given_description))
    where
      stored : C.categories.find_unique c.id db.categories ≡ some c
      stored =
          (lawful.categories.find_first_some (λ c. C.same_name c.name name && is_live c)
            db.categories c e).1

      go :
          (b : Bool)
          → let after : Store C =
              if b
              then record db {
                categories = C.categories.update c.id (redescribed description) db.categories;
              }
              else db in
            Writes C db after.categories × (after.requests ≡ db.requests)
      go true =
          (keeps_name (redescribed description) c stored (λ x. refl) (λ x. refl) (λ x h. h), refl)
      go false = (writes_nothing, refl)

  found_name :
      (o : Option Category) (id j : ℕ) (d : Category) (name : Text)
      → find_by_name C name db ≡ o
      → is_other_than id o ≡ false
      → IsUnique C db
      → C.categories.find_unique j db.categories ≡ some d
      → is_live d ≡ true
      → C.same_name d.name name ≡ true
      → j ≡ id
  unfolding IsUnique
  found_name none id j d name e other unique k alive s =
      let no =
        lawful.categories.find_first_none (λ c. C.same_name c.name name && is_live c) db.categories
          j d e k in
      ground arith
  found_name (some x) id j d name e other unique k alive s =
      let (t, h) =
        lawful.categories.find_first_some (λ c. C.same_name c.name name && is_live c) db.categories
          x e in
      let near : C.same_name name x.name ≡ true = lawful.same_name_sym name x.name ∙ ground arith in
      unique j x.id d x k h alive (ground arith) (lawful.same_name_trans d.name name x.name s near)
      ∙ ground arith

  -- The guards of an update leave the name to the category.
  pub check_duplicate-IsFree :
      (c : Category) (name slug : Text)
      → IsUnique C db
      → (not (is_empty name) && is_other_than c.id (find_by_name C name db)) ≡ false
      → C.categories.find_first
          (λ x. not (x.id == c.id) && (same x.name name || same x.slug slug))
          db.categories
        ≡ none
      → IsFree C db c.id name
  unfolding IsFree
  check_duplicate-IsFree c name slug unique guard index j d k alive s =
      elim (Bool-cases (is_empty name)) [
        | inl e ↦
            let no =
              lawful.categories.find_first_none
                (λ x. not (x.id == c.id) && (same x.name name || same x.slug slug)) db.categories j
                d index k in
            let named = (same_iff d.name name).1 (
              lawful.same_name_empty d.name
                (subst (λ n. C.same_name d.name n ≡ true) (is_nothing name e) s)
              ∙ sym (is_nothing name e)) in
            sym (lawful.categories.find_unique_key j db.categories d k) ∙ ground arith
        | inr e ↦ found_name _ c.id j d name refl (ground arith) unique k alive s
      ]
