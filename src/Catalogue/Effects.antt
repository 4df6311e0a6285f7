-- ===== src/Catalogue/Effects.antt =====
-- What each command on the catalogue writes to the categories and to the requests.
use api_v.Base.{
  ℕ, ◌≡◌, refl, sym, ap, subst, true, false, not, ◌&&◌, Option, none, some, is_some, Text, trim,
  is_empty, ◌==◌, ok, given, passed, passed_test, first_returns, ok_injective, not_found,
  bad_request, forbidden, arith,
}
use api_v.Catalogue.{Category, Request, Client, Store, IsLawfulClient}
use api_v.Catalogue.Commands.{
  is_live, is_pending, renamed, removed, as_approved, as_rejected, approved_name, described,
  trimmed_or_null, slug_of, find_by_name, find_category, find_request, check_indexes,
  create_category, update_category, delete_category, create_request, category_for, is_foreign,
  approve_request, reject_request,
}
use api_v.Catalogue.Steps.{
  Step, step_create, step_update, step_delete, step_request, step_approve, step_reject, Writes,
  writes_nothing, adds, keeps_name, renames, Asks, asks_nothing, asks, decides, category_for-Writes,
  check_duplicate-IsFree,
}

-- A look-up that must find nothing has found nothing.
not_there : {V : Type 0} (o : Option V) → is_some o ≡ false → o ≡ none
not_there none e = refl
not_there (some v) e = cc

never_live : (now : ℕ) (c : Category) → is_live (removed now c) ≡ true → is_live c ≡ true
never_live now c h = cc

module _ (C : Client) (lawful : IsLawfulClient C) (db : Store C) where
  Effect : Store C → Type 0
  Effect after = Writes C db after.categories × Asks C db after.requests

  category_stored :
      (id : ℕ) (c : Category)
      → find_category C id db ≡ some c
      → C.categories.find_unique c.id db.categories ≡ some c
  category_stored id c h =
      (lawful.categories.find_first_some (λ c. c.id == id && is_live c) db.categories c h).1

  pub request_stored :
      (id : ℕ) (r : Request)
      → find_request C id db ≡ some r
      → C.requests.find_unique r.id db.requests ≡ some r
  request_stored id r h =
      (lawful.requests.find_first_some (λ r. r.id == id && not (is_some r.deleted_at)) db.requests r
        h).1

  create_effect :
      (name : Text) (description : Option Text) (o : Category × Store C)
      → create_category C name description db ≡ ok o
      → Effect o.1
  unfolding create_category Effect
  create_effect name description o h =
      let (_, h1) = passed_test _ _ _ h in
      let (absent, h2) = passed_test _ _ _ h1 in
      let (_, h3) =
        passed (check_indexes C (λ c. true) (trim name) (slug_of C (trim name)) db) _ h2 in
      subst Effect (ap (λ x. x.1) (ok_injective h3)) (
        adds (trim name) (slug_of C (trim name)) (trimmed_or_null description) (not_there _ absent),
        asks_nothing,
      )

  update_effect :
      (id : ℕ) (name description : Option Text) (after : Store C)
      → update_category C id name description db ≡ ok after
      → Effect after
  unfolding update_category Effect
  update_effect id none description after h =
      let (c, e, h1) = given (find_category C id db) (not_found "Categorie non trouvee") _ h in
      let (_, h2) = passed (check_indexes C _ c.name c.slug db) _ h1 in
      subst Effect (ok_injective h2) (
        keeps_name (renamed (slug_of C) none description) c (category_stored id c e) (λ x. refl)
            (λ x. refl) (λ x a. a),
        asks_nothing,
      )
  update_effect id (some name) description after h =
      let (c, e, h1) = given (find_category C id db) (not_found "Categorie non trouvee") _ h in
      let (guard, h2) = passed_test _ _ _ h1 in
      let (index, h3) = passed_test _ _ _ h2 in
      subst Effect (ok_injective h3) (
        renames (renamed (slug_of C) (some (trim name)) description) c (trim name)
            (category_stored id c e) (λ x. refl) (λ x. refl) (λ x. refl)
            (λ unique.
              check_duplicate-IsFree C lawful db c (trim name) _ unique guard (not_there _ index)),
        asks_nothing,
      )

  delete_effect :
      (now id : ℕ) (after : Store C) → delete_category C now id db ≡ ok after → Effect after
  unfolding delete_category Effect
  delete_effect now id after h =
      let (c, e, h1) = given (find_category C id db) (not_found "Categorie non trouvee") _ h in
      let (_, h2) = passed_test _ _ _ h1 in
      subst Effect (ok_injective h2) (
        keeps_name (removed now) c (category_stored id c e) (λ x. refl) (λ x. refl)
            (never_live now),
        asks_nothing,
      )

  request_effect :
      (professional_id : ℕ) (name : Text) (description : Option Text) (user : Option ℕ)
      (o : Request × Store C)
      → create_request C professional_id name description user db ≡ ok o
      → Effect o.1
  unfolding create_request Effect
  request_effect professional_id name description user o h =
      let (_, h1) =
        passed_test (is_empty (trim name)) (bad_request "Le nom propose est requis") _ h in
      let (owner, _, h2) =
        given
          (C.owners.find_first (λ o. o.id == professional_id && not (is_some o.deleted_at))
            db.owners)
          (not_found "Professionnel non trouve") _ h1 in
      let (_, h3) =
        passed_test (is_foreign user owner)
          (forbidden "Vous ne pouvez pas soumettre une demande pour ce profil") _ h2 in
      subst Effect (ap (λ x. x.1) (ok_injective h3))
        (writes_nothing, asks professional_id (trim name) (trimmed_or_null description))

  approve_effect :
      (now id reviewer : ℕ) (name description : Option Text) (after : Store C)
      → approve_request C now id reviewer name description db ≡ ok after
      → Effect after
  unfolding approve_request Effect
  approve_effect now id reviewer name description after h =
      let (r, e, h1) =
        given (find_request C id db) (not_found "Demande de categorie non trouvee") _ h in
      let (guard, h2) =
        passed_test (not (is_pending r.status)) (bad_request "Cette demande a deja ete traitee") _
          h1 in
      let (_, h3) =
        passed_test (is_empty (approved_name name r.proposed_name))
          (bad_request "Le nom approuve est requis") _ h2 in
      let (found, f, h4) =
        first_returns
          (category_for C (approved_name name r.proposed_name) description
            (described description r.proposed_description)
            (find_by_name C (approved_name name r.proposed_name) db) db)
          (λ x. ok record x.1 {
            requests = C.requests.update r.id (as_approved now reviewer x.0) x.1.requests;
          })
          h3 in
      let (w, same_requests) =
        category_for-Writes C lawful db (approved_name name r.proposed_name) description
          (described description r.proposed_description) _ found.0 found.1 refl f in
      subst Effect (ok_injective h4) (
        w,
        subst (λ s. Asks C db (C.requests.update r.id (as_approved now reviewer found.0) s))
            (sym same_requests)
            (decides (as_approved now reviewer found.0) r (request_stored id r e) (ground arith)
              (λ x. refl)),
      )

  reject_effect :
      (now id reviewer : ℕ) (note : Option Text) (after : Store C)
      → reject_request C now id reviewer note db ≡ ok after
      → Effect after
  unfolding reject_request Effect
  reject_effect now id reviewer note after h =
      let (r, e, h1) =
        given (find_request C id db) (not_found "Demande de categorie non trouvee") _ h in
      let (guard, h2) =
        passed_test (not (is_pending r.status)) (bad_request "Cette demande a deja ete traitee") _
          h1 in
      subst Effect (ok_injective h2) (
        writes_nothing,
        decides (as_rejected now reviewer note) r (request_stored id r e) (ground arith)
            (λ x. refl),
      )

  pub Step-Writes :
      {after : Store C} → Step C db after → Writes C db after.categories × Asks C db after.requests
  unfolding Effect
  Step-Writes (step_create name description c after h) = create_effect name description (c, after) h
  Step-Writes (step_update id name description after h) = update_effect id name description after h
  Step-Writes (step_delete now id after h) = delete_effect now id after h
  Step-Writes (step_request professional_id name description user r after h) =
      request_effect professional_id name description user (r, after) h
  Step-Writes (step_approve now id reviewer name description after h) =
      approve_effect now id reviewer name description after h
  Step-Writes (step_reject now id reviewer note after h) =
      reject_effect now id reviewer note after h
