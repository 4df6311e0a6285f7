-- ===== src/Catalogue/Commands.antt =====
-- The commands on the catalogue, in service.handlers.ts. A handler takes the date of the call and
-- returns its row with the database that it leaves.
use api_v.Base.{
  ℕ, Bool, true, false, not, ◌&&◌, ◌||◌, Option, none, some, is_some, length, Text, same, trim,
  is_empty, ltb, ◌==◌, if◌then◌else◌, Result, ok, not_found, bad_request, conflict, forbidden,
  internal, throw_if, required, ◌>>=◌, ◌>>◌,
}
use api_v.Catalogue.{
  RequestStatus, pending, approved, rejected, Category, Request, OwnerRow, Client, Store,
}
use api_v.Catalogue.Slug.{to_category_slug}

abbrev pub is_live : Category → Bool
is_live c = not (is_some c.deleted_at)

-- `text.trim() || null`
abbrev pub or_null : Text → Option Text
or_null text = if is_empty text then none else some text

-- `text?.trim() || null`
abbrev pub trimmed_or_null : Option Text → Option Text
trimmed_or_null none = none
trimmed_or_null (some text) = or_null (trim text)

-- `text?.trim()`
abbrev pub trimmed : Option Text → Option Text
trimmed none = none
trimmed (some text) = some (trim text)

-- `text !== undefined ? text.trim() || null : old`
abbrev pub described : Option Text → Option Text → Option Text
described none old = old
described (some text) old = or_null (trim text)

abbrev pub is_pending : RequestStatus → Bool
is_pending pending = true
is_pending _ = false

abbrev pub new_category : Text → Text → Option Text → ℕ → Category
new_category name slug description id = record {
  id = id;
  name = name;
  slug = slug;
  description = description;
  is_active = true;
  deleted_at = none;
}

-- `nextName ?? category.name`, and the slug of a name that is not empty.
abbrev pub renamed : (Text → Text) → Option Text → Option Text → Category → Category
renamed slug_of none description c = record c { description = described description c.description }
renamed slug_of (some name) description c = record c {
  name = name;
  slug = if is_empty name then c.slug else slug_of name;
  description = described description c.description;
}

abbrev pub removed : ℕ → Category → Category
removed now c = record c { is_active = false; deleted_at = some now }

abbrev pub redescribed : Option Text → Category → Category
redescribed description c = record c { description = description }

abbrev pub new_request : ℕ → Text → Option Text → ℕ → Request
new_request professional_id name description id = record {
  id = id;
  professional_id = professional_id;
  proposed_name = name;
  proposed_description = description;
  status = pending;
  reviewed_by = none;
  reviewed_at = none;
  review_note = none;
  approved_category_id = none;
  deleted_at = none;
}

abbrev pub as_approved : ℕ → ℕ → ℕ → Request → Request
as_approved now reviewer category_id r = record r {
  status = approved;
  reviewed_by = some reviewer;
  reviewed_at = some now;
  approved_category_id = some category_id;
}

abbrev pub as_rejected : ℕ → ℕ → Option Text → Request → Request
as_rejected now reviewer note r = record r {
  status = rejected;
  reviewed_by = some reviewer;
  reviewed_at = some now;
  review_note = trimmed_or_null note;
}

-- `command.approvedName?.trim() || request.proposedName.trim()`
abbrev pub approved_name : Option Text → Text → Text
approved_name none proposed = trim proposed
approved_name (some name) proposed = if is_empty (trim name) then trim proposed else trim name

-- `command.requestedBy && command.requestedBy !== professional.userId`
abbrev pub is_foreign : Option ℕ → OwnerRow → Bool
is_foreign none owner = false
is_foreign (some user) owner = not (user == owner.user_id)

-- `duplicate && duplicate.id !== category.id`
abbrev pub is_other_than : ℕ → Option Category → Bool
is_other_than id none = false
is_other_than id (some c) = not (c.id == id)

module _ (C : Client) where
  abbrev pub slug_of : Text → Text
  slug_of = to_category_slug C.nfd C.lower

  -- `where: { name: { equals, mode: 'insensitive' }, deletedAt: null }`
  abbrev pub find_by_name : Text → Store C → Option Category
  find_by_name name db =
      C.categories.find_first (λ c. C.same_name c.name name && is_live c) db.categories

  abbrev pub find_category : ℕ → Store C → Option Category
  find_category id db = C.categories.find_first (λ c. c.id == id && is_live c) db.categories

  abbrev pub find_request : ℕ → Store C → Option Request
  find_request id db =
      C.requests.find_first (λ r. r.id == id && not (is_some r.deleted_at)) db.requests

  -- The unique indexes of the schema on name and slug, which a write of a row meets; they cover
  -- deleted rows too. The Boolean function says which rows are other ones.
  abbrev pub check_indexes : (Category → Bool) → Text → Text → Store C → Result (Unit {0})
  check_indexes is_other name slug db =
      throw_if
        (is_some (
          C.categories.find_first (λ c. is_other c && (same c.name name || same c.slug slug))
            db.categories))
        (internal "Unique constraint failed")

  abbrev pub created : Text → Option Text → Store C → Category × Store C
  created name description db =
      let made = C.categories.create (new_category name (slug_of name) description) db.categories in
      (made.0, record db { categories = made.1 })

  -- `CreateServiceCategoryHandler`
  unfoldable pub create_category : Text → Option Text → Store C → Result (Category × Store C)
  create_category name description db = do
    throw_if (is_empty (trim name)) (bad_request "Le nom de la categorie est requis")
    throw_if (is_some (find_by_name (trim name) db)) (conflict "Cette categorie existe deja")
    check_indexes (λ c. true) (trim name) (slug_of (trim name)) db
    ok (created (trim name) (trimmed_or_null description) db)

  -- The duplicate is looked up for a new name that is not empty.
  abbrev pub check_duplicate : Option Text → ℕ → Store C → Result (Unit {0})
  check_duplicate none id db = ok tt
  check_duplicate (some name) id db =
      throw_if (not (is_empty name) && is_other_than id (find_by_name name db))
        (conflict "Cette categorie existe deja")

  -- `UpdateServiceCategoryHandler`
  unfoldable pub update_category : ℕ → Option Text → Option Text → Store C → Result (Store C)
  update_category id name description db = do
    category ← required (find_category id db) (not_found "Categorie non trouvee")
    check_duplicate (trimmed name) category.id db
    let next = renamed slug_of (trimmed name) description category in
        check_indexes (λ c. not (c.id == category.id)) next.name next.slug db
    ok (record db {
      categories =
          C.categories.update category.id (renamed slug_of (trimmed name) description)
            db.categories;
    })

  -- `DeleteServiceCategoryHandler`
  unfoldable pub delete_category : ℕ → ℕ → Store C → Result (Store C)
  delete_category now id db = do
    category ← required (find_category id db) (not_found "Categorie non trouvee")
    throw_if
        (ltb 0 (
          length (
            C.offers.find_many (λ o. o.category_id == category.id && not (is_some o.deleted_at))
              db.offers)))
        (bad_request "Impossible de supprimer une categorie associee a des services actifs")
    ok (record db { categories = C.categories.update category.id (removed now) db.categories })

  -- `CreateServiceCategoryRequestHandler`
  unfoldable pub create_request :
      ℕ → Text → Option Text → Option ℕ → Store C → Result (Request × Store C)
  create_request professional_id name description requested_by db = do
    throw_if (is_empty (trim name)) (bad_request "Le nom propose est requis")
    owner ←
        required
          (C.owners.find_first (λ o. o.id == professional_id && not (is_some o.deleted_at))
            db.owners)
          (not_found "Professionnel non trouve")
    throw_if (is_foreign requested_by owner)
        (forbidden "Vous ne pouvez pas soumettre une demande pour ce profil")
    ok (
        let made =
          C.requests.create (new_request professional_id (trim name) (trimmed_or_null description))
            db.requests in
        (made.0, record db { requests = made.1 }))

  -- The category of an approval: the one of that name, or a new one.
  abbrev pub category_for :
      Text → Option Text → Option Text → Option Category → Store C → Result (ℕ × Store C)
  category_for name given_description description (some c) db = ok (
    c.id,
    if is_some given_description
        then record db {
          categories = C.categories.update c.id (redescribed description) db.categories;
        }
        else db,
  )
  category_for name given_description description none db = do
    check_indexes (λ c. true) name (slug_of name) db
    ok ((created name description db).0.id, (created name description db).1)

  -- `ApproveServiceCategoryRequestHandler`
  unfoldable pub approve_request :
      ℕ → ℕ → ℕ → Option Text → Option Text → Store C → Result (Store C)
  approve_request now id reviewer name description db = do
    request ← required (find_request id db) (not_found "Demande de categorie non trouvee")
    throw_if (not (is_pending request.status)) (bad_request "Cette demande a deja ete traitee")
    throw_if (is_empty (approved_name name request.proposed_name))
        (bad_request "Le nom approuve est requis")
    found ←
        category_for (approved_name name request.proposed_name) description
          (described description request.proposed_description)
          (find_by_name (approved_name name request.proposed_name) db) db
    ok (record found.1 {
      requests = C.requests.update request.id (as_approved now reviewer found.0) found.1.requests;
    })

  -- `RejectServiceCategoryRequestHandler`
  unfoldable pub reject_request : ℕ → ℕ → ℕ → Option Text → Store C → Result (Store C)
  reject_request now id reviewer note db = do
    request ← required (find_request id db) (not_found "Demande de categorie non trouvee")
    throw_if (not (is_pending request.status)) (bad_request "Cette demande a deja ete traitee")
    ok (record db {
      requests = C.requests.update request.id (as_rejected now reviewer note) db.requests;
    })
