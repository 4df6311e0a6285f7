-- ===== src/Catalogue/Approval.antt =====
-- What an approval of a request leaves: `ApproveServiceCategoryRequestHandler`.
use api_v.Base.{
  ℕ, sym, ◌≡◌, ◌≢◌, inl, inr, [], trim, some_injective, Bool-cases, true_not_false, refl, ap, subst,
  ◌∙◌, Bool, true, false, not, ◌&&◌, Option, none, some, is_some, Text, ◌==◌, ==_iff, is_empty,
  if◌then◌else◌, ok, given, passed, passed_test, first_returns, ok_injective, not_found,
  bad_request, arith,
}
use api_v.Catalogue.{
  RequestStatus, pending, rejected, approved, Category, Request, Client, Store, IsLawfulClient,
}
use api_v.Catalogue.Commands.{
  is_live, is_pending, new_category, redescribed, as_approved, approved_name, described, slug_of,
  find_by_name, find_request, check_indexes, category_for, approve_request,
}
use api_v.Catalogue.Steps.{category_for-Writes, is_nothing}
use api_v.Catalogue.Effects.{request_stored}

-- The name of an approval: the one that is given, unless it is blank, or the proposed one.
pub data IsChosen (asked : Option Text) (proposed : Text) : Text → Type 0 where
  by_reviewer : (t : Text) → asked ≡ some t → trim t ≢ [] → IsChosen asked proposed (trim t)
  as_proposed :
      ((t : Text) → asked ≡ some t → trim t ≡ []) → IsChosen asked proposed (trim proposed)

approved_name-IsChosen :
    (asked : Option Text) (proposed : Text) → IsChosen asked proposed (approved_name asked proposed)
approved_name-IsChosen none proposed = as_proposed (λ t e. cc)
approved_name-IsChosen (some u) proposed = elim (Bool-cases (is_empty (trim u))) [
  | inl e ↦
      rw e (as_proposed (λ t same. ap trim (sym (some_injective same)) ∙ is_nothing (trim u) e))
  | inr e ↦
      rw e (by_reviewer u refl (λ none_left. true_not_false (ap is_empty (sym none_left) ∙ e)))
]

pending_of : (s : RequestStatus) → is_pending s ≡ true → s ≡ pending
pending_of pending h = refl
pending_of approved h = cc
pending_of rejected h = cc

module _ (C : Client) where
  -- A live category of that name stands under the key.
  pub record HasCategory (db : Store C) (k : ℕ) (name : Text) : Type 0 where
    pub category : Category
    pub stored : C.categories.find_unique k db.categories ≡ some category
    pub live : is_live category ≡ true
    pub named : C.same_name category.name name ≡ true

  -- The request as it was and as the approval leaves it.
  pub record IsApproved (db after : Store C) (now id reviewer : ℕ) (asked : Option Text)
      : Type 0 where
    pub request : Request
    pub category_id : ℕ
    pub found : find_request C id db ≡ some request
    pub was_pending : request.status ≡ pending
    pub name : Text
    pub chosen : IsChosen asked request.proposed_name name
    pub decided :
        C.requests.find_unique id after.requests
        ≡ some (record request {
          status = approved;
          reviewed_by = some reviewer;
          reviewed_at = some now;
          approved_category_id = some category_id;
        })
    pub category : HasCategory after category_id name

module _ (C : Client) (lawful : IsLawfulClient C) (db : Store C) where
  category_for-HasCategory :
      (name : Text) (given_description description : Option Text) (o : Option Category) (k : ℕ)
      (after : Store C)
      → find_by_name C name db ≡ o
      → category_for C name given_description description o db ≡ ok (k, after)
      → HasCategory C after k name
  category_for-HasCategory name given_description description none k after e h =
      let (_, h1) = passed (check_indexes C (λ c. true) name (slug_of C name) db) _ h in
      let (row, _, stored) =
        lawful.categories.create_row (new_category name (slug_of C name) description) db.categories
          (λ i. refl) in
      subst (λ o. HasCategory C o.1 o.0 name) (ok_injective h1)
        (record {
          category = _;
          stored = stored;
          live = ap is_live row;
          named = ap (λ c. C.same_name c.name name) row ∙ lawful.same_name_refl name;
        })
  category_for-HasCategory name given_description description (some c) k after e h =
      subst (λ o. HasCategory C o.1 o.0 name) (ok_injective h) (go (is_some given_description))
    where
      found :
          (C.same_name c.name name && is_live c ≡ true)
          × (C.categories.find_unique c.id db.categories ≡ some c)
      found =
          lawful.categories.find_first_some (λ c. C.same_name c.name name && is_live c)
            db.categories c e

      go :
          (b : Bool)
          → HasCategory C
              (if b
                then record db {
                  categories = C.categories.update c.id (redescribed description) db.categories;
                }
                else db)
              c.id
              name
      go true = record {
        category = redescribed description c;
        stored =
            lawful.categories.find_unique-update c.id (redescribed description) db.categories c
              found.1 refl;
        live = ground (arith, found.0);
        named = ground (arith, found.0);
      }
      go false = record {
        category = c;
        stored = found.1;
        live = ground (arith, found.0);
        named = ground (arith, found.0);
      }

  -- An approval that returns was given for a request that was pending; the request is then approved,
  -- with the reviewer, the date and a category that stands there, live, under the approved name.
  pub approve_request-IsApproved :
      (now id reviewer : ℕ) (name description : Option Text) (after : Store C)
      → approve_request C now id reviewer name description db ≡ ok after
      → IsApproved C db after now id reviewer name
  unfolding approve_request
  approve_request-IsApproved now id reviewer name description after h =
      let (r, e, h1) =
        given (find_request C id db) (not_found "Demande de categorie non trouvee") _ h in
      let (guard, h2) =
        passed_test (not (is_pending r.status)) (bad_request "Cette demande a deja ete traitee") _
          h1 in
      let (_, h3) =
        passed_test (is_empty (approved_name name r.proposed_name))
          (bad_request "Le nom approuve est requis") _ h2 in
      let (made, f, h4) =
        first_returns
          (category_for C (approved_name name r.proposed_name) description
            (described description r.proposed_description)
            (find_by_name C (approved_name name r.proposed_name) db) db)
          (λ x. ok record x.1 {
            requests = C.requests.update r.id (as_approved now reviewer x.0) x.1.requests;
          })
          h3 in
      let stands =
        category_for-HasCategory (approved_name name r.proposed_name) description
          (described description r.proposed_description) _ made.0 made.1 refl f in
      let (_, same_requests) =
        category_for-Writes C lawful db (approved_name name r.proposed_name) description
          (described description r.proposed_description) _ made.0 made.1 refl f in
      let (here, _) =
        lawful.requests.find_first_some (λ r. r.id == id && not (is_some r.deleted_at)) db.requests
          r e in
      subst (λ s. IsApproved C db s now id reviewer name) (ok_injective h4)
        (record {
          request = r;
          category_id = made.0;
          found = e;
          was_pending = pending_of r.status (ground (arith, guard));
          name = approved_name name r.proposed_name;
          chosen = approved_name-IsChosen name r.proposed_name;
          decided =
              subst
                (λ i.
                  C.requests.find_unique i
                    (C.requests.update r.id (as_approved now reviewer made.0) made.1.requests)
                  ≡ some (as_approved now reviewer made.0 r))
                ((==_iff r.id id).0 (ground (arith, here)))
                (lawful.requests.find_unique-update r.id (as_approved now reviewer made.0)
                  made.1.requests r
                  (ap (C.requests.find_unique r.id) same_requests
                    ∙ request_stored C lawful db id r e)
                  refl);
          category = record {
            category = stands.category;
            stored = stands.stored;
            live = stands.live;
            named = stands.named;
          };
        })
