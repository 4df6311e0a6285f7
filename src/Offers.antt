-- ===== src/Offers.antt =====
-- The commands on the services of a professional, in
-- src/modules/professional/interface/handlers/service.handlers.ts, and
-- src/modules/sentinel/services/professional-eligibility.service.ts, which they call. The repository
-- gives the aggregate, or nothing, and saves it whole: a handler takes what `findById` gave and
-- returns what is stored in the end. `randomUUID()` is an argument, and so is the user's first name,
-- where there is a user. The cleanup of files and what is shown of a service are not modelled.
pub mod Eligibility
pub mod Deactivation
pub mod Steps
pub mod Soundness
mod Tests
use api_v.Base.{
  ℕ, Bool, true, false, not, ◌&&◌, ◌||◌, Option, none, some, is_some, get_or_else, or_else, List,
  [], ◌∷◌, ltb, length, ◌==◌, if◌then◌else◌, replace_first, ℤ, pos, ltb_ℤ, leb_ℤ, Text, codes,
  is_empty, trim, Result, ok, not_found, bad_request, forbidden, throw_if, required, ◌>>=◌, ◌>>◌,
}
use api_v.Database.{Table}
use api_v.Booking.{Booking, BookingStatus, cancelled, is_pending, is_confirmed}
use api_v.Service.{
  ServiceOffering, CreateProps, create, set_image, clear_image, set_commune_fee, activate,
  deactivate,
}
use api_v.Professional.{Professional, ServiceLocation, home, salon, both}
use api_v.Professional.Services.{
  add_service, remove_service, get_service, has_id, get_active_services,
}
use api_v.Professional.Visibility.{is_truthy}
use api_v.Catalogue.{Category, Client, Store}
use api_v.Catalogue.Commands.{is_live}

abbrev pub is_salon : ServiceLocation → Bool
is_salon salon = true
is_salon _ = false

-- `text?.trim()`, tested
abbrev pub has_text : Option Text → Bool
has_text none = false
has_text (some text) = not (is_empty (trim text))

abbrev pub is_nonempty : {A : Type 0} → List A → Bool
is_nonempty [] = false
is_nonempty (_ ∷ _) = true

-- The first name of the user, and the columns of the professional.
unfoldable pub is_eligible : Option Text → Professional → Bool
is_eligible first_name p =
    has_text first_name
    && is_nonempty p.main_categories
    && (not (is_empty (trim p.agency_name)) && is_truthy p.avatar_url && has_text p.bio)
    && is_nonempty (get_active_services p)
    && (not (is_salon p.location) || is_truthy p.address)

abbrev pub is_manually_paused : ℕ → Option ℕ → Bool
is_manually_paused now none = false
is_manually_paused now (some until) = ltb now until

-- The user may be missing, and a deleted professional is not read.
unfoldable pub refresh : ℕ → Option (Option Text) → Professional → Professional
refresh now none p = p
refresh now (some first_name) p = if is_some p.deleted_at then p else record p {
  is_listing_active = is_eligible first_name p;
  is_accepting_bookings =
      is_eligible first_name p && not (is_manually_paused now p.bookings_paused_until);
  updated_at = now;
}

-- `getService(id)`, changed in place
abbrev pub with_service : ℕ → (ServiceOffering → ServiceOffering) → Professional → Professional
with_service id f p = record p {
  services = replace_first (λ s. has_id id s && not (is_some s.deleted_at)) f p.services;
}

-- The look-ups that the commands on one service begin with.
abbrev pub find_service : ℕ → Option Professional → Result (Professional × ServiceOffering)
find_service id found = do
  professional ← required found (not_found "Professionnel non trouve")
  service ← required (get_service id professional) (not_found "Service non trouve")
  ok (professional, service)

-- `if (url) service.setImage(url)`
abbrev pub with_image : ℕ → Option Text → ServiceOffering → ServiceOffering
with_image now none s = s
with_image now (some url) s = if is_empty url then s else set_image now url s

-- `DeleteServiceHandler`
unfoldable pub delete_service :
    ℕ → Option (Option Text) → ℕ → Option Professional → Result Professional
delete_service now user id found = do
  professional ← required found (not_found "Professionnel non trouve")
  saved ← remove_service now id professional
  ok (refresh now user saved)

-- `SetServiceCommuneFeeHandler`
unfoldable pub set_fee : ℕ → ℕ → Text → ℤ → Option Professional → Result Professional
set_fee now id commune travel_fee found = do
  there ← find_service id found
  throw_if (ltb_ℤ travel_fee (pos 0)) (bad_request "Travel fee cannot be negative")
  changed ← set_commune_fee now commune travel_fee there.1
  ok (with_service id (λ _. changed) there.0)

-- `ActivateServiceHandler`
unfoldable pub activate_service :
    ℕ → Option (Option Text) → ℕ → Option Professional → Result Professional
activate_service now user id found = do
  there ← find_service id found
  ok (refresh now user (with_service id (activate now) there.0))

-- `RemoveServiceImageHandler`
unfoldable pub remove_service_image : ℕ → ℕ → Option Professional → Result Professional
remove_service_image now id found = do
  there ← find_service id found
  ok (with_service id (clear_image now) there.0)

-- `where: { serviceId, status: { in: [PENDING, CONFIRMED] }, deletedAt: null }`
abbrev pub is_open_for : ℕ → Booking → Bool
is_open_for id b =
    b.service_id == id
    && (is_pending b.status || is_confirmed b.status)
    && not (is_some b.deleted_at)

abbrev pub as_cancelled : ℕ → Booking → Booking
as_cancelled now b = record b {
  status = cancelled;
  cancelled_at = some now;
  cancellation_note = some (codes "Service désactivé par le professionnel.");
}

-- `DeactivateServiceHandler`, with the table of bookings.
unfoldable pub deactivate_service :
    (T : Table Booking)
    → ℕ
    → Option (Option Text)
    → ℕ
    → Option Professional
    → T.State
    → Result (Professional × T.State)
deactivate_service T now user id found bookings = do
  there ← find_service id found
  ok (
    refresh now user (with_service id (deactivate now) there.0),
    T.update_many (is_open_for id) (as_cancelled now) bookings,
  )

-- The changes of an `UpdateServiceCommand`.
pub record Edit : Type 0 where
  pub name : Option Text
  pub description : Option Text
  pub duration_min : Option ℤ
  pub base_price : Option ℤ
  pub category : Option Text
  pub image_url : Option Text

-- A number that is given and fails a test.
abbrev pub fails : (ℤ → Bool) → Option ℤ → Bool
fails test none = false
fails test (some n) = test n

-- `command.requesterUserId && owner.userId !== command.requesterUserId`
abbrev pub is_other_user : Option ℕ → Professional → Bool
is_other_user none p = false
is_other_user (some user) p = not (p.user_id == user)

abbrev pub edited : ℕ → Edit → Text → ServiceOffering → ServiceOffering
edited now e category s = record s {
  name = get_or_else e.name s.name;
  description = or_else e.description s.description;
  duration_min = get_or_else e.duration_min s.duration_min;
  base_price = get_or_else e.base_price s.base_price;
  category = category;
  image_url = or_else e.image_url s.image_url;
  updated_at = now;
}

-- The category that a service may have, by its name.
module _ (C : Client) where
  abbrev pub find_listed : Text → Store C → Option Category
  find_listed name db =
      C.categories.find_first (λ c. C.same_name c.name name && c.is_active && is_live c)
        db.categories

  abbrev pub check_category : Text → Store C → Result Category
  check_category name db = do
    throw_if (is_empty (trim name)) (bad_request "Le nom de la categorie est requis")
    required (find_listed (trim name) db) (not_found "Categorie introuvable.")

  -- `AddServiceHandler`; the category in the properties is the one asked for.
  unfoldable pub add :
      ℕ
      → Option (Option Text)
      → CreateProps
      → Option Text
      → Option Professional
      → Store C
      → Result Professional
  add now user props image_url found db = do
    professional ← required found (not_found "Professionnel non trouve")
    category ← check_category props.category db
    service ← create now (record props { category = category.name })
    saved ← add_service now (with_image now image_url service) professional
    ok (refresh now user saved)

  -- The category that is asked for, or the one of the service.
  abbrev pub category_after : Option Text → Text → Store C → Result Text
  category_after none old db = ok old
  category_after (some name) old db = do category ← check_category name db; ok category.name

  -- `UpdateServiceHandler`: the professional that owns the row of the service is the one found.
  unfoldable pub update :
      ℕ → Option ℕ → ℕ → Edit → Option Professional → Store C → Result Professional
  update now requester id e found db = do
    owner ← required found (not_found "Service non trouve")
    throw_if (is_other_user requester owner) (forbidden "Vous ne pouvez pas modifier ce service")
    service ← required (get_service id owner) (not_found "Service non trouve")
    throw_if (fails (λ n. leb_ℤ n (pos 0)) e.duration_min)
        (bad_request "Duration must be greater than 0")
    throw_if (fails (λ n. ltb_ℤ n (pos 0)) e.base_price) (bad_request "Price cannot be negative")
    category ← category_after e.category service.category db
    ok (with_service id (edited now e category) owner)
