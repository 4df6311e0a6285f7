-- ===== src/Professional.antt =====
-- src/modules/professional/core/entities/professional.entity.ts: the aggregate root. A method
-- that mutates `this` returns the new record; one that may throw returns a result. `now` is what
-- `new Date()` gives.
pub mod Status
pub mod Images
pub mod Services
pub mod Schedule
pub mod Portfolio
pub mod Visibility
pub mod Tests
use api_v.Base.{
  ℕ, ◌*◌, Bool, true, false, not, ◌&&◌, ◌||◌, Option, none, some, is_some, get_or_else, or_else,
  List, [], ltb, if◌then◌else◌, ℤ, Text, is_empty, trim, Result, ok, bad_request, throw_if, ◌>>=◌,
  ◌>>◌,
}
use api_v.Availability.{Availability}
use api_v.Service.{ServiceOffering, is_blank}
use api_v.Gallery.{GalleryItem}

-- The enum `ProfessionalStatus`.
pub data ProfessionalStatus : Type 0 where
  pending active suspended rejected : ProfessionalStatus

-- The enum `ServiceLocation`.
pub data ServiceLocation : Type 0 where
  home salon both : ServiceLocation

-- An average rating, as the fraction that the double stands for.
pub record Rating : Type 0 where
  pub num : ℕ
  pub den : ℕ

-- Coordinates are only stored: they are counted in millionths of a degree.
pub record Professional : Type 0 where
  pub id : ℕ
  pub user_id : ℕ
  pub agency_name : Text
  pub bio : Option Text
  pub avatar_url : Option Text
  pub location : ServiceLocation
  pub address : Option Text
  pub latitude : Option ℤ
  pub longitude : Option ℤ
  pub amenities : List Text
  pub main_categories : List Text
  pub profile_image_urls : List Text
  pub status : ProfessionalStatus
  pub is_verified : Bool
  pub rejection_reason : Option Text
  pub is_listing_active : Bool
  pub is_accepting_bookings : Bool
  pub bookings_paused_until : Option ℕ
  pub rating : Rating
  pub review_count : ℕ
  pub services : List ServiceOffering
  pub availabilities : List Availability
  pub gallery : List GalleryItem
  pub created_at : ℕ
  pub updated_at : ℕ
  pub deleted_at : Option ℕ

-- The argument of `ProfessionalEntity.create`.
pub record CreateProps : Type 0 where
  pub id : ℕ
  pub user_id : ℕ
  pub agency_name : Text
  pub bio : Option Text
  pub avatar_url : Option Text
  pub location : Option ServiceLocation
  pub address : Option Text
  pub latitude : Option ℤ
  pub longitude : Option ℤ
  pub amenities : Option (List Text)
  pub main_categories : Option (List Text)

-- `create`, with the defaults that the constructor fills in.
unfoldable pub create : ℕ → CreateProps → Result Professional
create now props = do
  throw_if (is_blank props.agency_name) (bad_request "Agency name is required")
  ok (record {
    id = props.id;
    user_id = props.user_id;
    agency_name = props.agency_name;
    bio = props.bio;
    avatar_url = props.avatar_url;
    location = get_or_else props.location both;
    address = props.address;
    latitude = props.latitude;
    longitude = props.longitude;
    amenities = get_or_else props.amenities [];
    main_categories = get_or_else props.main_categories [];
    profile_image_urls = [];
    status = pending;
    is_verified = false;
    rejection_reason = none;
    is_listing_active = true;
    is_accepting_bookings = true;
    bookings_paused_until = none;
    rating = record { num = 0; den = 1 };
    review_count = 0;
    services = [];
    availabilities = [];
    gallery = [];
    created_at = now;
    updated_at = now;
    deleted_at = none;
  })

-- The argument of `updateProfile`.
pub record UpdateProps : Type 0 where
  pub agency_name : Option Text
  pub bio : Option Text
  pub avatar_url : Option Text
  pub location : Option ServiceLocation
  pub address : Option Text
  pub latitude : Option ℤ
  pub longitude : Option ℤ
  pub amenities : Option (List Text)
  pub main_categories : Option (List Text)

-- `name !== undefined && name.trim().length === 0`
abbrev pub blank_if_given : Option Text → Bool
blank_if_given none = false
blank_if_given (some t) = is_empty (trim t)

-- `if (props.agencyName) this.agencyName = props.agencyName`
abbrev pub set_if_truthy : Option Text → Text → Text
set_if_truthy none old = old
set_if_truthy (some t) old = if is_empty t then old else t

unfoldable pub update_profile : ℕ → UpdateProps → Professional → Result Professional
update_profile now props p = do
  throw_if (blank_if_given props.agency_name) (bad_request "Agency name cannot be empty")
  ok (record p {
    agency_name = set_if_truthy props.agency_name p.agency_name;
    bio = or_else props.bio p.bio;
    avatar_url = or_else props.avatar_url p.avatar_url;
    location = get_or_else props.location p.location;
    address = or_else props.address p.address;
    latitude = or_else props.latitude p.latitude;
    longitude = or_else props.longitude p.longitude;
    amenities = get_or_else props.amenities p.amenities;
    main_categories = get_or_else props.main_categories p.main_categories;
    updated_at = now;
  })

-- `newRating < 1 || newRating > 5`, on the fraction
unfoldable pub update_rating : ℕ → Rating → ℕ → Professional → Result Professional
update_rating now r review_count p = do
  throw_if (ltb r.num r.den || ltb (5 * r.den) r.num) (bad_request "Rating must be between 1 and 5")
  ok (record p { rating = r; review_count = review_count; updated_at = now })

-- Soft deletion.
unfoldable pub delete : ℕ → Professional → Professional
delete now p = record p { deleted_at = some now }

unfoldable pub restore : ℕ → Professional → Professional
restore now p = record p { deleted_at = none; updated_at = now }
