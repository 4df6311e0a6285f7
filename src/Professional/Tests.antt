-- ===== src/Professional/Tests.antt =====
-- The accounts at which the aggregate is run.
mod Accounts
mod Collections
use api_v.Base.{
  ℕ, ◌≡◌, ◌≢◌, ◌≤◌, ◌⊎◌, ◌↔◌, ◌||◌, ◌&&◌, refl, inl, true, false, not, none, some, is_some, List,
  [], ◌∷◌, arith, find?, filter, pos, codes, same, trim, Text, ok, err, bad_request,
}
use api_v.Availability.{Availability, open_day}
use api_v.Service.{ServiceOffering}
use api_v.Gallery.{GalleryItem}
use api_v.Gallery.Sorting.{IsSorted, has_order, sort_by_order}
use api_v.Professional.{
  Professional, CreateProps, create, both, home, pending, active, suspended, rejected, delete,
}
use api_v.Professional.Status.{
  verify, reject, suspend, reactivate, deactivate_listing, pause_bookings, resume_bookings,
}
use api_v.Professional.Images.{
  contains, add_url, add_profile_image, remove_profile_image, remove_first, dedup_from, cleaned,
  set_profile_images, set_primary_image,
}
use api_v.Professional.Services.{has_id, add_service, remove_service, get_service}
use api_v.Professional.Visibility.{
  is_publicly_visible, can_accept_bookings, has_blocking_steps_completed, get_profile_completion,
}

-- An account as its creation leaves it.
abbrev pub fresh : Professional
fresh = record {
  id = 9;
  user_id = 2;
  agency_name = codes "Salon Awa";
  bio = none;
  avatar_url = none;
  location = home;
  address = none;
  latitude = none;
  longitude = none;
  amenities = [];
  main_categories = [];
  profile_image_urls = [];
  status = pending;
  is_verified = false;
  rejection_reason = none;
  is_listing_active = true;
  is_accepting_bookings = true;
  bookings_paused_until = none;
  rating = record { num = 0; den = 1 };
  review_count = 0;
  services = [];
  availabilities = [];
  gallery = [];
  created_at = 5;
  updated_at = 5;
  deleted_at = none;
}

abbrev pub asked : CreateProps
asked = record {
  id = 9;
  user_id = 2;
  agency_name = codes "Salon Awa";
  bio = none;
  avatar_url = none;
  location = some home;
  address = none;
  latitude = none;
  longitude = none;
  amenities = none;
  main_categories = none;
}

pub create-asked : create 5 asked ≡ ok fresh
unfolding create trim
create-asked = refl

abbrev pub cut_hair : ServiceOffering
cut_hair = record {
  id = 31;
  professional_id = 9;
  name = codes "Coupe";
  description = none;
  image_url = none;
  duration_min = pos 30;
  base_price = pos 3000;
  category = codes "Coiffure";
  is_active = true;
  commune_fees = [];
  created_at = 6;
  updated_at = 6;
  deleted_at = none;
}

abbrev pub monday : Availability
monday = record {
  id = 41;
  professional_id = 9;
  day_of_week = pos 1;
  working_hours = record { start_time = codes "08:00"; end_time = codes "18:00" };
  break_time = none;
  status = open_day;
  is_active = true;
  created_at = 6;
  updated_at = 6;
  deleted_at = none;
}

abbrev pub picture : ℕ → ℕ → GalleryItem
picture id order = record {
  id = id;
  professional_id = 9;
  image_url = codes "p";
  caption = none;
  category = none;
  order = order;
  is_public = true;
  created_at = 6;
  updated_at = 6;
  deleted_at = none;
}

-- A verified account with a service, a day, and two images.
abbrev pub listed : Professional
listed = record fresh {
  bio = some (codes "Coiffure");
  avatar_url = some (codes "a.jpg");
  profile_image_urls = codes "a.jpg" ∷ codes "b.jpg" ∷ [];
  status = active;
  is_verified = true;
  services = cut_hair ∷ [];
  availabilities = monday ∷ [];
  gallery = picture 51 3 ∷ picture 52 1 ∷ picture 53 1 ∷ [];
}
