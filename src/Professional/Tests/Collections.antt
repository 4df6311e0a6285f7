-- ===== src/Professional/Tests/Collections.antt =====
-- Runs of the methods for images, services, days and the gallery, and their theorems at them.
use api_v.Base.{◌≡◌, refl, some, List, [], ◌∷◌, arith, pos, codes, same, trim, Text, ok}
use api_v.Availability.{Availability}
use api_v.Professional.{Professional}
use api_v.Professional.Images.{
  add_url, add_profile_image, remove_profile_image, remove_first, dedup_from, cleaned,
  set_profile_images, set_primary_image,
}
use api_v.Professional.Images.Laws.{Keeps, images-Keeps, IsImageList}
use api_v.Professional.Services.{add_service, remove_service, get_service}
use api_v.Professional.Services.Laws.{HasLiveNames}
use api_v.Professional.Schedule.{
  add_availability, update_availability, remove_availability, get_availability,
}
use api_v.Professional.Schedule.Laws.{HasLiveDays}
use api_v.Professional.Tests.{cut_hair, monday, listed}

lists : Unit {0}
unfolding add_url add_profile_image remove_profile_image remove_first dedup_from cleaned
    set_profile_images set_primary_image trim same add_service remove_service get_service
    add_availability update_availability remove_availability get_availability
lists = tt

abbrev with_images : List Text → Professional
with_images urls = record listed { profile_image_urls = urls; updated_at = 8 }

set_images :
    set_profile_images 8 (codes " c.jpg" ∷ codes "d.jpg" ∷ codes "c.jpg" ∷ codes " " ∷ []) listed
    ≡ ok (with_images (codes "c.jpg" ∷ codes "d.jpg" ∷ []))
unfolding lists
set_images = refl

add_image :
    add_profile_image 8 (codes " c.jpg ") listed
    ≡ ok (with_images (codes "a.jpg" ∷ codes "b.jpg" ∷ codes "c.jpg" ∷ []))
unfolding lists
add_image = refl

remove_image : remove_profile_image 8 (codes "a.jpg") listed ≡ ok (with_images (codes "b.jpg" ∷ []))
unfolding lists
remove_image = refl

primary :
    set_primary_image 8 (codes "b.jpg") listed
    ≡ ok (record listed { avatar_url = some (codes "b.jpg"); updated_at = 8 })
unfolding lists
primary = refl

one_image-IsImageList : IsImageList (codes "a.jpg" ∷ [])
one_image-IsImageList = record {
  capped = omega arith;
  unique = λ u. ground arith;
  named = (refl, tt);
}

abbrev single : Professional
single = record listed { profile_image_urls = codes "a.jpg" ∷ [] }

images-Keeps_example :
    Keeps (set_profile_images 8 (codes "c.jpg" ∷ []) single)
    × (IsImageList single.profile_image_urls
        → Keeps (add_profile_image 8 (codes "d.jpg") single)
          × Keeps (remove_profile_image 8 (codes "d.jpg") single)
          × Keeps (set_primary_image 8 (codes "d.jpg") single))
images-Keeps_example = images-Keeps 8 (codes "d.jpg") (codes "c.jpg" ∷ []) single

remove_single : remove_profile_image 8 (codes "a.jpg") single ≡ ok (with_images [])
unfolding lists
remove_single = refl

listed-HasLiveNames : HasLiveNames listed
listed-HasLiveNames name = ground arith

abbrev without_service : Professional
without_service = record listed {
  services = record cut_hair { deleted_at = some 8 } ∷ [];
  updated_at = 8;
}

removed_service : remove_service 8 31 listed ≡ ok without_service
unfolding lists
removed_service = refl

listed-HasLiveDays : HasLiveDays listed
listed-HasLiveDays day = ground arith

abbrev late_monday : Availability
late_monday = record monday {
  working_hours = record { start_time = codes "10:00"; end_time = codes "20:00" };
}

abbrev moved : Professional
moved = record listed { availabilities = late_monday ∷ []; updated_at = 8 }

update_monday : update_availability 8 (pos 1) late_monday listed ≡ ok moved
unfolding lists
update_monday = refl

abbrev closed_week : Professional
closed_week = record listed {
  availabilities = record monday { deleted_at = some 8 } ∷ [];
  updated_at = 8;
}

remove_monday : remove_availability 8 (pos 1) listed ≡ ok closed_week
unfolding lists
remove_monday = refl
