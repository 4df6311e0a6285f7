-- ===== src/Professional/Visibility/Completion.antt =====
-- The percentage of a profile's completion.
use api_v.Base.{ℕ, ◌+◌, ◌≤◌, ◌≡◌, ◌↔◌, refl, true, Bool, arith, ltb, length}
use api_v.Professional.{Professional}
use api_v.Professional.Services.{get_active_services, has_services}
use api_v.Professional.Schedule.{get_active_availabilities, has_availability}
use api_v.Professional.Portfolio.{get_public_gallery}
use api_v.Professional.Visibility.{
  is_truthy, point, has_identity, percent, has_blocking_steps_completed, is_publicly_visible,
  get_profile_completion,
}

point_le : (b : Bool) → point b ≤ 1
point_le b = ground arith

true_of_point : (b : Bool) → 1 ≤ point b → b ≡ true
true_of_point b h = ground arith

point_of_true : (b : Bool) → b ≡ true → point b ≡ 1
point_of_true b h = ground arith

percent_le : (n : ℕ) → n ≤ 7 → percent n ≤ 100
percent_le n h = omega arith

full_of_percent : (n : ℕ) → n ≤ 7 → percent n ≡ 100 → n ≡ 7
full_of_percent n h e = omega arith

percent_low : (n : ℕ) → 3 ≤ n → 43 ≤ percent n
percent_low n h = omega arith

-- The number of seven tests that hold.
abbrev total : (a b c d e f g : Bool) → ℕ
total a b c d e f g = point a + point b + point c + point d + point e + point f + point g

total_le : (a b c d e f g : Bool) → total a b c d e f g ≤ 7
total_le a b c d e f g =
    omega
      (arith, point_le a, point_le b, point_le c, point_le d, point_le e, point_le f, point_le g)

-- If all seven hold, each does.
each_of_total :
    (a b c d e f g : Bool)
    → total a b c d e f g ≡ 7
    → (a ≡ true) × (b ≡ true) × (c ≡ true) × (d ≡ true) × (e ≡ true) × (f ≡ true) × (g ≡ true)
each_of_total true true true true true true true h = (refl, refl, refl, refl, refl, refl, refl)
each_of_total a b c d e f g h = absurd (
    omega
      (arith, point_le a, point_le b, point_le c, point_le d, point_le e, point_le f, point_le g))

-- All seven parts of a profile are there.
pub record IsComplete (p : Professional) : Type 0 where
  pub identity : has_identity p ≡ true
  pub categories : ltb 0 (length p.main_categories) ≡ true
  pub services : ltb 0 (length (get_active_services p)) ≡ true
  pub address : is_truthy p.address ≡ true
  pub availabilities : ltb 0 (length (get_active_availabilities p)) ≡ true
  pub gallery : ltb 0 (length (get_public_gallery p)) ≡ true
  pub amenities : ltb 0 (length p.amenities) ≡ true

tests_of_total : (p : Professional) → get_profile_completion p ≡ 100 → IsComplete p
unfolding get_profile_completion
tests_of_total p h =
    let full =
      full_of_percent _
        (total_le (has_identity p) (ltb 0 (length p.main_categories))
          (ltb 0 (length (get_active_services p))) (is_truthy p.address)
          (ltb 0 (length (get_active_availabilities p))) (ltb 0 (length (get_public_gallery p)))
          (ltb 0 (length p.amenities)))
        h in
    let (a, b, c, d, e, f, g) = each_of_total _ _ _ _ _ _ _ full in
    record {
      identity = a;
      categories = b;
      services = c;
      address = d;
      availabilities = e;
      gallery = f;
      amenities = g;
    }

total_of_tests : (p : Professional) → IsComplete p → get_profile_completion p ≡ 100
unfolding get_profile_completion
total_of_tests p v =
    rw (v.identity, v.categories, v.services, v.address, v.availabilities, v.gallery, v.amenities)

completion_le : (p : Professional) → get_profile_completion p ≤ 100
unfolding get_profile_completion
completion_le p = percent_le _ (
    total_le (has_identity p) (ltb 0 (length p.main_categories))
      (ltb 0 (length (get_active_services p))) (is_truthy p.address)
      (ltb 0 (length (get_active_availabilities p))) (ltb 0 (length (get_public_gallery p)))
      (ltb 0 (length p.amenities)))

completion_of_visible :
    (p : Professional) → is_publicly_visible p ≡ true → 43 ≤ get_profile_completion p
unfolding get_profile_completion is_publicly_visible has_blocking_steps_completed has_services
    has_availability
completion_of_visible p h =
    let identity : has_identity p ≡ true = ground arith in
    let services : ltb 0 (length (get_active_services p)) ≡ true = ground arith in
    let days : ltb 0 (length (get_active_availabilities p)) ≡ true = ground arith in
    percent_low _
      (omega (arith, point_of_true _ identity, point_of_true _ services, point_of_true _ days))

-- A completion is a percentage; it is 100 exactly if the profile has all seven parts; and a
-- profile that is publicly visible is complete to at least 43 percent.
pub completion_bounds :
    (p : Professional)
    → (get_profile_completion p ≤ 100)
      × ((get_profile_completion p ≡ 100) ↔ IsComplete p)
      × (is_publicly_visible p ≡ true → 43 ≤ get_profile_completion p)
completion_bounds p =
    (completion_le p, (tests_of_total p, total_of_tests p), completion_of_visible p)
