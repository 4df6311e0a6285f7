-- ===== src/Professional/Visibility.antt =====
-- Who is listed, who may be booked, and how complete a profile is.
pub mod Laws
pub mod Completion
use api_v.Base.{
  ℕ, ◌+◌, ◌*◌, ◌/◌, Bool, true, false, not, ◌&&◌, ◌||◌, Option, none, some, is_some, List, [], ◌∷◌,
  ltb, if◌then◌else◌, length, Text, is_empty,
}
use api_v.Professional.{
  Professional, ProfessionalStatus, active, ServiceLocation, home, salon, both,
}
use api_v.Professional.Services.{get_active_services, has_services}
use api_v.Professional.Schedule.{get_active_availabilities, has_availability}
use api_v.Professional.Portfolio.{get_public_gallery}

-- `!!text` on an optional text
abbrev pub is_truthy : Option Text → Bool
is_truthy none = false
is_truthy (some t) = not (is_empty t)

abbrev pub needs_address : ServiceLocation → Bool
needs_address salon = true
needs_address both = true
needs_address home = false

abbrev pub is_active_status : ProfessionalStatus → Bool
is_active_status active = true
is_active_status _ = false

unfoldable pub has_blocking_steps_completed : Professional → Bool
has_blocking_steps_completed p =
    not (is_empty p.agency_name)
    && is_truthy p.avatar_url
    && is_truthy p.bio
    && has_services p
    && has_availability p
    && (not (needs_address p.location) || is_truthy p.address)

unfoldable pub is_publicly_visible : Professional → Bool
is_publicly_visible p =
    if not p.is_verified
      || not (is_active_status p.status)
      || is_some p.deleted_at
      || not p.is_listing_active
    then false
    else if not (has_blocking_steps_completed p)
    then false
    else true

unfoldable pub can_accept_bookings : Professional → Bool
can_accept_bookings p = is_publicly_visible p && p.is_accepting_bookings && has_availability p

-- `if (test) completion += 1`
abbrev pub point : Bool → ℕ
point test = if test then 1 else 0

-- The first test: the parts of the establishment.
abbrev pub has_identity : Professional → Bool
has_identity p = not (is_empty p.agency_name) && is_truthy p.avatar_url && is_truthy p.bio

-- `Math.round((completion / 7) * 100)`: the floor of completion * 100 / 7 + 1 / 2.
abbrev pub percent : ℕ → ℕ
percent completion = (completion * 200 + 7) / 14

unfoldable pub get_profile_completion : Professional → ℕ
get_profile_completion p = percent (
    point (has_identity p)
    + point (ltb 0 (length p.main_categories))
    + point (ltb 0 (length (get_active_services p)))
    + point (is_truthy p.address)
    + point (ltb 0 (length (get_active_availabilities p)))
    + point (ltb 0 (length (get_public_gallery p)))
    + point (ltb 0 (length p.amenities)))
