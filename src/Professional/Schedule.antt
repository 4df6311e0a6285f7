-- ===== src/Professional/Schedule.antt =====
-- The weekly hours of a professional: no two live days of one day of the week.
pub mod Laws
use api_v.Base.{
  ℕ, Bool, true, false, not, ◌&&◌, Option, none, some, is_some, List, ltb, if◌then◌else◌, any,
  find?, filter, replace_first, push, length, ℤ, eq_ℤ, Result, ok, not_found, conflict, throw_if,
  ◌>>=◌, ◌>>◌,
}
use api_v.Availability.{Availability}
use api_v.Professional.{Professional}

-- `(a) => a.dayOfWeek === day && !a.deletedAt`
abbrev pub is_live_on : ℤ → Availability → Bool
is_live_on day a = eq_ℤ a.day_of_week day && not (is_some a.deleted_at)

unfoldable pub add_availability : ℕ → Availability → Professional → Result Professional
add_availability now a p = do
  throw_if (any (is_live_on a.day_of_week) p.availabilities)
      (conflict "Availability for day already exists")
  ok (record p {
    availabilities = push (record a { professional_id = p.id }) p.availabilities;
    updated_at = now;
  })

-- `Object.assign(existing, availability)` copies every field, since the constructor sets them all.
unfoldable pub update_availability : ℕ → ℤ → Availability → Professional → Result Professional
update_availability now day a p = do
  throw_if (not (is_some (find? (is_live_on day) p.availabilities)))
      (not_found "No availability found for day")
  ok (record p {
    availabilities = replace_first (is_live_on day) (λ _. a) p.availabilities;
    updated_at = now;
  })

unfoldable pub remove_availability : ℕ → ℤ → Professional → Result Professional
remove_availability now day p = do
  throw_if (not (is_some (find? (is_live_on day) p.availabilities)))
      (not_found "No availability found for day")
  ok (record p {
    availabilities =
        replace_first (is_live_on day) (λ a. record a { deleted_at = some now }) p.availabilities;
    updated_at = now;
  })

unfoldable pub get_availability : ℤ → Professional → Option Availability
get_availability day p = find? (is_live_on day) p.availabilities

-- `(a) => a.isActive && !a.deletedAt`
abbrev pub is_current : Availability → Bool
is_current a = a.is_active && not (is_some a.deleted_at)

unfoldable pub get_active_availabilities : Professional → List Availability
get_active_availabilities p = filter is_current p.availabilities

unfoldable pub has_availability : Professional → Bool
unfolding get_active_availabilities
has_availability p = ltb 0 (length (get_active_availabilities p))
