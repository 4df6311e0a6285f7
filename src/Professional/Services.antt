-- ===== src/Professional/Services.antt =====
-- The services of a professional: no two live ones of one name.
pub mod Laws
use api_v.Base.{
  ℕ, ◌<◌, Bool, true, false, not, ◌&&◌, Option, none, some, is_some, List, ltb, if◌then◌else◌, any,
  find?, filter, replace_first, push, length, ◌==◌, Text, same, Result, ok, not_found, conflict,
  throw_if, ◌>>=◌, ◌>>◌,
}
use api_v.Service.{ServiceOffering, is_available}
use api_v.Professional.{Professional}

-- `(s) => s.name === name && !s.deletedAt`
abbrev pub is_live_named : Text → ServiceOffering → Bool
is_live_named name s = same s.name name && not (is_some s.deleted_at)

abbrev pub has_id : ℕ → ServiceOffering → Bool
has_id id s = s.id == id

unfoldable pub add_service : ℕ → ServiceOffering → Professional → Result Professional
add_service now service p = do
  throw_if (any (is_live_named service.name) p.services) (conflict "Service already exists")
  ok (record p {
    services = push (record service { professional_id = p.id }) p.services;
    updated_at = now;
  })

unfoldable pub remove_service : ℕ → ℕ → Professional → Result Professional
remove_service now service_id p = do
  throw_if (not (is_some (find? (has_id service_id) p.services))) (not_found "Service not found")
  ok (record p {
    services =
        replace_first (has_id service_id) (λ s. record s { deleted_at = some now }) p.services;
    updated_at = now;
  })

-- `(s) => s.isActive && !s.deletedAt`
unfoldable pub get_active_services : Professional → List ServiceOffering
unfolding is_available
get_active_services p = filter is_available p.services

unfoldable pub has_services : Professional → Bool
unfolding get_active_services
has_services p = ltb 0 (length (get_active_services p))

unfoldable pub get_service : ℕ → Professional → Option ServiceOffering
get_service service_id p = find? (λ s. has_id service_id s && not (is_some s.deleted_at)) p.services
