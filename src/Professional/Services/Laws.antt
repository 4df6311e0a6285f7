-- ===== src/Professional/Services/Laws.antt =====
-- Names of live services, and what a lookup finds after a removal.
use api_v.Base.{
  ℕ, ◌≤◌, ◌≡◌, ◌≢◌, none, some, arith, inl, inr, Bool-cases, Option-cases, any, find?,
  replace_first, count, count-push_unique, count-replace_first_le, find-replace_first_ne,
  find-replace_first_gone, Text, same_iff, Result, ok, err,
}
use api_v.Service.{ServiceOffering}
use api_v.Professional.{Professional}
use api_v.Professional.Services.{is_live_named, has_id, add_service, remove_service, get_service}

-- At most one live service has a given name.
abbrev pub HasLiveNames : Professional → Type 0
HasLiveNames p = (name : Text) → count (is_live_named name) p.services ≤ 1

abbrev pub KeepsNames : Result Professional → Type 0
KeepsNames (ok q) = HasLiveNames q
KeepsNames (err _) = Unit

add_service-KeepsNames :
    (now : ℕ) (s : ServiceOffering) (p : Professional)
    → HasLiveNames p
    → KeepsNames (add_service now s p)
unfolding add_service
add_service-KeepsNames now s p v = elim (Bool-cases (any (is_live_named s.name) p.services)) [
  | inl taken ↦ rw taken tt
  | inr free ↦ rw free λ name.
      count-push_unique (is_live_named name) (record s { professional_id = p.id }) p.services
        (v name) λ t. rw ((same_iff s.name name).0 (ground arith)) at free
]

remove_service-KeepsNames :
    (now id : ℕ) (p : Professional) → HasLiveNames p → KeepsNames (remove_service now id p)
unfolding remove_service
remove_service-KeepsNames now id p v = elim (Option-cases (find? (has_id id) p.services)) [
  | inl missing ↦ rw missing tt
  | inr (s, found) ↦ rw found λ name.
      let fewer =
        count-replace_first_le (is_live_named name) (has_id id)
          (λ s. record s { deleted_at = some now }) p.services (λ x t e. ground arith) in
      omega (arith, v name, fewer)
]

-- Adding and removing a service keep the names of the live services distinct, whatever the
-- service and whether or not the call returns.
pub services-KeepsNames :
    (now id : ℕ) (s : ServiceOffering) (p : Professional)
    → HasLiveNames p
    → KeepsNames (add_service now s p) × KeepsNames (remove_service now id p)
services-KeepsNames now id s p v =
    (add_service-KeepsNames now s p v, remove_service-KeepsNames now id p v)

-- A service that was removed is not found again, if its id is the id of one service only; every
-- other id finds what it found before.
pub get_service-remove_service :
    (now id : ℕ) (p q : Professional)
    → count (has_id id) p.services ≤ 1
    → remove_service now id p ≡ ok q
    → (get_service id q ≡ none)
      × ((other : ℕ) → other ≢ id → get_service other q ≡ get_service other p)
unfolding remove_service get_service
get_service-remove_service now id p q u h =
    let services : q.services
        ≡ replace_first (has_id id) (λ s. record s { deleted_at = some now }) p.services =
      ground arith in
    (
      rw services (
          find-replace_first_gone _ (has_id id) _ p.services (λ x t. ground arith)
            (λ x. ground arith) u),
      λ other ne.
          rw services
            (find-replace_first_ne _ (has_id id) _ p.services λ x t. (ground arith, ground arith)),
    )
