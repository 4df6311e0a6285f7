-- ===== src/Professional/Visibility/Laws.antt =====
-- The gates between an account and the public.
use api_v.Base.{
  ℕ, ◌≡◌, ◌≢◌, ◌⊎◌, ◌↔◌, refl, true, false, not, ◌&&◌, ◌||◌, Option, none, some, List, [], ◌∷◌,
  arith, inl, inr, Text, ltb, length,
}
use api_v.Professional.{Professional, active, ServiceLocation, home, salon, both, delete}
use api_v.Professional.Status.{suspend, deactivate_listing, pause_bookings, resume_bookings}
use api_v.Professional.Services.{get_active_services, has_services}
use api_v.Professional.Schedule.{get_active_availabilities, has_availability}
use api_v.Professional.Visibility.{
  is_truthy, needs_address, has_blocking_steps_completed, is_publicly_visible, can_accept_bookings,
}

-- What a listed professional has.
pub record IsListed (p : Professional) : Type 0 where
  pub verified : p.is_verified ≡ true
  pub status : p.status ≡ active
  pub live : p.deleted_at ≡ none
  pub switched_on : p.is_listing_active ≡ true
  pub named : p.agency_name ≢ []
  pub avatar : (t : Text) × (p.avatar_url ≡ some t) × (t ≢ [])
  pub bio : (t : Text) × (p.bio ≡ some t) × (t ≢ [])
  pub services : get_active_services p ≢ []
  pub availabilities : get_active_availabilities p ≢ []
  pub address : (p.location ≡ home) ⊎ ((t : Text) × (p.address ≡ some t) × (t ≢ []))

truthy_text : (o : Option Text) → is_truthy o ≡ true → (t : Text) × (o ≡ some t) × (t ≢ [])
truthy_text none h = cc
truthy_text (some []) h = cc
truthy_text (some (c ∷ t)) h = (c ∷ t, refl, λ e. cc)

is_truthy_of_text : (o : Option Text) (t : Text) → o ≡ some t → t ≢ [] → is_truthy o ≡ true
is_truthy_of_text o [] e h = absurd (h refl)
is_truthy_of_text o (c ∷ t) e h = rw e

address_of :
    (l : ServiceLocation) (o : Option Text)
    → (not (needs_address l) || is_truthy o) ≡ true
    → (l ≡ home) ⊎ ((t : Text) × (o ≡ some t) × (t ≢ []))
address_of home o h = inl refl
address_of salon o h = inr (truthy_text o h)
address_of both o h = inr (truthy_text o h)

blocking-IsListed : (p : Professional) → is_publicly_visible p ≡ true → IsListed p
unfolding is_publicly_visible has_blocking_steps_completed has_services has_availability
blocking-IsListed p h = record {
  verified = ground arith;
  status = ground arith;
  live = ground arith;
  switched_on = ground arith;
  named = ground arith;
  avatar = truthy_text p.avatar_url (ground arith);
  bio = truthy_text p.bio (ground arith);
  services = ground arith;
  availabilities = ground arith;
  address = address_of p.location p.address (ground arith);
}

nonempty_length : {A : Type 0} (xs : List A) → xs ≢ [] → ltb 0 (length xs) ≡ true
nonempty_length [] h = absurd (h refl)
nonempty_length (x ∷ xs) h = ground arith

address_gate :
    (l : ServiceLocation) (o : Option Text)
    → (l ≡ home) ⊎ ((t : Text) × (o ≡ some t) × (t ≢ []))
    → (not (needs_address l) || is_truthy o) ≡ true
address_gate l o (inl e) = rw e
address_gate home o (inr w) = refl
address_gate salon o (inr (t, e, h)) = is_truthy_of_text o t e h
address_gate both o (inr (t, e, h)) = is_truthy_of_text o t e h

listed-blocking : (p : Professional) → IsListed p → is_publicly_visible p ≡ true
unfolding is_publicly_visible has_blocking_steps_completed has_services has_availability
listed-blocking p v = ground (
  arith,
  is_truthy_of_text p.avatar_url v.avatar.0 v.avatar.1 v.avatar.2,
  is_truthy_of_text p.bio v.bio.0 v.bio.1 v.bio.2,
  nonempty_length (get_active_services p) v.services,
  nonempty_length (get_active_availabilities p) v.availabilities,
  address_gate p.location p.address v.address,
)

-- A professional is publicly visible exactly if it is verified, active, not deleted and switched
-- on, has a name, an avatar and a description that are not empty, at least one active service and
-- one active day, and an address unless it only works at the clients' homes: the entity asks for
-- one also where it works at both places.
pub is_publicly_visible_iff : (p : Professional) → (is_publicly_visible p ≡ true) ↔ IsListed p
is_publicly_visible_iff p = (blocking-IsListed p, listed-blocking p)

-- A professional accepts bookings exactly if it is visible and has not switched bookings off: the
-- test for an availability follows from visibility.
pub can_accept_bookings_iff :
    (p : Professional) → can_accept_bookings p ≡ (is_publicly_visible p && p.is_accepting_bookings)
unfolding can_accept_bookings is_publicly_visible has_blocking_steps_completed
can_accept_bookings_iff p = ground arith

-- Suspending, deleting and unlisting an account hide it, and pausing its bookings stops them, with
-- any date or none; resuming them lets a visible account be booked again.
pub switches :
    (now : ℕ) (until : Option ℕ) (p : Professional)
    → (is_publicly_visible (suspend now p) ≡ false)
      × (is_publicly_visible (delete now p) ≡ false)
      × (is_publicly_visible (deactivate_listing now p) ≡ false)
      × (is_publicly_visible (pause_bookings now until p) ≡ is_publicly_visible p)
      × (can_accept_bookings (pause_bookings now until p) ≡ false)
      × (can_accept_bookings (resume_bookings now p) ≡ is_publicly_visible p)
unfolding can_accept_bookings is_publicly_visible has_blocking_steps_completed suspend delete
    deactivate_listing pause_bookings resume_bookings has_services has_availability
switches now until p = (ground arith, ground arith, ground arith, refl, ground arith, ground arith)
