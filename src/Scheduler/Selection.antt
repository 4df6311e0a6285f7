-- ===== src/Scheduler/Selection.antt =====
-- What the queries of the jobs select, as what an account has.
use api_v.Base.{
  ℕ, ◌+◌, ◌≡◌, ◌≢◌, ◌≤◌, ◌<◌, ◌⊎◌, refl, sym, ap, ◌∙◌, inl, inr, Bool, true, false, not, Option,
  some, none, is_some, is_empty, trim, any, filter, List, [], ◌∷◌, Text, Bool-cases, arith,
}
use api_v.Service.{is_available}
use api_v.Professional.{Professional, pending, active}
use api_v.Professional.Status.{verify}
use api_v.Professional.Services.{get_active_services}
use api_v.Professional.Schedule.{is_current, get_active_availabilities}
use api_v.Offers.{is_nonempty}
use api_v.Offers.Eligibility.{not_empty, nonempty, text, truthy}
use api_v.Scheduler.{is_verifiable, has_blocking_steps, is_overdue, is_past, is_pause_over}

-- An account with a name, a picture, a description, a main category and an active service.
pub record IsComplete (p : Professional) : Type 0 where
  pub agency : trim p.agency_name ≢ []
  pub avatar : (t : Text) × (p.avatar_url ≡ some t) × (t ≢ [])
  pub bio : (t : Text) × (p.bio ≡ some t) × (trim t ≢ [])
  pub categories : p.main_categories ≢ []
  pub services : get_active_services p ≢ []

-- A live account that waits for its verification.
pub record IsWaiting (p : Professional) : Type 0 where
  pub live : p.deleted_at ≡ none
  pub status : p.status ≡ pending
  pub unverified : p.is_verified ≡ false

any-filter : {A : Type 0} (t : A → Bool) (xs : List A) → any t xs ≡ is_nonempty (filter t xs)
any-filter t [] = refl
any-filter t (x ∷ xs) = ground (arith, any-filter t xs)

some_text : (o : Option Text) (t : Text) → o ≡ some t → is_some o ≡ true
some_text none t e = cc
some_text (some u) t e = refl

-- A name with something left after the trim is not empty.
untrimmed : (t : Text) → trim t ≢ [] → not (is_empty t) ≡ true
unfolding trim
untrimmed [] h = absurd (h refl)
untrimmed (c ∷ t) h = refl

none_left : {A : Type 0} (xs : List A) → is_nonempty xs ≡ false → xs ≡ []
none_left [] e = refl
none_left (x ∷ xs) e = cc

steps-IsComplete : (p : Professional) → has_blocking_steps p ≡ true → IsComplete p
unfolding get_active_services is_available
steps-IsComplete p h =
    let services = any-filter is_available p.services in
    record {
      agency = (not_empty (trim p.agency_name)).0 (ground arith);
      avatar = (truthy p.avatar_url).0 (ground arith);
      bio = (text p.bio).0 (ground arith);
      categories = (nonempty p.main_categories).0 (ground arith);
      services = (nonempty (get_active_services p)).0 (ground arith);
    }

pub lacking :
    (p : Professional)
    → is_verifiable p ≡ false
    → IsWaiting p
    → IsComplete p
    → get_active_availabilities p ≡ []
unfolding get_active_services get_active_availabilities is_verifiable
lacking p h w c =
    let services = sym (any-filter is_available p.services) in
    let days = any-filter is_current p.availabilities in
    let named = untrimmed p.agency_name c.agency in
    let pictured = some_text p.avatar_url c.avatar.0 c.avatar.1 in
    let described = some_text p.bio c.bio.0 c.bio.1 in
    let sorted = (nonempty p.main_categories).1 c.categories in
    let offered = (nonempty (filter is_available p.services)).1 c.services in
    none_left (filter is_current p.availabilities) (ground (arith, w.live, w.status, w.unverified))

pub steps_of : (p : Professional) → IsComplete p → has_blocking_steps p ≡ true
unfolding get_active_services is_available
steps_of p c =
    let services = any-filter is_available p.services in
    let named = (not_empty (trim p.agency_name)).1 c.agency in
    let pictured = (truthy p.avatar_url).1 c.avatar in
    let described = (text p.bio).1 c.bio in
    let sorted = (nonempty p.main_categories).1 c.categories in
    let offered = (nonempty (get_active_services p)).1 c.services in ground arith

pub past_of :
    (now until : ℕ) (q : Professional)
    → is_pause_over now q ≡ false
    → q.deleted_at ≡ none
    → q.is_accepting_bookings ≡ false
    → q.bookings_paused_until ≡ some until
    → now < until
unfolding is_pause_over
past_of now until q h live closed e =
    let over : is_past now q.bookings_paused_until ≡ is_past now (some until) =
      ap (is_past now) e in
    ground arith

pub waiting_of :
    (now : ℕ) (q : Professional)
    → is_overdue now q ≡ false
    → IsWaiting q
    → (now < q.created_at + 259200000) ⊎ IsComplete q
unfolding is_overdue
waiting_of now q h w = elim (Bool-cases (has_blocking_steps q)) [
  | inl e ↦ inr (steps-IsComplete q e)
  | inr e ↦ inl (ground (arith, w.live, w.status, w.unverified))
]

-- What a selection for the verification or for the rejection says.
pub ready_of :
    (q : Professional)
    → is_verifiable q ≡ true
    → (q.status ≡ pending)
      × (q.is_verified ≡ false)
      × (get_active_services q ≢ [])
      × (get_active_availabilities q ≢ [])
unfolding is_verifiable get_active_services get_active_availabilities
ready_of q h =
    let services = sym (any-filter is_available q.services) in
    let days = sym (any-filter is_current q.availabilities) in
    (
      ground arith,
      ground arith,
      (nonempty (filter is_available q.services)).0 (services ∙ ground arith),
      (nonempty (filter is_current q.availabilities)).0 (days ∙ ground arith),
    )

pub overdue_of :
    (now : ℕ) (q : Professional)
    → is_overdue now q ≡ true
    → (q.is_verified ≡ false) × (q.created_at + 259200000 ≤ now) × (has_blocking_steps q ≡ false)
unfolding is_overdue
overdue_of now q h = (ground arith, ground arith, ground arith)

pub verify_fresh :
    (now : ℕ) (q : Professional)
    → q.is_verified ≡ false
    → verify now q
      ≡ record q { is_verified = true; status = active; rejection_reason = none; updated_at = now }
unfolding verify
verify_fresh now q e = ground arith
