-- ===== src/Offers/Eligibility.antt =====
-- What `ProfessionalEligibilityService.refresh` makes of the two switches.
use api_v.Base.{
  ℕ, ◌≡◌, ◌≢◌, ◌≤◌, ◌⊎◌, ◌↔◌, refl, sym, subst, inl, inr, true, false, not, ◌&&◌, ◌||◌, ◌∙◌, Option,
  none, some, List, [], ◌∷◌, Text, is_empty, trim, arith,
}
use api_v.Professional.{Professional, ServiceLocation, home, salon, both}
use api_v.Professional.Services.{get_active_services}
use api_v.Professional.Visibility.{is_truthy}
use api_v.Offers.{has_text, is_nonempty, is_salon, is_manually_paused, is_eligible, refresh}

-- What a professional needs to be listed: only a salon needs an address.
pub record IsEligible (first_name : Option Text) (p : Professional) : Type 0 where
  pub user : (t : Text) × (first_name ≡ some t) × (trim t ≢ [])
  pub categories : p.main_categories ≢ []
  pub agency : trim p.agency_name ≢ []
  pub avatar : (t : Text) × (p.avatar_url ≡ some t) × (t ≢ [])
  pub bio : (t : Text) × (p.bio ≡ some t) × (trim t ≢ [])
  pub services : get_active_services p ≢ []
  pub address : (p.location ≢ salon) ⊎ ((t : Text) × (p.address ≡ some t) × (t ≢ []))

-- No date of a pause lies ahead: it has passed, or none was given.
pub IsOver : ℕ → Option ℕ → Type 0
IsOver now until = (until ≡ none) ⊎ ((t : ℕ) × (until ≡ some t) × (t ≤ now))

pub not_empty : (t : Text) → (not (is_empty t) ≡ true) ↔ (t ≢ [])
not_empty [] = ((λ e. cc), λ h. absurd (h refl))
not_empty (c ∷ t) = ((λ _ e. cc), λ _. refl)

pub nonempty : {A : Type 0} (xs : List A) → (is_nonempty xs ≡ true) ↔ (xs ≢ [])
nonempty [] = ((λ e. cc), λ h. absurd (h refl))
nonempty (x ∷ xs) = ((λ _ e. cc), λ _. refl)

pub text : (o : Option Text) → (has_text o ≡ true) ↔ ((t : Text) × (o ≡ some t) × (trim t ≢ []))
text none = ((λ e. cc), λ (t, e, _). cc)
text (some t) = (
  (λ h. (t, refl, (not_empty (trim t)).0 h)),
  λ (u, e, h). subst (λ o. has_text o ≡ true) (sym e) ((not_empty (trim u)).1 h),
)

pub truthy : (o : Option Text) → (is_truthy o ≡ true) ↔ ((t : Text) × (o ≡ some t) × (t ≢ []))
truthy none = ((λ e. cc), λ (t, e, _). cc)
truthy (some t) = (
  (λ h. (t, refl, (not_empty t).0 h)),
  λ (u, e, h). subst (λ o. is_truthy o ≡ true) (sym e) ((not_empty u).1 h),
)

placed :
    (l : ServiceLocation) (o : Option Text)
    → (not (is_salon l) || is_truthy o ≡ true)
      ↔ ((l ≢ salon) ⊎ ((t : Text) × (o ≡ some t) × (t ≢ [])))
placed home o = ((λ _. inl (λ e. cc)), λ _. refl)
placed both o = ((λ _. inl (λ e. cc)), λ _. refl)
placed salon o =
    ((λ h. inr ((truthy o).0 h)), λ s. elim s [ inl n ↦ absurd (n refl) | inr t ↦ (truthy o).1 t ])

over : (now : ℕ) (until : Option ℕ) → (is_manually_paused now until ≡ false) ↔ IsOver now until
unfolding IsOver
over now none = ((λ _. inl refl), λ _. refl)
over now (some t) =
    ((λ h. inr (t, refl, ground arith)), λ s. elim s [ inl e ↦ cc | inr (u, e, h) ↦ ground arith ])

is_eligible_iff :
    (first_name : Option Text) (p : Professional)
    → (is_eligible first_name p ≡ true) ↔ IsEligible first_name p
unfolding is_eligible
is_eligible_iff first_name p = (
  (λ h. record {
    user = (text first_name).0 (ground arith);
    categories = (nonempty p.main_categories).0 (ground arith);
    agency = (not_empty (trim p.agency_name)).0 (ground arith);
    avatar = (truthy p.avatar_url).0 (ground arith);
    bio = (text p.bio).0 (ground arith);
    services = (nonempty (get_active_services p)).0 (ground arith);
    address = (placed p.location p.address).0 (ground arith);
  }),
  λ e.
      rw
        (
          (text first_name).1 e.user,
          (nonempty p.main_categories).1 e.categories,
          (not_empty (trim p.agency_name)).1 e.agency,
          (truthy p.avatar_url).1 e.avatar,
          (text p.bio).1 e.bio,
          (nonempty (get_active_services p)).1 e.services,
          (placed p.location p.address).1 e.address,
        )
        refl,
)

refreshed :
    (now : ℕ) (first_name : Option Text) (p : Professional)
    → p.deleted_at ≡ none
    → ((refresh now (some first_name) p).is_listing_active ≡ is_eligible first_name p)
      × ((refresh now (some first_name) p).is_accepting_bookings
          ≡ (is_eligible first_name p && not (is_manually_paused now p.bookings_paused_until)))
unfolding refresh
refreshed now first_name p live = (ground arith, ground arith)

-- After a refresh for a user that is there, a professional that is not deleted is listed exactly when
-- it is eligible, and takes bookings exactly when it is eligible and no pause has a date that lies
-- ahead. A pause without a date, which the entity calls indefinite, does not hold: the refresh ends it.
pub refresh_iff :
    (now : ℕ) (first_name : Option Text) (p : Professional)
    → p.deleted_at ≡ none
    → (((refresh now (some first_name) p).is_listing_active ≡ true) ↔ IsEligible first_name p)
      × (((refresh now (some first_name) p).is_accepting_bookings ≡ true)
          ↔ (IsEligible first_name p × IsOver now p.bookings_paused_until))
refresh_iff now first_name p live =
    let eligible = is_eligible_iff first_name p in
    let paused = over now p.bookings_paused_until in
    let (listed, accepting) = refreshed now first_name p live in
    (
      ((λ h. eligible.0 (sym listed ∙ h)), λ e. listed ∙ eligible.1 e),
      (
        (λ h.
            let both_hold = sym accepting ∙ h in
            (eligible.0 (ground arith), paused.0 (ground arith))),
        λ (e, o). let yes = eligible.1 e in let no = paused.1 o in accepting ∙ ground arith,
      ),
    )
