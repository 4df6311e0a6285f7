-- ===== src/Professional/Schedule/Laws.antt =====
-- Days of the week, and what a lookup of a day finds after each method.
use api_v.Base.{
  ℕ, ◌≤◌, ◌≡◌, ◌≢◌, true, false, none, some, arith, inl, inr, Bool-cases, Option-cases, any, find?,
  replace_first, push, count, count-push_unique, count-replace_first_le, find-replace_first_ne,
  find-replace_first_self, find-replace_first_gone, find-push, find-push_ne, ℤ, eq_ℤ, Result, ok,
  err,
}
use api_v.Availability.{Availability}
use api_v.Professional.{Professional}
use api_v.Professional.Schedule.{
  is_live_on, add_availability, update_availability, remove_availability, get_availability,
}

-- At most one live day stands for a day of the week.
abbrev pub HasLiveDays : Professional → Type 0
HasLiveDays p = (day : ℤ) → count (is_live_on day) p.availabilities ≤ 1

abbrev pub KeepsDays : Result Professional → Type 0
KeepsDays (ok q) = HasLiveDays q
KeepsDays (err _) = Unit

eq_of_days : (a b : ℤ) → eq_ℤ a b ≡ true → a ≡ b
eq_of_days a b h = ground arith

pub eq_ℤ_refl : (a : ℤ) → eq_ℤ a a ≡ true
eq_ℤ_refl a = ground arith

pub add_availability-KeepsDays :
    (now : ℕ) (a : Availability) (p : Professional)
    → HasLiveDays p
    → KeepsDays (add_availability now a p)
unfolding add_availability
add_availability-KeepsDays now a p v =
    elim (Bool-cases (any (is_live_on a.day_of_week) p.availabilities)) [
      | inl taken ↦ rw taken tt
      | inr free ↦ rw free λ day.
          count-push_unique (is_live_on day) (record a { professional_id = p.id }) p.availabilities
            (v day) λ t. rw (eq_of_days a.day_of_week day (ground arith)) at free
    ]

pub update_availability-KeepsDays :
    (now : ℕ) (day : ℤ) (a : Availability) (p : Professional)
    → a.day_of_week ≡ day
    → HasLiveDays p
    → KeepsDays (update_availability now day a p)
unfolding update_availability
update_availability-KeepsDays now day a p e v =
    elim (Option-cases (find? (is_live_on day) p.availabilities)) [
      | inl missing ↦ rw missing tt
      | inr (s, found) ↦ rw found λ d.
          let fewer =
            count-replace_first_le (is_live_on d) (is_live_on day) (λ _. a) p.availabilities
              (λ x t k. ground arith) in
          omega (arith, v d, fewer)
    ]

pub remove_availability-KeepsDays :
    (now : ℕ) (day : ℤ) (p : Professional)
    → HasLiveDays p
    → KeepsDays (remove_availability now day p)
unfolding remove_availability
remove_availability-KeepsDays now day p v =
    elim (Option-cases (find? (is_live_on day) p.availabilities)) [
      | inl missing ↦ rw missing tt
      | inr (s, found) ↦ rw found λ d.
          let fewer =
            count-replace_first_le (is_live_on d) (is_live_on day)
              (λ a. record a { deleted_at = some now }) p.availabilities (λ x t k. ground arith) in
          omega (arith, v d, fewer)
    ]

-- Adding, removing and updating a day keep at most one live day for each day of the week, whether
-- or not the call returns; the update does so if the new value is for the day that it replaces.
pub days-KeepsDays :
    (now : ℕ) (day : ℤ) (a : Availability) (p : Professional)
    → HasLiveDays p
    → KeepsDays (add_availability now a p)
      × KeepsDays (remove_availability now day p)
      × (a.day_of_week ≡ day → KeepsDays (update_availability now day a p))
days-KeepsDays now day a p v = (
  add_availability-KeepsDays now a p v,
  remove_availability-KeepsDays now day p v,
  λ e. update_availability-KeepsDays now day a p e v,
)

-- After a removal no live day is found, and every other day finds what it found before.
pub get_availability-remove_availability :
    (now : ℕ) (day : ℤ) (p q : Professional)
    → HasLiveDays p
    → remove_availability now day p ≡ ok q
    → (get_availability day q ≡ none)
      × ((d : ℤ) → d ≢ day → get_availability d q ≡ get_availability d p)
unfolding remove_availability get_availability
get_availability-remove_availability now day p q v h =
    let days : q.availabilities
        ≡ replace_first (is_live_on day) (λ a. record a { deleted_at = some now })
            p.availabilities =
      ground arith in
    (
      rw days (
          find-replace_first_gone _ (is_live_on day) _ p.availabilities (λ x t. t)
            (λ x. ground arith) (v day)),
      λ d ne. rw days (
          find-replace_first_ne _ (is_live_on day) _ p.availabilities
            λ x t. (ground arith, ground arith)),
    )

-- After an update by a live value for the same day, the day finds that value, and every other day
-- finds what it found before.
pub get_availability-update_availability :
    (now : ℕ) (day : ℤ) (a : Availability) (p q : Professional)
    → a.day_of_week ≡ day
    → a.deleted_at ≡ none
    → update_availability now day a p ≡ ok q
    → (get_availability day q ≡ some a)
      × ((d : ℤ) → d ≢ day → get_availability d q ≡ get_availability d p)
unfolding update_availability get_availability
get_availability-update_availability now day a p q e live h =
    elim (Option-cases (find? (is_live_on day) p.availabilities)) [
      | inl missing ↦ absurd (ground arith)
      | inr (old, found) ↦
          let days : q.availabilities ≡ replace_first (is_live_on day) (λ _. a) p.availabilities =
            ground arith in
          (
            rw days (
                find-replace_first_self (is_live_on day) a old p.availabilities (ground arith)
                  found),
            λ d ne. rw days (
                find-replace_first_ne _ (is_live_on day) _ p.availabilities
                  λ x t. (ground arith, ground arith)),
          )
    ]

-- After a live day was added, its day of the week finds it, with the professional's id, and every
-- other day finds what it found before.
pub get_availability-add_availability :
    (now : ℕ) (a : Availability) (p q : Professional)
    → a.deleted_at ≡ none
    → add_availability now a p ≡ ok q
    → (get_availability a.day_of_week q ≡ some (record a { professional_id = p.id }))
      × ((d : ℤ) → d ≢ a.day_of_week → get_availability d q ≡ get_availability d p)
unfolding add_availability get_availability
get_availability-add_availability now a p q live h =
    let new : Availability = record a { professional_id = p.id } in
    let free : any (is_live_on a.day_of_week) p.availabilities ≡ false = ground arith in
    let days : q.availabilities ≡ push new p.availabilities = ground arith in
    (
      rw days (find-push (is_live_on a.day_of_week) new p.availabilities free (ground arith)),
      λ d ne. rw days (find-push_ne (is_live_on d) new p.availabilities (ground arith)),
    )
