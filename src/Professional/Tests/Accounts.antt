-- ===== src/Professional/Tests/Accounts.antt =====
-- Runs of the account's methods, and the theorems about accounts at concrete ones.
use api_v.Base.{ℕ, ◌≡◌, ◌⊎◌, ◌↔◌, refl, true, some, codes, ok, err, unprocessable}
use api_v.Professional.{Professional, suspended, rejected}
use api_v.Professional.Status.{verify, reject, resubmit, suspend, reactivate}
use api_v.Professional.Status.Reach.{
  here, next, verifies, suspends, rejects, IsCoherent, Reach-IsCoherent, suspension_stands,
}
use api_v.Professional.Services.{get_active_services, has_services}
use api_v.Professional.Schedule.{get_active_availabilities, has_availability}
use api_v.Professional.Portfolio.{get_public_gallery}
use api_v.Professional.Visibility.{
  is_publicly_visible, can_accept_bookings, has_blocking_steps_completed, get_profile_completion,
}
use api_v.Professional.Visibility.Laws.{IsListed, is_publicly_visible_iff}
use api_v.Gallery.Sorting.{sort_by_order}
use api_v.Professional.Tests.{fresh, asked, create-asked, listed}

profiles : Unit {0}
unfolding verify reject resubmit suspend reactivate is_publicly_visible can_accept_bookings
    has_blocking_steps_completed get_profile_completion has_services has_availability
    get_public_gallery sort_by_order get_active_services get_active_availabilities
profiles = tt

listed_now : (can_accept_bookings listed ≡ true) × (get_profile_completion listed ≡ 57)
unfolding profiles
listed_now = (refl, refl)

refused_rejection :
    reject 7 (codes "incomplet") listed
    ≡ err (unprocessable "Cannot reject an already verified professional")
unfolding profiles
refused_rejection = refl

abbrev turned_down : Professional
turned_down = record fresh {
  status = rejected;
  rejection_reason = some (codes "incomplet");
  updated_at = 7;
}

reject-fresh : reject 7 (codes "incomplet") fresh ≡ ok turned_down
unfolding profiles
reject-fresh = refl

Reach-IsCoherent_example : IsCoherent (suspend 8 turned_down)
Reach-IsCoherent_example =
    Reach-IsCoherent 5 asked {q = suspend 8 turned_down} create-asked
      (next (next here (rejects 7 (codes "incomplet") reject-fresh)) (suspends 8))

abbrev barred : Professional
barred = record listed { status = suspended }

suspension_stands_example :
    ((verify 9 barred).status ≡ suspended)
    ⊎ ((now : ℕ) × (reactivate now barred ≡ ok (verify 9 barred)))
suspension_stands_example =
    suspension_stands {p = barred} {q = verify 9 barred} (verifies 9) refl refl

is_publicly_visible_iff_example : (is_publicly_visible listed ≡ true) ↔ IsListed listed
is_publicly_visible_iff_example = is_publicly_visible_iff listed
