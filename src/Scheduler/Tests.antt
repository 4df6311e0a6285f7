-- ===== src/Scheduler/Tests.antt =====
-- The jobs at two accounts: one that is complete, one that is not.
use api_v.Base.{ℕ, ◌≡◌, refl, true, false, none, some, List, [], ◌∷◌, trim, codes, ok}
use api_v.Service.{is_available}
use api_v.Professional.{Professional, pending, active, rejected}
use api_v.Professional.Status.{verify, reject, resume_bookings}
use api_v.Professional.Services.{has_services}
use api_v.Professional.Tests.{listed, fresh}
use api_v.Scheduler.{
  is_verifiable, is_overdue, is_pause_over, build_reason, reactivate_expired_pauses, auto_verify,
  auto_reject, on_application_bootstrap,
}

-- Its pause is over.
abbrev waiting : Professional
waiting = record listed {
  main_categories = codes "Coiffure" ∷ [];
  status = pending;
  is_verified = false;
  is_accepting_bookings = false;
  bookings_paused_until = some 40;
}

jobs : Unit {0}
unfolding is_verifiable is_overdue is_pause_over build_reason reactivate_expired_pauses auto_verify
    auto_reject on_application_bootstrap verify reject resume_bookings has_services is_available
    trim
jobs = tt

abbrev date : ℕ
date = 300000000

abbrev accounts : List Professional
accounts = waiting ∷ fresh ∷ []

abbrev verified : Professional
verified = record waiting {
  status = active;
  is_verified = true;
  is_accepting_bookings = true;
  bookings_paused_until = none;
  updated_at = date;
}

abbrev refused : Professional
refused = record fresh {
  status = rejected;
  rejection_reason = some (
      codes
        "Profil incomplet après 72h. Éléments manquants : photo de profil, description, catégorie principale, service actif.");
  updated_at = date;
}

bootstrap-accounts : on_application_bootstrap date accounts ≡ ok (verified ∷ refused ∷ [])
unfolding jobs
bootstrap-accounts = refl
