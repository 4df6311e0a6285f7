-- ===== src/Professional/Status.antt =====
-- The life of a professional's account: verification, rejection, suspension, and the switches that
-- the professional controls.
pub mod Reach
use api_v.Base.{
  ℕ, Bool, true, false, not, ◌&&◌, Option, none, some, is_some, if◌then◌else◌, Text, Result, ok,
  unprocessable, throw_if, ◌>>=◌, ◌>>◌,
}
use api_v.Professional.{Professional, ProfessionalStatus, pending, active, suspended, rejected}

abbrev pub is_rejected : ProfessionalStatus → Bool
is_rejected rejected = true
is_rejected _ = false

abbrev pub is_suspended : ProfessionalStatus → Bool
is_suspended suspended = true
is_suspended _ = false

unfoldable pub verify : ℕ → Professional → Professional
verify now p =
    if p.is_verified
    then p
    else record p { is_verified = true; status = active; rejection_reason = none; updated_at = now }

unfoldable pub reject : ℕ → Text → Professional → Result Professional
reject now reason p = do
  throw_if p.is_verified (unprocessable "Cannot reject an already verified professional")
  ok (record p { status = rejected; rejection_reason = some reason; updated_at = now })

unfoldable pub resubmit : ℕ → Professional → Result Professional
resubmit now p = do
  throw_if (not (is_rejected p.status)) (unprocessable "Only rejected professionals can resubmit")
  ok (record p { status = pending; rejection_reason = none; updated_at = now })

unfoldable pub suspend : ℕ → Professional → Professional
suspend now p = record p { status = suspended; updated_at = now }

unfoldable pub reactivate : ℕ → Professional → Result Professional
reactivate now p = do
  throw_if (not p.is_verified) (unprocessable "Cannot reactivate unverified professional")
  ok (record p { status = active; updated_at = now })

unfoldable pub activate_listing : ℕ → Professional → Professional
activate_listing now p = record p { is_listing_active = true; updated_at = now }

unfoldable pub deactivate_listing : ℕ → Professional → Professional
deactivate_listing now p = record p { is_listing_active = false; updated_at = now }

unfoldable pub pause_bookings : ℕ → Option ℕ → Professional → Professional
pause_bookings now resume_at p = record p {
  is_accepting_bookings = false;
  bookings_paused_until = resume_at;
  updated_at = now;
}

unfoldable pub resume_bookings : ℕ → Professional → Professional
resume_bookings now p = record p {
  is_accepting_bookings = true;
  bookings_paused_until = none;
  updated_at = now;
}

unfoldable pub is_active : Professional → Bool
is_active p = not (is_some p.deleted_at) && not (is_suspended p.status)
