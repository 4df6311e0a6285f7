-- ===== src/Scheduler.antt =====
-- src/modules/professional/professional.scheduler.ts: the jobs on all accounts, with the queries of
-- src/modules/professional/infrastructure/persistence/professional.repository.ts that select them.
-- The repository is the list of the accounts; a job saves what it made of each that was selected. The
-- events that it publishes are not modelled, and the jobs use one date.
pub mod Selection
pub mod Laws
mod Tests
use api_v.Base.{
  ℕ, ◌+◌, ◌*◌, Bool, true, false, not, ◌&&◌, Option, none, some, is_some, List, [], ◌∷◌, ◌++◌, leb,
  any, if◌then◌else◌, Text, codes, is_empty, trim, Result, ok, ◌>>=◌,
}
use api_v.Service.{is_available}
use api_v.Professional.{Professional, ProfessionalStatus, pending, active, suspended, rejected}
use api_v.Professional.Status.{verify, reject, resume_bookings}
use api_v.Professional.Services.{has_services}
use api_v.Professional.Schedule.{is_current}
use api_v.Professional.Visibility.{is_truthy}
use api_v.Offers.{has_text, is_nonempty}

abbrev pub grace_hours : ℕ
grace_hours = 72

abbrev pub is_pending : ProfessionalStatus → Bool
is_pending pending = true
is_pending _ = false

-- `findEligibleForAutoVerification`: the columns are compared as they are, without a trim.
unfoldable pub is_verifiable : Professional → Bool
unfolding is_available
is_verifiable p =
    not (is_some p.deleted_at)
    && is_pending p.status
    && not p.is_verified
    && not (is_empty p.agency_name)
    && is_some p.avatar_url
    && is_some p.bio
    && any is_available p.services
    && any is_current p.availabilities
    && is_nonempty p.main_categories

abbrev pub has_blocking_steps : Professional → Bool
has_blocking_steps p =
    not (is_empty (trim p.agency_name))
    && is_truthy p.avatar_url
    && has_text p.bio
    && is_nonempty p.main_categories
    && any is_available p.services

-- `findIncompleteAfterGracePeriod`
unfoldable pub is_overdue : ℕ → Professional → Bool
is_overdue now p =
    not (is_some p.deleted_at)
    && is_pending p.status
    && not p.is_verified
    && leb (p.created_at + grace_hours * 3600 * 1000) now
    && not (has_blocking_steps p)

abbrev pub is_past : ℕ → Option ℕ → Bool
is_past now none = false
is_past now (some until) = leb until now

-- `findWithExpiredBookingPause`
unfoldable pub is_pause_over : ℕ → Professional → Bool
is_pause_over now p =
    not (is_some p.deleted_at) && not p.is_accepting_bookings && is_past now p.bookings_paused_until

-- `if (test) missing.push(text)`
abbrev pub part : Bool → Text → List Text → List Text
part test text rest = if test then text ∷ rest else rest

abbrev pub joined : List Text → Text
joined [] = []
joined (t ∷ []) = t
joined (t ∷ u ∷ rest) = t ++ codes ", " ++ joined (u ∷ rest)

unfoldable pub build_reason : Professional → Text
build_reason p =
    codes "Profil incomplet après 72h. Éléments manquants : "
    ++ joined (
        part (is_empty (trim p.agency_name)) (codes "nom du salon") (
          part (not (is_truthy p.avatar_url)) (codes "photo de profil") (
            part (not (has_text p.bio)) (codes "description") (
              part (not (is_nonempty p.main_categories)) (codes "catégorie principale")
                (part (not (has_services p)) (codes "service actif") [])))))
    ++ codes "."

-- A job on every account that a query selects.
abbrev pub job :
    (Professional → Bool) → (Professional → Professional) → List Professional → List Professional
job selects f [] = []
job selects f (p ∷ ps) = (if selects p then f p else p) ∷ job selects f ps

unfoldable pub reactivate_expired_pauses : ℕ → List Professional → List Professional
reactivate_expired_pauses now ps = job (is_pause_over now) (resume_bookings now) ps

unfoldable pub auto_verify : ℕ → List Professional → List Professional
auto_verify now ps = job is_verifiable (verify now) ps

abbrev pub reject_one : ℕ → Professional → Result Professional
reject_one now p = if is_overdue now p then reject now (build_reason p) p else ok p

unfoldable pub auto_reject : ℕ → List Professional → Result (List Professional)
auto_reject now [] = ok []
auto_reject now (p ∷ ps) = do q ← reject_one now p; qs ← auto_reject now ps; ok (q ∷ qs)

-- `onApplicationBootstrap`
unfoldable pub on_application_bootstrap : ℕ → List Professional → Result (List Professional)
on_application_bootstrap now ps =
    auto_reject now (auto_verify now (reactivate_expired_pauses now ps))
