-- ===== src/Scheduler/Laws.antt =====
-- What the jobs leave, account by account.
use api_v.Base.{
  ℕ, ◌+◌, ◌≡◌, ◌≢◌, ◌≤◌, ◌<◌, ◌⊎◌, Bool, true, false, some, none, List, [], ◌∷◌, if◌then◌else◌,
}
use api_v.Professional.{Professional, pending, active, rejected}
use api_v.Professional.Status.{verify, resume_bookings}
use api_v.Professional.Services.{get_active_services}
use api_v.Professional.Schedule.{get_active_availabilities}
use api_v.Scheduler.{is_verifiable, has_blocking_steps, is_overdue, is_pause_over, build_reason}
use api_v.Scheduler.Selection.{IsComplete, IsWaiting}

-- An account before and after the jobs.
pub record Settles (now : ℕ) (p q : Professional) : Type 0 where
  pub same_account : q.id ≡ p.id
  pub still_paused :
      (until : ℕ)
      → q.deleted_at ≡ none
      → q.is_accepting_bookings ≡ false
      → q.bookings_paused_until ≡ some until
      → now < until
  pub waits : IsWaiting q → (now < q.created_at + 259200000) ⊎ IsComplete q
  pub lacks : IsWaiting q → IsComplete q → get_active_availabilities q ≡ []
  pub verified_for :
      p.is_verified ≡ false
      → q.is_verified ≡ true
      → (p.status ≡ pending)
        × (q.status ≡ active)
        × (get_active_services p ≢ [])
        × (get_active_availabilities p ≢ [])
  pub rejected_for :
      p.status ≢ rejected
      → q.status ≡ rejected
      → (p.created_at + 259200000 ≤ now) × (¬ IsComplete p)

-- One account in the jobs, with the tests of the queries that select it.
abbrev after_pause : ℕ → Bool → Professional → Professional
after_pause now b p = if b then resume_bookings now p else p

abbrev after_check : ℕ → Bool → Professional → Professional
after_check now b p = if b then verify now p else p

abbrev after_grace : ℕ → Bool → Professional → Professional
after_grace now b p =
    if b
    then record p { status = rejected; rejection_reason = some (build_reason p); updated_at = now }
    else p

-- Nothing is left for the queries.
record IsDone (now : ℕ) (q : Professional) : Type 0 where
  no_pause : is_pause_over now q ≡ false
  not_verifiable : is_verifiable q ≡ false
  not_overdue : is_overdue now q ≡ false

-- A change of the switches and dates only keeps what the other queries read.
record IsAlike (p q : Professional) : Type 0 where
  id : q.id ≡ p.id
  status : q.status ≡ p.status
  is_verified : q.is_verified ≡ p.is_verified
  services : get_active_services q ≡ get_active_services p
  days : get_active_availabilities q ≡ get_active_availabilities p
  created_at : q.created_at ≡ p.created_at
  steps : has_blocking_steps q ≡ has_blocking_steps p

-- The changes of the last two jobs, by what selected the account.
record IsExplained (now : ℕ) (p q : Professional) : Type 0 where
  same_id : q.id ≡ p.id
  verified_for :
      p.is_verified ≡ false
      → q.is_verified ≡ true
      → (p.status ≡ pending)
        × (q.status ≡ active)
        × (get_active_services p ≢ [])
        × (get_active_availabilities p ≢ [])
  rejected_for :
      p.status ≢ rejected
      → q.status ≡ rejected
      → (p.created_at + 259200000 ≤ now) × (¬ IsComplete p)

-- Account by account, in order.
pub data AllSettle (now : ℕ) : List Professional → List Professional → Type 0 where
  no_more : AllSettle now [] []
  one_more :
      {p q : Professional} {ps qs : List Professional}
      → Settles now p q
      → AllSettle now ps qs
      → AllSettle now (p ∷ ps) (q ∷ qs)
