-- ===== src/Professional/Status/Reach.antt =====
-- Accounts over their whole life: every call of a method of the aggregate that touches the account
-- is a step, and an account is reached by steps from its creation.
use api_v.Base.{ℕ, ◌≡◌, refl, ◌⊎◌, inl, inr, true, Option, none, is_some, arith, Text, ok}
use api_v.Professional.{
  Professional, Rating, pending, active, suspended, rejected, CreateProps, UpdateProps, create,
  update_profile, update_rating, delete, restore,
}
use api_v.Professional.Status.{
  verify, reject, resubmit, suspend, reactivate, activate_listing, deactivate_listing,
  pause_bookings, resume_bookings,
}

-- One call that returns.
pub data Step (p : Professional) : Professional → Type 0 where
  verifies : (now : ℕ) → Step p (verify now p)
  rejects : (now : ℕ) (reason : Text) {q : Professional} → reject now reason p ≡ ok q → Step p q
  resubmits : (now : ℕ) {q : Professional} → resubmit now p ≡ ok q → Step p q
  suspends : (now : ℕ) → Step p (suspend now p)
  reactivates : (now : ℕ) {q : Professional} → reactivate now p ≡ ok q → Step p q
  lists : (now : ℕ) → Step p (activate_listing now p)
  unlists : (now : ℕ) → Step p (deactivate_listing now p)
  pauses : (now : ℕ) (resume_at : Option ℕ) → Step p (pause_bookings now resume_at p)
  resumes : (now : ℕ) → Step p (resume_bookings now p)
  updates :
      (now : ℕ) (props : UpdateProps) {q : Professional}
      → update_profile now props p ≡ ok q
      → Step p q
  rates :
      (now : ℕ) (r : Rating) (n : ℕ) {q : Professional} → update_rating now r n p ≡ ok q → Step p q
  deletes : (now : ℕ) → Step p (delete now p)
  restores : (now : ℕ) → Step p (restore now p)

pub data Reach (p : Professional) : Professional → Type 0 where
  here : Reach p p
  next : {q r : Professional} → Reach p q → Step q r → Reach p r

-- What the fields of an account say of one another.
pub record IsCoherent (p : Professional) : Type 0 where
  pub active_verified : p.status ≡ active → p.is_verified ≡ true
  pub verified_status : p.is_verified ≡ true → (p.status ≡ active) ⊎ (p.status ≡ suspended)
  pub verified_reason : p.is_verified ≡ true → p.rejection_reason ≡ none
  pub rejected_reason : p.status ≡ rejected → is_some p.rejection_reason ≡ true
  pub pending_reason : p.status ≡ pending → p.rejection_reason ≡ none

create-IsCoherent :
    (now : ℕ) (props : CreateProps) (p : Professional) → create now props ≡ ok p → IsCoherent p
unfolding create
create-IsCoherent now props p h = record {
  active_verified = ground arith;
  verified_status = ground arith;
  verified_reason = ground arith;
  rejected_reason = ground arith;
  pending_reason = ground arith;
}

Step-IsCoherent : {p q : Professional} → Step p q → IsCoherent p → IsCoherent q
unfolding verify reject resubmit suspend reactivate activate_listing deactivate_listing
    pause_bookings resume_bookings update_profile update_rating delete restore
Step-IsCoherent (verifies now) v = ground arith
Step-IsCoherent (rejects now reason e) v = ground arith
Step-IsCoherent (resubmits now e) v = ground arith
Step-IsCoherent (suspends now) v = ground arith
Step-IsCoherent (reactivates now e) v = ground arith
Step-IsCoherent (lists now) v = ground arith
Step-IsCoherent (unlists now) v = ground arith
Step-IsCoherent (pauses now r) v = ground arith
Step-IsCoherent (resumes now) v = ground arith
Step-IsCoherent (updates now props e) v = ground arith
Step-IsCoherent (rates now r n e) v = ground arith
Step-IsCoherent (deletes now) v = ground arith
Step-IsCoherent (restores now) v = ground arith

-- An account that is reached from its creation is coherent: an active account is verified, a
-- verified one is active or suspended and carries no reason of rejection, a rejected one carries
-- a reason, and a pending one does not.
pub Reach-IsCoherent :
    (now : ℕ) (props : CreateProps) {p q : Professional}
    → create now props ≡ ok p
    → Reach p q
    → IsCoherent q
Reach-IsCoherent now props {p} h r = go r
  where
    go : {q : Professional} → Reach p q → IsCoherent q
    go here = create-IsCoherent now props p h
    go (next r st) = Step-IsCoherent st (go r)

Step-is_verified : {p q : Professional} → Step p q → p.is_verified ≡ true → q.is_verified ≡ true
unfolding verify reject resubmit suspend reactivate activate_listing deactivate_listing
    pause_bookings resume_bookings update_profile update_rating delete restore
Step-is_verified (verifies now) v = ground arith
Step-is_verified (rejects now reason e) v = ground arith
Step-is_verified (resubmits now e) v = ground arith
Step-is_verified (suspends now) v = ground arith
Step-is_verified (reactivates now e) v = ground arith
Step-is_verified (lists now) v = ground arith
Step-is_verified (unlists now) v = ground arith
Step-is_verified (pauses now r) v = ground arith
Step-is_verified (resumes now) v = ground arith
Step-is_verified (updates now props e) v = ground arith
Step-is_verified (rates now r n e) v = ground arith
Step-is_verified (deletes now) v = ground arith
Step-is_verified (restores now) v = ground arith

-- Once verified, an account stays verified, whatever calls follow.
pub Reach-is_verified :
    {p q : Professional} → Reach p q → p.is_verified ≡ true → q.is_verified ≡ true
Reach-is_verified here v = v
Reach-is_verified (next r st) v = Step-is_verified st (Reach-is_verified r v)

-- A verified account that is suspended leaves the suspension by a reactivation and by no other
-- call: a second verification, a rejection or a resubmission does not lift it.
pub suspension_stands :
    {p q : Professional}
    → Step p q
    → p.is_verified ≡ true
    → p.status ≡ suspended
    → (q.status ≡ suspended) ⊎ ((now : ℕ) × (reactivate now p ≡ ok q))
unfolding verify reject resubmit suspend activate_listing deactivate_listing pause_bookings
    resume_bookings update_profile update_rating delete restore
suspension_stands (verifies now) v s = inl (ground arith)
suspension_stands (rejects now reason e) v s = inl (ground arith)
suspension_stands (resubmits now e) v s = inl (ground arith)
suspension_stands (suspends now) v s = inl refl
suspension_stands (reactivates now e) v s = inr (now, e)
suspension_stands (lists now) v s = inl s
suspension_stands (unlists now) v s = inl s
suspension_stands (pauses now r) v s = inl s
suspension_stands (resumes now) v s = inl s
suspension_stands (updates now props e) v s = inl (ground arith)
suspension_stands (rates now r n e) v s = inl (ground arith)
suspension_stands (deletes now) v s = inl s
suspension_stands (restores now) v s = inl s
