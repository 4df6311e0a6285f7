-- ===== src/Offers/Deactivation.antt =====
-- What `DeactivateServiceHandler` leaves of a service and of its bookings.
use api_v.Base.{
  ℕ, ◌≡◌, ◌≢◌, ◌⊎◌, ◌↔◌, refl, sym, ap, subst, ◌∙◌, Bool, true, false, not, ◌&&◌, ◌||◌, Option,
  none, some, is_some, Text, codes, List, [], ◌∷◌, if◌then◌else◌, find?, find_holds, replace_first,
  inl, inr, Bool-cases, ok, not_found, given, first_returns, ok_injective, some_injective, arith,
}
use api_v.Database.{Table, IsLawful, changed_if}
use api_v.Database.Writes.{changed_from}
use api_v.Booking.{
  Booking, BookingStatus, pending, confirmed, rejected, cancelled, completed, no_show, is_pending,
  is_confirmed,
}
use api_v.Service.{ServiceOffering, deactivate}
use api_v.Professional.{Professional}
use api_v.Professional.Services.{get_service, has_id}
use api_v.Offers.{
  refresh, find_service, with_service, is_open_for, as_cancelled, deactivate_service,
}

-- A refresh keeps the services.
pub services-refresh :
    (now : ℕ) (user : Option (Option Text)) (p : Professional)
    → (refresh now user p).services ≡ p.services
unfolding refresh
services-refresh now none p = refl
services-refresh now (some first_name) p = ground arith

-- The service that `getService` finds, after it was changed in place.
find_changed :
    {A : Type 0} (t : A → Bool) (f : A → A) (xs : List A) (a : A)
    → find? t xs ≡ some a
    → t (f a) ≡ true
    → find? t (replace_first t f xs) ≡ some (f a)
find_changed t f [] a h k = cc
find_changed t f (x ∷ xs) a h k = elim (Bool-cases (t x)) [
  | inl e ↦
      let same : x ≡ a = some_injective (sym (rw e refl) ∙ h) in
      rw e (subst (λ y. find? t (f y ∷ xs) ≡ some (f a)) (sym same) (rw k refl))
  | inr e ↦ rw e (rw e (find_changed t f xs a (sym (rw e refl) ∙ h) k))
]

-- Neither pending nor confirmed.
pub IsSettled : BookingStatus → Type 0
IsSettled s = (s ≢ pending) × (s ≢ confirmed)

-- The service as the call found it and as it leaves it, and the bookings of it.
pub record IsDeactivated (T : Table Booking) (now id : ℕ) (found : Option Professional)
    (before : T.State) (p : Professional) (after : T.State) : Type 0 where
  pub owner : Professional
  pub there : found ≡ some owner
  pub service : ServiceOffering
  pub stood : get_service id owner ≡ some service
  pub deactivated : get_service id p ≡ some (record service { is_active = false; updated_at = now })
  pub cancelled_now :
      (i : ℕ) (b : Booking)
      → T.find_unique i before ≡ some b
      → b.service_id ≡ id
      → b.deleted_at ≡ none
      → (b.status ≡ pending) ⊎ (b.status ≡ confirmed)
      → T.find_unique i after
        ≡ some (record b {
          status = cancelled;
          cancelled_at = some now;
          cancellation_note = some (codes "Service désactivé par le professionnel.");
        })
  pub none_open :
      (i : ℕ) (b : Booking)
      → T.find_unique i after ≡ some b
      → b.service_id ≡ id
      → b.deleted_at ≡ none
      → IsSettled b.status
  pub others_kept :
      (i : ℕ) (b : Booking)
      → T.find_unique i before ≡ some b
      → (b.service_id ≢ id) ⊎ ((b.deleted_at ≢ none) ⊎ IsSettled b.status)
      → T.find_unique i after ≡ some b

settled : (s : BookingStatus) → (is_pending s || is_confirmed s ≡ false) ↔ IsSettled s
unfolding IsSettled
settled pending = ((λ e. cc), λ h. absurd (h.0 refl))
settled confirmed = ((λ e. cc), λ h. absurd (h.1 refl))
settled rejected = ((λ _. ((λ e. cc), λ e. cc)), λ _. refl)
settled cancelled = ((λ _. ((λ e. cc), λ e. cc)), λ _. refl)
settled completed = ((λ _. ((λ e. cc), λ e. cc)), λ _. refl)
settled no_show = ((λ _. ((λ e. cc), λ e. cc)), λ _. refl)

missing : (o : Option ℕ) → o ≢ none → is_some o ≡ true
missing none h = absurd (h refl)
missing (some n) h = refl

open-IsSettled :
    (id : ℕ) (b : Booking)
    → is_open_for id b ≡ false
    → b.service_id ≡ id
    → b.deleted_at ≡ none
    → IsSettled b.status
open-IsSettled id b e same live = (settled b.status).0 (ground arith)

open_of :
    (id : ℕ) (b : Booking)
    → b.service_id ≡ id
    → b.deleted_at ≡ none
    → (b.status ≡ pending) ⊎ (b.status ≡ confirmed)
    → is_open_for id b ≡ true
open_of id b on live (inl e) = ground arith
open_of id b on live (inr e) = ground arith

closed_of :
    (id : ℕ) (b : Booking)
    → (b.service_id ≢ id) ⊎ ((b.deleted_at ≢ none) ⊎ IsSettled b.status)
    → is_open_for id b ≡ false
closed_of id b (inl other) = ground arith
closed_of id b (inr (inl gone)) = let deleted = missing b.deleted_at gone in ground arith
closed_of id b (inr (inr done)) = let no = (settled b.status).1 done in ground arith

closed_one :
    (now id : ℕ) (q : Booking) (b : Bool)
    → is_open_for id q ≡ b
    → is_open_for id (if b then as_cancelled now q else q) ≡ false
closed_one now id q true e = ground arith
closed_one now id q false e = e

-- What a deactivation that returns writes to the bookings.
pub bookings-deactivate_service :
    (T : Table Booking) (now : ℕ) (user : Option (Option Text)) (id : ℕ)
    (found : Option Professional) (before : T.State) (p : Professional) (after : T.State)
    → deactivate_service T now user id found before ≡ ok (p, after)
    → after ≡ T.update_many (is_open_for id) (as_cancelled now) before
unfolding deactivate_service
bookings-deactivate_service T now user id found before p after h =
    let (there, f, h1) =
      first_returns (find_service id found)
        (λ there. ok (
          refresh now user (with_service id (deactivate now) there.0),
          T.update_many (is_open_for id) (as_cancelled now) before,
        ))
        h in
    ap (λ x. x.1) (sym (ok_injective h1))

module _ (T : Table Booking) (lawful : IsLawful (λ b. b.id) T) where
  -- A deactivation that returns was for a service that the professional has. It is still found, not
  -- active. The live bookings with it as their main service that were pending or confirmed are
  -- cancelled with the date of the call, so that none is either any more; every booking that was neither, or
  -- whose main service is another, or deleted, is as it was.
  pub deactivate_service-IsDeactivated :
      (now : ℕ) (user : Option (Option Text)) (id : ℕ) (found : Option Professional)
      (before : T.State) (p : Professional) (after : T.State)
      → deactivate_service T now user id found before ≡ ok (p, after)
      → IsDeactivated T now id found before p after
  unfolding deactivate_service get_service deactivate
  deactivate_service-IsDeactivated now user id found before p after h =
      let (there, f, h1) =
        first_returns (find_service id found)
          (λ there. ok (
            refresh now user (with_service id (deactivate now) there.0),
            T.update_many (is_open_for id) (as_cancelled now) before,
          ))
          h in
      let (owner, o, f1) = given found (not_found "Professionnel non trouve") _ f in
      let (service, s, f2) = given (get_service id owner) (not_found "Service non trouve") _ f1 in
      let kept =
        find_holds (λ s. has_id id s && not (is_some s.deleted_at)) owner.services service s in
      let services : p.services ≡ (with_service id (deactivate now) owner).services =
        ap (λ x. x.0.services) (sym (ok_injective h1))
        ∙ services-refresh now user (with_service id (deactivate now) there.0)
        ∙ ap (λ x. (with_service id (deactivate now) x.0).services) (sym (ok_injective f2)) in
      record {
        owner = owner;
        there = o;
        service = service;
        stood = s;
        deactivated =
            ap (find? (λ s. has_id id s && not (is_some s.deleted_at))) services
            ∙ find_changed (λ s. has_id id s && not (is_some s.deleted_at)) (deactivate now)
                owner.services service s kept;
        cancelled_now = λ i b e on live waiting.
            let stays_open = open_of id b on live waiting in
            ap (λ x. T.find_unique i x.1) (sym (ok_injective h1))
            ∙ lawful.find_unique-update_many (is_open_for id) (as_cancelled now) before i
                (λ x. refl)
            ∙ ap (changed_if (is_open_for id) (as_cancelled now)) e
            ∙ ground arith;
        none_open = λ i b e same_id live.
            let (q, _, same) =
              changed_from (is_open_for id) (as_cancelled now) (T.find_unique i before) b (
                sym (
                  lawful.find_unique-update_many (is_open_for id) (as_cancelled now) before i
                    (λ x. refl))
                ∙ ap (λ x. T.find_unique i x.1) (ok_injective h1)
                ∙ e) in
            open-IsSettled id b
              (ap (is_open_for id) same ∙ closed_one now id q (is_open_for id q) refl) same_id live;
        others_kept = λ i b e other.
            let closed = closed_of id b other in
            ap (λ x. T.find_unique i x.1) (sym (ok_injective h1))
            ∙ lawful.find_unique-update_many (is_open_for id) (as_cancelled now) before i
                (λ x. refl)
            ∙ ap (changed_if (is_open_for id) (as_cancelled now)) e
            ∙ ground arith;
      }
