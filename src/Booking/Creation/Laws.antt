-- ===== src/Booking/Creation/Laws.antt =====
-- What a creation that returns has checked and written.
use api_v.Base.{
  ℕ, ◌⊎◌, inl, inr, sym, find?, filter, Text, same, bad_request, ◌+◌, ◌≡◌, ◌≤◌, refl, ap, true,
  List, [], ◌∷◌, Every, subst, not, ◌&&◌, ◌==◌, is_some, none, some, length, ok, ok_injective,
  not_found, throw_if, given, passed, first_returns, arith,
}
use api_v.Booking.{Client, Store, IsLawfulClient, FeeRow, ServiceRow, HoursRow}
use api_v.Database.{total}
use api_v.Professional.{active}
use api_v.Booking.Slots.{validate_slot, is_hours_on, utc_day, utc_minutes}
use api_v.Booking.Slots.Fits.{IsWithin, validate_slot-IsWithin}
use api_v.Booking.Creation.Accepting.{check_accepting_iff}
use api_v.Booking.Pricing.{
  is_asked, total_base_price, total_duration, first_of, primary_service, travel_fee_for, fee_among,
  lines_from,
}
use api_v.Booking.Creation.{CreateCommand, Draft, check_accepting, asked_services, prepare}

-- The fee of a service for a commune: nothing where it has no fee that is live and available, and
-- otherwise the one of the first such fee for the commune.
pub IsFee : ServiceRow → Text → ℕ → Type 0
IsFee s commune n =
    let fees = filter (λ f. not (is_some f.deleted_at) && f.is_available) s.commune_fees in
    ((fees ≡ []) × (n ≡ 0))
    ⊎ ((f : FeeRow) × (find? (λ g. same g.commune commune) fees ≡ some f) × (n ≡ f.travel_fee))

travel_fee_for-IsFee :
    (s : ServiceRow) (commune : Text) (n : ℕ) → travel_fee_for s commune ≡ ok n → IsFee s commune n
unfolding travel_fee_for IsFee
travel_fee_for-IsFee s commune n =
    go (filter (λ f. not (is_some f.deleted_at) && f.is_available) s.commune_fees)
  where
    go :
        (fees : List FeeRow)
        → fee_among fees commune ≡ ok n
        → ((fees ≡ []) × (n ≡ 0))
          ⊎ ((f : FeeRow) × (find? (λ g. same g.commune commune) fees ≡ some f)
              × (n ≡ f.travel_fee))
    go [] h = inl (refl, sym (ok_injective h))
    go (g ∷ fees) h =
        let (f, e, k) =
          given (find? (λ g. same g.commune commune) (g ∷ fees))
            (bad_request "Ce professionnel n'est pas disponible dans la commune") _ h in
        inr (f, e, sym (ok_injective k))

-- What has been checked when the handler comes to write.
pub record IsPrepared (C : Client) (now : ℕ) (command : CreateCommand) (db : Store C)
    (draft : Draft) : Type 0 where
  pub services : draft.services ≡ asked_services C command db
  pub length_services : length draft.services ≡ length command.service_ids
  pub known :
      C.professionals.find_unique command.professional_id db.professionals ≡ some draft.professional
  pub listed : draft.professional.deleted_at ≡ none
  pub verified : draft.professional.is_verified ≡ true
  pub active : draft.professional.status ≡ active
  pub accepting : draft.professional.is_accepting_bookings ≡ true
  pub not_paused : (until : ℕ) → draft.professional.bookings_paused_until ≡ some until → until ≤ now
  pub date : command.scheduled_at ≡ some draft.scheduled_at
  pub slot :
      (a : HoursRow) × (C.availabilities.find_unique a.id db.availabilities ≡ some a)
      × (is_hours_on command.professional_id (utc_day draft.scheduled_at) a ≡ true)
      × IsWithin a
          (utc_minutes draft.scheduled_at)
          (utc_minutes draft.scheduled_at + total (λ s. s.duration_min) draft.services)
  pub offered :
      Every
        (λ s.
          (C.services.find_unique s.id db.services ≡ some s)
          × (s.professional_id ≡ command.professional_id)
          × (s.is_active ≡ true)
          × (s.deleted_at ≡ none))
        draft.services
  pub fee :
      (primary : ServiceRow) × (primary_service command.service_ids draft.services ≡ ok primary)
      × IsFee primary command.commune draft.travel_fee
  pub first : first_of command.service_ids ≡ some draft.primary_id
  pub lines : lines_from 0 command.service_ids draft.services ≡ ok draft.lines

pub durations : (ss : List ServiceRow) → total_duration ss ≡ total (λ s. s.duration_min) ss
durations [] = refl
durations (s ∷ ss) = ap (λ n. s.duration_min + n) (durations ss)

pub prices : (ss : List ServiceRow) → total_base_price ss ≡ total (λ s. s.base_price) ss
prices [] = refl
prices (s ∷ ss) = ap (λ n. s.base_price + n) (prices ss)

all_offered :
    (P : ServiceRow → Type 0) (ids : List ℕ) (professional_id : ℕ) (ss : List ServiceRow)
    → Every (λ s. (is_asked ids professional_id s ≡ true) × P s) ss
    → Every
        (λ s.
          P s
          × (s.professional_id ≡ professional_id)
          × (s.is_active ≡ true)
          × (s.deleted_at ≡ none))
        ss
all_offered P ids j [] all = tt
all_offered P ids j (s ∷ ss) (asked, all) = (
  (asked.1, ground (arith, asked.0), ground (arith, asked.0), ground (arith, asked.0)),
  all_offered P ids j ss all,
)

module _ (C : Client) (lawful : IsLawfulClient C) (db : Store C) where
  pub prepare-IsPrepared :
      (now : ℕ) (command : CreateCommand) {draft : Draft}
      → prepare C now command db ≡ ok draft
      → IsPrepared C now command db draft
  unfolding prepare asked_services
  prepare-IsPrepared now command h =
      let (p, found, h1) = given _ _ _ h in
      let (t, u) =
        lawful.professionals.find_first_some
          (λ p. p.id == command.professional_id && not (is_some p.deleted_at)) db.professionals p
          found in
      let (l, h2) =
        passed
          (throw_if (not (length (asked_services C command db) == length command.service_ids))
            (not_found "Un ou plusieurs services sont introuvables pour ce professionnel"))
          _ h1 in
      let (a, h3) = passed (check_accepting now p) _ h2 in
      let (is_verified, is_active, is_accepting, unpaused) = (check_accepting_iff now p).0 a in
      let (date, d, h4) = given command.scheduled_at _ _ h3 in
      let (v, h5) =
        passed
          (validate_slot C db command.professional_id date
            (total_duration (asked_services C command db)))
          _ h4 in
      let (s, s_eq, h6) =
        first_returns (primary_service command.service_ids (asked_services C command db)) _ h5 in
      let (f, f_eq, h7) = first_returns (travel_fee_for s command.commune) _ h6 in
      let (i, i_eq, h8) = given (first_of command.service_ids) _ _ h7 in
      let (ls, ls_eq, h9) =
        first_returns (lines_from 0 command.service_ids (asked_services C command db)) _ h8 in
      subst (IsPrepared C now command db) (ok_injective h9) (record {
        services = refl;
        length_services = ground arith;
        known =
            subst (λ j. C.professionals.find_unique j db.professionals ≡ some p) (ground arith) u;
        listed = ground arith;
        offered =
            all_offered (λ s. C.services.find_unique s.id db.services ≡ some s) _ _ _
              (lawful.services.find_many_passes
                (is_asked command.service_ids command.professional_id) db.services);
        verified = is_verified;
        active = is_active;
        accepting = is_accepting;
        not_paused = unpaused;
        date = d;
        slot =
            subst
              (λ n.
                (a : HoursRow) × (C.availabilities.find_unique a.id db.availabilities ≡ some a)
                × (is_hours_on command.professional_id (utc_day date) a ≡ true)
                × IsWithin a (utc_minutes date) (utc_minutes date + n))
              (durations (asked_services C command db))
              (validate_slot-IsWithin C lawful db command.professional_id date _ v);
        fee = (s, s_eq, travel_fee_for-IsFee s command.commune f f_eq);
        first = i_eq;
        lines = ls_eq;
      })
