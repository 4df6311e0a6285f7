-- ===== src/Booking/Lifecycle/Consistency.antt =====
-- What the columns of a booking say of one another.
use api_v.Base.{
  ℕ, ◌≡◌, ◌≢◌, refl, sym, ap, subst, ◌∙◌, inl, inr, Bool, true, false, none, some, is_some,
  if◌then◌else◌, Bool-cases, ◌==◌, ==_iff, some_injective, arith,
}
use api_v.Booking.{
  Client, Store, IsLawfulClient, Booking, BookingStatus, CancellationRequestStatus, pending,
  confirmed, rejected, cancelled, completed, no_show, request_none, request_pending,
  request_approved, request_rejected,
}
use api_v.Booking.Creation.{CreateCommand, Created}
use api_v.Booking.Creation.Writes.{Creates}
use api_v.Booking.Changes.{
  Edit, loses, asks, confirms, rejects, completes, cancels, approves, refuses, misses, Changes,
}
use api_v.Database.Writes.{changed_from}
use api_v.Offers
use api_v.Offers.{is_open_for}
use api_v.Booking.Lifecycle.{Effect, closes, changed, created, Step-Effect, Reach, here, next}

-- The states in which a booking has been confirmed and not cancelled.
abbrev pub is_held : BookingStatus → Bool
is_held confirmed = true
is_held completed = true
is_held no_show = true
is_held _ = false

abbrev pub is_undone : BookingStatus → Bool
is_undone rejected = true
is_undone cancelled = true
is_undone _ = false

abbrev pub is_requested : CancellationRequestStatus → Bool
is_requested request_pending = true
is_requested request_approved = true
is_requested _ = false

pub record IsConsistent (b : Booking) : Type 0 where
  pub held : is_held b.status ≡ true → is_some b.confirmed_at ≡ true
  pub waiting : b.status ≡ pending → b.confirmed_at ≡ none
  pub turned_down : b.status ≡ rejected → b.confirmed_at ≡ none
  pub undone : is_some b.cancelled_at ≡ is_undone b.status
  pub approved : b.cancellation_request_status ≡ request_approved → b.status ≡ cancelled
  pub requested :
      is_requested b.cancellation_request_status ≡ true
      → (is_some b.cancellation_requested_at ≡ true) × (is_some b.confirmed_at ≡ true)
  pub never_rejected : b.cancellation_request_status ≢ request_rejected

Edit-IsConsistent : {b c : Booking} → Edit b c → IsConsistent b → IsConsistent c
Edit-IsConsistent (asks now reason s r) v = ground arith
Edit-IsConsistent (confirms now s) v = ground arith
Edit-IsConsistent (rejects now reason s) v = ground arith
Edit-IsConsistent (completes s) v = ground arith
Edit-IsConsistent (cancels now reason s) v = ground arith
Edit-IsConsistent (approves now s r) v = ground arith
Edit-IsConsistent (refuses now reason s r) v = ground arith
Edit-IsConsistent (misses s) v = ground arith
Edit-IsConsistent (loses now id e) v = ground arith

lost :
    (now id : ℕ) (b : Booking) (t : Bool)
    → is_open_for id b ≡ t
    → IsConsistent b
    → IsConsistent (if t then Offers.as_cancelled now b else b)
lost now id b true e v = Edit-IsConsistent (loses now id e) v
lost now id b false e v = v

-- Every booking of the table is consistent.
unfoldable pub AllConsistent : (C : Client) → Store C → Type 0
AllConsistent C db =
    (i : ℕ) (b : Booking) → C.bookings.find_unique i db.bookings ≡ some b → IsConsistent b

new-IsConsistent :
    (b : Booking)
    → b.status ≡ pending
    → b.confirmed_at ≡ none
    → b.cancelled_at ≡ none
    → b.cancellation_request_status ≡ request_none
    → IsConsistent b
new-IsConsistent b s t u v = ground arith

module _ (C : Client) (lawful : IsLawfulClient C) where
  Changes-AllConsistent :
      (db after : Store C) → Changes C db after → AllConsistent C db → AllConsistent C after
  unfolding AllConsistent
  Changes-AllConsistent db after ch all i c h = elim (Bool-cases (ch.row.id == i)) [
    | inl e ↦
        subst IsConsistent
          (some_injective (
            sym (
              ap (C.bookings.find_unique ch.row.id) ch.written
              ∙ lawful.bookings.find_unique-update ch.row.id ch.change db.bookings ch.row ch.stored
                  ch.same_id)
            ∙ subst (λ j. C.bookings.find_unique j after.bookings ≡ some c)
                (sym ((==_iff ch.row.id i).0 e)) h))
          (Edit-IsConsistent ch.edit (all ch.row.id ch.row ch.stored))
    | inr e ↦ all i c (
        sym (
          ap (C.bookings.find_unique i) ch.written
          ∙ lawful.bookings.find_unique-update_ne ch.row.id i ch.change db.bookings (ground arith))
        ∙ h)
  ]

  Creates-AllConsistent :
      (now : ℕ) (command : CreateCommand) (made : Created) (db after : Store C)
      → Creates C now command db made after
      → AllConsistent C db
      → AllConsistent C after
  unfolding AllConsistent
  Creates-AllConsistent now command made db after cr all i c h =
      elim (Bool-cases (made.booking.id == i)) [
        | inl e ↦
            subst IsConsistent
              (sym cr.row
                ∙ some_injective (
                    sym cr.stored
                    ∙ subst (λ j. C.bookings.find_unique j after.bookings ≡ some c)
                        (sym ((==_iff made.booking.id i).0 e)) h))
              (new-IsConsistent _ refl refl refl refl)
        | inr e ↦ all i c (sym (cr.others i (ground arith)) ∙ h)
      ]

  closes-AllConsistent :
      (now id : ℕ) (db after : Store C)
      → after.bookings
        ≡ C.bookings.update_many (is_open_for id) (Offers.as_cancelled now) db.bookings
      → AllConsistent C db
      → AllConsistent C after
  unfolding AllConsistent
  closes-AllConsistent now id db after e all i c h =
      let (q, at, same) =
        changed_from (is_open_for id) (Offers.as_cancelled now)
          (C.bookings.find_unique i db.bookings) c
          (sym (
              lawful.bookings.find_unique-update_many (is_open_for id) (Offers.as_cancelled now)
                db.bookings i (λ x. refl))
            ∙ ap (C.bookings.find_unique i) (sym e)
            ∙ h) in
      subst IsConsistent (sym same) (lost now id q (is_open_for id q) refl (all i q at))

  Effect-AllConsistent :
      {db after : Store C} → Effect C db after → AllConsistent C db → AllConsistent C after
  Effect-AllConsistent {db} {after} (closes now id e) = closes-AllConsistent now id db after e
  Effect-AllConsistent {db} {after} (changed ch) = Changes-AllConsistent db after ch
  Effect-AllConsistent {db} {after} (created now command made cr) =
      Creates-AllConsistent now command made db after cr

  -- If every booking is consistent, as in an empty table, every booking stays so whatever calls
  -- of the handlers of bookings and deactivations of services follow: a confirmed, completed or missed one has its date of confirmation and a pending or
  -- rejected one has none; exactly the rejected and the cancelled have a date of cancellation; an
  -- approved request stands on a cancelled booking; a request that is open or approved has its date
  -- and stands on a booking that was confirmed; and no request is ever marked rejected.
  pub Reach-AllConsistent :
      (db after : Store C) → Reach C db after → AllConsistent C db → AllConsistent C after
  Reach-AllConsistent db after here all = all
  Reach-AllConsistent db after (next {mid} r st) all =
      Effect-AllConsistent (Step-Effect C lawful st) (Reach-AllConsistent db mid r all)
