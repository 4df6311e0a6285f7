-- ===== src/Booking/Lifecycle.antt =====
-- Bookings over their whole life: every call of a handler that returns is a step of the database, also
-- the deactivation of a service in service.handlers.ts, which cancels bookings.
pub mod Forward
pub mod Consistency
use api_v.Base.{
  ℕ, ◌≡◌, ◌≢◌, ◌⊎◌, inl, inr, refl, sym, ap, subst, ◌∙◌, Bool, true, false, Option, none, some,
  is_some, if◌then◌else◌, List, Text, ok, ◌==◌, ==_iff, some_injective, none_not_some, Bool-cases,
  arith,
}
use api_v.Booking.{
  Client, Store, IsLawfulClient, Booking, BookingLine, BookingStatus, pending, confirmed, rejected,
  cancelled, completed, no_show, request_none, request_pending, request_approved, is_terminal,
}
use api_v.Database.{changed_if}
use api_v.Professional.{Professional}
use api_v.Offers
use api_v.Offers.{is_open_for, deactivate_service}
use api_v.Offers.Deactivation.{bookings-deactivate_service}
use api_v.Booking.Creation.{CreateCommand, Created, create_booking, request_cancellation}
use api_v.Booking.Creation.Writes.{Creates, create_booking-Creates}
use api_v.Booking.Decisions.{
  Confirmed, confirm, reject, complete, cancel, approve_cancellation, reject_cancellation,
  mark_no_show,
}
use api_v.Booking.Changes.{
  Edit, loses, asks, confirms, rejects, completes, cancels, approves, refuses, misses, Changes,
  request_cancellation-Changes, confirm-Changes, reject-Changes, complete-Changes, cancel-Changes,
  approve_cancellation-Changes, reject_cancellation-Changes, mark_no_show-Changes,
}

pub data Step (C : Client) (db : Store C) : Store C → Type 0 where
  step_create :
      (now : ℕ) (command : CreateCommand) (made : Created) (after : Store C)
      → create_booking C now command db ≡ ok (made, after)
      → Step C db after
  step_ask :
      (now booking_id client_id : ℕ) (reason : Option Text) (b : Booking) (after : Store C)
      → request_cancellation C now booking_id client_id reason db ≡ ok (b, after)
      → Step C db after
  step_confirm :
      (now booking_id professional_id : ℕ) (answer : Confirmed) (after : Store C)
      → confirm C now booking_id professional_id db ≡ ok (answer, after)
      → Step C db after
  step_reject :
      (now booking_id professional_id : ℕ) (reason : Option Text) (after : Store C)
      → reject C now booking_id professional_id reason db ≡ ok after
      → Step C db after
  step_complete :
      (booking_id professional_id : ℕ) (after : Store C)
      → complete C booking_id professional_id db ≡ ok after
      → Step C db after
  step_cancel :
      (now booking_id user_id : ℕ) (reason : Option Text) (after : Store C)
      → cancel C now booking_id user_id reason db ≡ ok after
      → Step C db after
  step_approve :
      (now booking_id professional_id : ℕ) (after : Store C)
      → approve_cancellation C now booking_id professional_id db ≡ ok after
      → Step C db after
  step_refuse :
      (now booking_id professional_id : ℕ) (reason : Option Text) (after : Store C)
      → reject_cancellation C now booking_id professional_id reason db ≡ ok after
      → Step C db after
  step_no_show :
      (booking_id professional_id : ℕ) (after : Store C)
      → mark_no_show C booking_id professional_id db ≡ ok after
      → Step C db after
  step_deactivate :
      (now : ℕ) (user : Option (Option Text)) (id : ℕ) (found : Option Professional)
      (p : Professional) (after : C.bookings.State)
      → deactivate_service C.bookings now user id found db.bookings ≡ ok (p, after)
      → Step C db (record db { bookings = after })

pub data Reach (C : Client) (db : Store C) : Store C → Type 0 where
  here : Reach C db db
  next : {mid after : Store C} → Reach C db mid → Step C mid after → Reach C db after

pub data Effect (C : Client) (db after : Store C) : Type 0 where
  changed : Changes C db after → Effect C db after
  closes :
      (now id : ℕ)
      → after.bookings
        ≡ C.bookings.update_many (is_open_for id) (Offers.as_cancelled now) db.bookings
      → Effect C db after
  created :
      (now : ℕ) (command : CreateCommand) (made : Created)
      → Creates C now command db made after
      → Effect C db after

-- One row of the table across a step.
pub data Row (b : Booking) : Booking → Type 0 where
  kept : Row b b
  edited : {c : Booking} → Edit b c → Row b c

module _ (C : Client) (lawful : IsLawfulClient C) where
  found_in :
      (db : Store C) (i : ℕ) (b c : Booking)
      → C.bookings.find_unique i db.bookings ≡ some b
      → c.id ≡ i
      → C.bookings.find_unique c.id db.bookings ≡ some c
      → c ≡ b
  found_in db i b c h e k =
      some_injective (sym (subst (λ j. C.bookings.find_unique j db.bookings ≡ some c) e k) ∙ h)

  Row_of_Changes :
      (db after : Store C) (i : ℕ) (b : Booking)
      → Changes C db after
      → C.bookings.find_unique i db.bookings ≡ some b
      → (c : Booking) × (C.bookings.find_unique i after.bookings ≡ some c) × Row b c
  Row_of_Changes db after i b ch h = elim (Bool-cases (ch.row.id == i)) [
    | inl e ↦ (
      ch.change ch.row,
      subst (λ j. C.bookings.find_unique j after.bookings ≡ some (ch.change ch.row))
          ((==_iff ch.row.id i).0 e)
          (ap (C.bookings.find_unique ch.row.id) ch.written
            ∙ lawful.bookings.find_unique-update ch.row.id ch.change db.bookings ch.row ch.stored
                ch.same_id),
      subst (λ x. Row x (ch.change ch.row))
          (found_in db i b ch.row h ((==_iff ch.row.id i).0 e) ch.stored) (edited ch.edit),
    )
    | inr e ↦ (
      b,
      ap (C.bookings.find_unique i) ch.written
          ∙ lawful.bookings.find_unique-update_ne ch.row.id i ch.change db.bookings (ground arith)
          ∙ h,
      kept,
    )
  ]

  lost :
      (now id : ℕ) (b : Booking) (t : Bool)
      → is_open_for id b ≡ t
      → Row b (if t then Offers.as_cancelled now b else b)
  lost now id b true e = edited (loses now id e)
  lost now id b false e = kept

  -- What a step does: it edits one row, adds one, or cancels the open bookings of a service.
  pub Step-Effect : {db after : Store C} → Step C db after → Effect C db after
  Step-Effect {db} (step_create now command made a e) =
      created now command made (create_booking-Creates C lawful db now command made a e)
  Step-Effect {db} (step_ask now j k reason b a e) =
      changed (request_cancellation-Changes C lawful db now j k reason e)
  Step-Effect {db} (step_confirm now j k b a e) = changed (confirm-Changes C lawful db now j k e)
  Step-Effect {db} (step_reject now j k reason a e) =
      changed (reject-Changes C lawful db now j k reason e)
  Step-Effect {db} (step_complete j k a e) = changed (complete-Changes C lawful db j k e)
  Step-Effect {db} (step_cancel now j k reason a e) =
      changed (cancel-Changes C lawful db now j k reason e)
  Step-Effect {db} (step_approve now j k a e) =
      changed (approve_cancellation-Changes C lawful db now j k e)
  Step-Effect {db} (step_refuse now j k reason a e) =
      changed (reject_cancellation-Changes C lawful db now j k reason e)
  Step-Effect {db} (step_no_show j k a e) = changed (mark_no_show-Changes C lawful db j k e)
  Step-Effect {db} (step_deactivate now user id found p after e) =
      closes now id (bookings-deactivate_service C.bookings now user id found db.bookings p after e)

  -- A row that is in the table before a step is there after it, kept or edited.
  pub Effect-Row :
      {db after : Store C} (i : ℕ) (b : Booking)
      → Effect C db after
      → C.bookings.find_unique i db.bookings ≡ some b
      → (c : Booking) × (C.bookings.find_unique i after.bookings ≡ some c) × Row b c
  Effect-Row {db} i b (closes now id e) h = (
    if is_open_for id b then Offers.as_cancelled now b else b,
    ap (C.bookings.find_unique i) e
        ∙ lawful.bookings.find_unique-update_many (is_open_for id) (Offers.as_cancelled now)
            db.bookings i (λ x. refl)
        ∙ ap (changed_if (is_open_for id) (Offers.as_cancelled now)) h
        ∙ ground arith,
    lost now id b (is_open_for id b) refl,
  )
  Effect-Row i b (changed ch) h = Row_of_Changes _ _ i b ch h
  Effect-Row {db} i b (created now command made cr) h = (
    b,
    cr.others i (λ same.
          none_not_some
            (sym (subst (λ j. C.bookings.find_unique j db.bookings ≡ none) same cr.fresh) ∙ h))
        ∙ h,
    kept,
  )
