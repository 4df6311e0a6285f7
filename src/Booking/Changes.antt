-- ===== src/Booking/Changes.antt =====
-- What the handlers do to the table of bookings: each one that returns edits one live row, and the
-- edit is one of those listed here, with what the handler tested before.
use api_v.Base.{ℕ, ◌≡◌, refl, Bool, true, false, Option, none, some, Text, ok, given, subst, arith}
use api_v.Booking.{
  Client, Store, IsLawfulClient, Booking, is_pending, is_confirmed, is_request_pending,
}
use api_v.Offers
use api_v.Offers.{is_open_for}
use api_v.Booking.Creation.{asked, request_cancellation}
use api_v.Booking.Decisions.{
  Confirmed, counted, is_cancellable, as_confirmed, as_rejected, as_completed, as_cancelled,
  as_approved, as_refused, as_no_show, confirm, reject, complete, cancel, approve_cancellation,
  reject_cancellation, mark_no_show,
}

-- The edits of a row.
pub data Edit (b : Booking) : Booking → Type 0 where
  asks :
      (now : ℕ) (reason : Option Text)
      → is_confirmed b.status ≡ true
      → is_request_pending b.cancellation_request_status ≡ false
      → Edit b (asked now reason b)
  confirms : (now : ℕ) → is_pending b.status ≡ true → Edit b (as_confirmed now b)
  rejects :
      (now : ℕ) (reason : Option Text)
      → is_pending b.status ≡ true
      → Edit b (as_rejected now reason b)
  completes : is_confirmed b.status ≡ true → Edit b (as_completed b)
  cancels :
      (now : ℕ) (reason : Option Text)
      → is_cancellable b ≡ true
      → Edit b (as_cancelled now reason b)
  approves :
      (now : ℕ)
      → is_confirmed b.status ≡ true
      → is_request_pending b.cancellation_request_status ≡ true
      → Edit b (as_approved now b)
  refuses :
      (now : ℕ) (reason : Option Text)
      → is_confirmed b.status ≡ true
      → is_request_pending b.cancellation_request_status ≡ true
      → Edit b (as_refused now reason b)
  misses : is_confirmed b.status ≡ true → Edit b (as_no_show b)
  loses : (now id : ℕ) → is_open_for id b ≡ true → Edit b (Offers.as_cancelled now b)

pub record Changes (C : Client) (db after : Store C) : Type 0 where
  pub row : Booking
  pub change : Booking → Booking
  pub stored : C.bookings.find_unique row.id db.bookings ≡ some row
  pub live : row.deleted_at ≡ none
  pub edit : Edit row (change row)
  pub same_id : (change row).id ≡ row.id
  pub written : after.bookings ≡ C.bookings.update row.id change db.bookings
  pub services : after.services ≡ db.services
  pub availabilities : after.availabilities ≡ db.availabilities

module _ (C : Client) (lawful : IsLawfulClient C) (db : Store C) where
  edits :
      (p : Booking → Bool) (b : Booking) (f : Booking → Booking)
      → C.bookings.find_first p db.bookings ≡ some b
      → (p b ≡ true → b.deleted_at ≡ none)
      → Edit b (f b)
      → (f b).id ≡ b.id
      → (ps : C.professionals.State)
      → Changes C db
          (record db { bookings = C.bookings.update b.id f db.bookings; professionals = ps })
  edits p b f found d e k ps =
      let (t, u) = lawful.bookings.find_first_some p db.bookings b found in
      record {
        row = b;
        change = f;
        stored = u;
        live = d t;
        edit = e;
        same_id = k;
        written = refl;
        services = refl;
        availabilities = refl;
      }

  pub reject-Changes :
      (now booking_id professional_id : ℕ) (reason : Option Text) {after : Store C}
      → reject C now booking_id professional_id reason db ≡ ok after
      → Changes C db after
  unfolding reject
  reject-Changes now booking_id professional_id reason h =
      let (b, found, k) = given _ _ _ h in
      subst (Changes C db) (ground arith) (
        edits _ b (as_rejected now reason) found (λ t. ground arith)
          (rejects now reason (ground arith)) refl db.professionals)

  pub request_cancellation-Changes :
      (now booking_id client_id : ℕ) (reason : Option Text) {answer : Booking} {after : Store C}
      → request_cancellation C now booking_id client_id reason db ≡ ok (answer, after)
      → Changes C db after
  unfolding request_cancellation
  request_cancellation-Changes now booking_id client_id reason h =
      let (b, found, k) = given _ _ _ h in
      subst (Changes C db) (ground arith) (
        edits _ b (asked now reason) found (λ t. ground arith)
          (asks now reason (ground arith) (ground arith)) refl db.professionals)

  pub confirm-Changes :
      (now booking_id professional_id : ℕ) {answer : Confirmed} {after : Store C}
      → confirm C now booking_id professional_id db ≡ ok (answer, after)
      → Changes C db after
  unfolding confirm
  confirm-Changes now booking_id professional_id h =
      let (b, found, k) = given _ _ _ h in
      subst (Changes C db) (ground arith) (
        edits _ b (as_confirmed now) found (λ t. ground arith) (confirms now (ground arith)) refl
          (C.professionals.update professional_id counted db.professionals))

  pub complete-Changes :
      (booking_id professional_id : ℕ) {after : Store C}
      → complete C booking_id professional_id db ≡ ok after
      → Changes C db after
  unfolding complete
  complete-Changes booking_id professional_id h =
      let (b, found, k) = given _ _ _ h in
      subst (Changes C db) (ground arith) (
        edits _ b (as_completed) found (λ t. ground arith) (completes (ground arith)) refl
          db.professionals)

  pub cancel-Changes :
      (now booking_id user_id : ℕ) (reason : Option Text) {after : Store C}
      → cancel C now booking_id user_id reason db ≡ ok after
      → Changes C db after
  unfolding cancel
  cancel-Changes now booking_id user_id reason h =
      let (b, found, k) = given _ _ _ h in
      subst (Changes C db) (ground arith) (
        edits _ b (as_cancelled now reason) found (λ t. ground arith)
          (cancels now reason (ground arith)) refl db.professionals)

  pub approve_cancellation-Changes :
      (now booking_id professional_id : ℕ) {after : Store C}
      → approve_cancellation C now booking_id professional_id db ≡ ok after
      → Changes C db after
  unfolding approve_cancellation
  approve_cancellation-Changes now booking_id professional_id h =
      let (b, found, k) = given _ _ _ h in
      subst (Changes C db) (ground arith) (
        edits _ b (as_approved now) found (λ t. ground arith)
          (approves now (ground arith) (ground arith)) refl db.professionals)

  pub reject_cancellation-Changes :
      (now booking_id professional_id : ℕ) (reason : Option Text) {after : Store C}
      → reject_cancellation C now booking_id professional_id reason db ≡ ok after
      → Changes C db after
  unfolding reject_cancellation
  reject_cancellation-Changes now booking_id professional_id reason h =
      let (b, found, k) = given _ _ _ h in
      subst (Changes C db) (ground arith) (
        edits _ b (as_refused now reason) found (λ t. ground arith)
          (refuses now reason (ground arith) (ground arith)) refl db.professionals)

  pub mark_no_show-Changes :
      (booking_id professional_id : ℕ) {after : Store C}
      → mark_no_show C booking_id professional_id db ≡ ok after
      → Changes C db after
  unfolding mark_no_show
  mark_no_show-Changes booking_id professional_id h =
      let (b, found, k) = given _ _ _ h in
      subst (Changes C db) (ground arith) (
        edits _ b (as_no_show) found (λ t. ground arith) (misses (ground arith)) refl
          db.professionals)
