-- ===== src/Booking/Decisions/Confirmation.antt =====
-- What a confirmation writes, and which conflicts it reports.
use api_v.Base.{
  ℕ, suc, ◌+◌, ◌-◌, ◌*◌, ◌≤◌, ◌<◌, ◌≡◌, ◌≢◌, ◌↔◌, subst, true, not, ◌&&◌, some, is_some, any, ◌==◌,
  leb, ltb, ok, given, arith,
}
use api_v.Database.Queries.{among_iff}
use api_v.Booking.{
  Client, Store, IsLawfulClient, Booking, ProfessionalRow, pending, confirmed, is_confirmed,
}
use api_v.Booking.Slots.{is_candidate}
use api_v.Booking.Decisions.{Confirmed, as_confirmed, counted, conflicts_of, confirm}

-- The database after a confirmation that returned.
pub record Confirms (C : Client) (now booking_id professional_id : ℕ) (db after : Store C)
    : Type 0 where
  pub row : Booking
  pub stored : C.bookings.find_unique booking_id db.bookings ≡ some row
  pub was_pending : row.status ≡ pending
  pub written :
      C.bookings.find_unique booking_id after.bookings
      ≡ some (record row { status = confirmed; confirmed_at = some now })
  pub others :
      (j : ℕ)
      → booking_id ≢ j
      → C.bookings.find_unique j after.bookings ≡ C.bookings.find_unique j db.bookings
  pub count :
      (p : ProfessionalRow)
      → C.professionals.find_unique professional_id db.professionals ≡ some p
      → C.professionals.find_unique professional_id after.professionals
        ≡ some (record p { booking_count = suc p.booking_count })
  pub other_counts :
      (j : ℕ)
      → professional_id ≢ j
      → C.professionals.find_unique j after.professionals
        ≡ C.professionals.find_unique j db.professionals

module _ (C : Client) (lawful : IsLawfulClient C) (db : Store C) where
  -- The database after a confirmation of a row that was found.
  confirmed_row :
      (now booking_id professional_id : ℕ) (b : Booking)
      → C.bookings.find_unique booking_id db.bookings ≡ some b
      → b.id ≡ booking_id
      → b.status ≡ pending
      → Confirms C now booking_id professional_id db (record db {
        bookings = C.bookings.update b.id (as_confirmed now) db.bookings;
        professionals = C.professionals.update professional_id counted db.professionals;
      })
  confirmed_row now i j b u e s = rw e (record {
    row = b;
    stored = u;
    was_pending = s;
    written = lawful.bookings.find_unique-update i (as_confirmed now) db.bookings b u e;
    others = λ k n. lawful.bookings.find_unique-update_ne i k (as_confirmed now) db.bookings n;
    count = λ p h.
        lawful.professionals.find_unique-update j counted db.professionals p h
          (lawful.professionals.find_unique_key j db.professionals p h);
    other_counts = λ k n. lawful.professionals.find_unique-update_ne j k counted db.professionals n;
  })

  -- A confirmation that returns makes the pending booking of its command a confirmed one with the
  -- date of the call, leaves every other booking, and counts one booking more for the professional
  -- and for no one else.
  pub confirm-Confirms :
      (now booking_id professional_id : ℕ) (answer : Confirmed) (after : Store C)
      → confirm C now booking_id professional_id db ≡ ok (answer, after)
      → Confirms C now booking_id professional_id db after
  unfolding confirm
  confirm-Confirms now i j answer after h =
      let (b, found, k) = given _ _ _ h in
      let (t, u) = lawful.bookings.find_first_some _ _ _ found in
      subst (Confirms C now i j db) (ground arith) (
        confirmed_row now i j b
          (subst (λ m. C.bookings.find_unique m db.bookings ≡ some b) (ground arith) u)
          (ground arith) (ground arith))

  -- A confirmation reports a booking exactly where it is another confirmed, live booking of the
  -- professional in the table, begins before the one at hand ends, ends after that begins, and begins
  -- no earlier than that one's own length before it: a longer booking that began earlier is not
  -- reported, though the two overlap.
  pub conflicts_of_iff :
      (i professional_id : ℕ) (b : Booking)
      → (any (λ o. o.id == i) (conflicts_of C professional_id b db) ≡ true) ↔ (
          (o : Booking) × (C.bookings.find_unique i db.bookings ≡ some o)
          × (is_candidate professional_id o ≡ true)
          × (o.id ≢ b.id)
          × (o.scheduled_at < b.scheduled_at + b.duration_min * 60000)
          × (b.scheduled_at < o.scheduled_at + o.duration_min * 60000)
          × (b.scheduled_at ≤ o.scheduled_at + b.duration_min * 60000))
  unfolding conflicts_of
  conflicts_of_iff i professional_id b =
      let end = b.scheduled_at + b.duration_min * 60000 in
      let (to, from) =
        among_iff (λ b. b.id) C.bookings lawful.bookings i
          (λ o.
            o.professional_id == professional_id
            && not (o.id == b.id)
            && is_confirmed o.status
            && not (is_some o.deleted_at)
            && leb (b.scheduled_at - b.duration_min * 60000) o.scheduled_at
            && ltb o.scheduled_at end)
          (λ o.
            ltb o.scheduled_at end && ltb b.scheduled_at (o.scheduled_at + o.duration_min * 60000))
          db.bookings in
      (
        (λ h.
            let (o, u, p, q) = to h in
            (o, u, ground arith, ground arith, ground arith, ground arith, ground arith)),
        λ (o, u, c, n, l, m, k). from (o, u, ground arith, ground arith),
      )
