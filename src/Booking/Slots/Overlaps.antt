-- ===== src/Booking/Slots/Overlaps.antt =====
-- Which bookings are reported as overlapping, exactly.
use api_v.Base.{ℕ, ◌+◌, ◌-◌, ◌*◌, ◌≤◌, ◌<◌, ◌≡◌, ◌↔◌, true, ◌&&◌, some, any, ◌==◌, leb, ltb, arith}
use api_v.Database.Queries.{among_iff}
use api_v.Booking.{Client, Store, IsLawfulClient, Booking}
use api_v.Booking.Slots.{is_candidate, find_overlapping}

module _ (C : Client) (lawful : IsLawfulClient C) (db : Store C) where
  -- A booking is reported exactly where it is in the table as a confirmed, live booking of the
  -- professional, begins before the new one ends, ends with the travel buffer after the new one
  -- begins, and begins no earlier than the new one's own length and buffer before the new one. The
  -- last condition hides a longer booking that began earlier.
  pub find_overlapping_iff :
      (i professional_id start duration buffer : ℕ)
      → (any (λ b. b.id == i) (find_overlapping C db professional_id start duration buffer) ≡ true)
        ↔ ((b : Booking) × (C.bookings.find_unique i db.bookings ≡ some b)
            × (is_candidate professional_id b ≡ true)
            × (start < b.scheduled_at + (b.duration_min + buffer) * 60000)
            × (b.scheduled_at < start + duration * 60000)
            × (start ≤ b.scheduled_at + (duration + buffer) * 60000))
  unfolding find_overlapping
  find_overlapping_iff i professional_id start duration buffer =
      let end = start + duration * 60000 in
      let (to, from) =
        among_iff (λ b. b.id) C.bookings lawful.bookings i
          (λ b.
            is_candidate professional_id b
            && leb (start - (duration + buffer) * 60000) b.scheduled_at
            && leb b.scheduled_at end)
          (λ b.
            ltb start (b.scheduled_at + (b.duration_min + buffer) * 60000)
            && ltb b.scheduled_at end)
          db.bookings in
      (
        (λ h.
            let (b, u, p, q) = to h in
            (b, u, ground arith, ground arith, ground arith, ground arith)),
        λ (b, u, c, l, m, n). from (b, u, ground arith, ground arith),
      )
