-- ===== src/Booking/Lifecycle/Forward.antt =====
-- The order of the statuses of a booking, and the parts of its row that were agreed on.
use api_v.Base.{
  ℕ, ◌≡◌, refl, sym, ap, ◌∙◌, Bool, true, false, Option, some, List, Text, true_not_false, arith,
}
use api_v.Booking.{
  Client, Store, IsLawfulClient, Booking, BookingLine, BookingStatus, pending, confirmed, rejected,
  cancelled, completed, no_show, is_terminal,
}
use api_v.Booking.Changes.{
  Edit, loses, asks, confirms, rejects, completes, cancels, approves, refuses, misses,
}
use api_v.Booking.Lifecycle.{Reach, here, next, Row, kept, edited, Step-Effect, Effect-Row}

-- Which status may follow which, at once or later.
abbrev pub leads_to : BookingStatus → BookingStatus → Bool
leads_to pending _ = true
leads_to confirmed confirmed = true
leads_to confirmed cancelled = true
leads_to confirmed completed = true
leads_to confirmed no_show = true
leads_to confirmed _ = false
leads_to rejected rejected = true
leads_to rejected _ = false
leads_to cancelled cancelled = true
leads_to cancelled _ = false
leads_to completed completed = true
leads_to completed _ = false
leads_to no_show no_show = true
leads_to no_show _ = false

-- What the client and the professional agreed on: the parts of a row that no handler writes again.
pub record Deal : Type 0 where
  pub id : ℕ
  pub client_id : ℕ
  pub professional_id : ℕ
  pub service_id : ℕ
  pub scheduled_at : ℕ
  pub duration_min : ℕ
  pub total_price : ℕ
  pub travel_fee : ℕ
  pub commune : Text
  pub booking_services : List BookingLine
  pub deleted_at : Option ℕ

abbrev pub deal_of : Booking → Deal
deal_of b = record {
  id = b.id;
  client_id = b.client_id;
  professional_id = b.professional_id;
  service_id = b.service_id;
  scheduled_at = b.scheduled_at;
  duration_min = b.duration_min;
  total_price = b.total_price;
  travel_fee = b.travel_fee;
  commune = b.commune;
  booking_services = b.booking_services;
  deleted_at = b.deleted_at;
}

-- A later row of a booking.
pub record Continues (b c : Booking) : Type 0 where
  pub forward : leads_to b.status c.status ≡ true
  pub agreed : deal_of c ≡ deal_of b

leads_to_self : (s : BookingStatus) → leads_to s s ≡ true
leads_to_self pending = refl
leads_to_self confirmed = refl
leads_to_self rejected = refl
leads_to_self cancelled = refl
leads_to_self completed = refl
leads_to_self no_show = refl

leads_to_trans :
    (r s t : BookingStatus) → leads_to r s ≡ true → leads_to s t ≡ true → leads_to r t ≡ true
leads_to_trans r s t h k = ground arith

Edit-leads_to : {b c : Booking} → Edit b c → leads_to b.status c.status ≡ true
Edit-leads_to (asks now reason s r) = ground arith
Edit-leads_to (confirms now s) = ground arith
Edit-leads_to (rejects now reason s) = ground arith
Edit-leads_to (completes s) = ground arith
Edit-leads_to (cancels now reason s) = ground arith
Edit-leads_to (approves now s r) = ground arith
Edit-leads_to (refuses now reason s r) = ground arith
Edit-leads_to (misses s) = ground arith
Edit-leads_to (loses now id e) = ground arith

Edit-deal_of : {b c : Booking} → Edit b c → deal_of c ≡ deal_of b
Edit-deal_of (asks now reason s r) = refl
Edit-deal_of (confirms now s) = refl
Edit-deal_of (rejects now reason s) = refl
Edit-deal_of (completes s) = refl
Edit-deal_of (cancels now reason s) = refl
Edit-deal_of (approves now s r) = refl
Edit-deal_of (refuses now reason s r) = refl
Edit-deal_of (misses s) = refl
Edit-deal_of (loses now id e) = refl

Row-Continues : {b c : Booking} → Row b c → Continues b c
Row-Continues {b} kept = record { forward = leads_to_self b.status; agreed = refl }
Row-Continues (edited e) = record { forward = Edit-leads_to e; agreed = Edit-deal_of e }

not_terminal : {b c : Booking} → Edit b c → is_terminal b.status ≡ false
not_terminal (asks now reason s r) = ground arith
not_terminal (confirms now s) = ground arith
not_terminal (rejects now reason s) = ground arith
not_terminal (completes s) = ground arith
not_terminal (cancels now reason s) = ground arith
not_terminal (approves now s r) = ground arith
not_terminal (refuses now reason s r) = ground arith
not_terminal (misses s) = ground arith
not_terminal (loses now id e) = ground arith

Row-is_terminal : {b c : Booking} → Row b c → is_terminal b.status ≡ true → c ≡ b
Row-is_terminal kept t = refl
Row-is_terminal (edited e) t = absurd (true_not_false (sym t ∙ not_terminal e))

module _ (C : Client) (lawful : IsLawfulClient C) where
  -- Whatever calls follow of the clients and the professionals on bookings, or of a professional that
  -- deactivates a service, a booking stays in the table; its parties, services, date, length and
  -- price are the ones it had; and its status only goes forward: from pending to any, from
  -- confirmed to completed, cancelled or no-show, and from a final one nowhere.
  pub Reach-Continues :
      (db after : Store C) (i : ℕ) (b : Booking)
      → Reach C db after
      → C.bookings.find_unique i db.bookings ≡ some b
      → (c : Booking) × (C.bookings.find_unique i after.bookings ≡ some c) × Continues b c
  Reach-Continues db after i b here h = (b, h, Row-Continues kept)
  Reach-Continues db after i b (next {mid} r st) h =
      let (m, at, k) = Reach-Continues db mid i b r h in
      let (c, there, row) = Effect-Row C lawful i m (Step-Effect C lawful st) at in
      let last = Row-Continues row in
      (
        c,
        there,
        record {
          forward = leads_to_trans b.status m.status c.status k.forward last.forward;
          agreed = last.agreed ∙ k.agreed;
        },
      )

  -- A booking that is completed, rejected, cancelled or missed keeps its whole row for ever: no call
  -- of the handlers of bookings, and no deactivation of a service, that returns writes to it.
  pub closed_stays :
      (db after : Store C) (i : ℕ) (b : Booking)
      → Reach C db after
      → C.bookings.find_unique i db.bookings ≡ some b
      → is_terminal b.status ≡ true
      → C.bookings.find_unique i after.bookings ≡ some b
  closed_stays db after i b here h t = h
  closed_stays db after i b (next {mid} r st) h t =
      let (c, there, row) =
        Effect-Row C lawful i b (Step-Effect C lawful st) (closed_stays db mid i b r h t) in
      there ∙ ap some (Row-is_terminal row t)
