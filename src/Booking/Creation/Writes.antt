-- ===== src/Booking/Creation/Writes.antt =====
-- What a creation writes: one new row, pending, at the price of its services and of the travel.
use api_v.Base.{ℕ, ◌+◌, ◌≡◌, ◌≢◌, ◌∙◌, ap, refl, subst, none, some, ok, first_returns, ok_injective}
use api_v.Database.{total}
use api_v.Booking.{pending, request_none, Client, Store, IsLawfulClient}
use api_v.Booking.Creation.{CreateCommand, Created, Draft, new_row, prepare, create_booking}
use api_v.Booking.Creation.Laws.{durations, prices, IsPrepared, prepare-IsPrepared}

-- The answer and the table after a creation that returned.
pub record Creates (C : Client) (now : ℕ) (command : CreateCommand) (db : Store C) (made : Created)
    (after : Store C) : Type 0 where
  pub draft : Draft
  pub prepared : IsPrepared C now command db draft
  pub row : made.booking ≡ record {
    id = made.booking.id;
    client_id = command.client_id;
    professional_id = command.professional_id;
    service_id = draft.primary_id;
    status = pending;
    scheduled_at = draft.scheduled_at;
    duration_min = total (λ s. s.duration_min) draft.services;
    total_price = total (λ s. s.base_price) draft.services + draft.travel_fee;
    travel_fee = draft.travel_fee;
    commune = command.commune;
    address = command.address;
    client_notes = command.client_notes;
    confirmed_at = none;
    cancelled_at = none;
    cancellation_note = none;
    cancellation_request_status = request_none;
    cancellation_requested_at = none;
    cancellation_reviewed_at = none;
    cancellation_request_reason = none;
    booking_services = draft.lines;
    deleted_at = none;
  }
  pub fresh : C.bookings.find_unique made.booking.id db.bookings ≡ none
  pub stored : C.bookings.find_unique made.booking.id after.bookings ≡ some made.booking
  pub others :
      (j : ℕ)
      → made.booking.id ≢ j
      → C.bookings.find_unique j after.bookings ≡ C.bookings.find_unique j db.bookings
  pub professionals : after.professionals ≡ db.professionals

module _ (C : Client) (lawful : IsLawfulClient C) (db : Store C) where
  -- A creation that returns stores one row under a new key: pending, without a request of
  -- cancellation, for the client and the professional of the command, at the sum of the prices of
  -- the services and of the fee of the commune, and as long as its services together; every other
  -- booking is as it was, and the checks of the professional, of the services, of the date and of
  -- the hours have passed.
  pub create_booking-Creates :
      (now : ℕ) (command : CreateCommand) (made : Created) (after : Store C)
      → create_booking C now command db ≡ ok (made, after)
      → Creates C now command db made after
  unfolding create_booking
  create_booking-Creates now command made after h =
      let (draft, p, w) = first_returns (prepare C now command db) _ h in
      let (same, new, kept) =
        lawful.bookings.create_row (new_row command draft) db.bookings (λ i. refl) in
      let made_id = (C.bookings.create (new_row command draft) db.bookings).0.id in
      subst (λ o. Creates C now command db o.0 o.1) (ok_injective w)
        (record {
          draft = draft;
          prepared = prepare-IsPrepared C lawful db now command p;
          row =
              same
              ∙ ap (λ n. record (new_row command draft made_id) { duration_min = n })
                  (durations draft.services)
              ∙ ap
                  (λ n. record (new_row command draft made_id) {
                    duration_min = total (λ s. s.duration_min) draft.services;
                    total_price = n + draft.travel_fee;
                  })
                  (prices draft.services);
          fresh = new;
          stored = kept;
          others =
              λ j n. lawful.bookings.create_ne (new_row command draft) db.bookings j (λ i. refl) n;
          professionals = refl;
        })
