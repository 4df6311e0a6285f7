-- ===== src/Offers/Tests.antt =====
-- The commands on services at an account with one service and two bookings, and the theorems there.
use api_v.Base.{
  ◌≡◌, ◌↔◌, refl, true, false, none, some, [], ◌∷◌, pos, codes, trim, same, ok, err, bad_request,
}
use api_v.Database.{Table}
use api_v.Database.Memory.{memory, memory-IsLawful}
use api_v.Booking.{Booking, pending, request_none}
use api_v.Service.{deactivate, is_available}
use api_v.Professional.{Professional}
use api_v.Professional.Services.{get_service, get_active_services}
use api_v.Professional.Tests.{listed, cut_hair}
use api_v.Catalogue.{Client, Store}
use api_v.Catalogue.Commands.{new_category}
use api_v.Offers.{
  Edit, is_eligible, refresh, with_service, edited, is_open_for, as_cancelled, deactivate_service,
  update,
}
use api_v.Offers.Eligibility.{IsEligible, IsOver, refresh_iff}
use api_v.Offers.Deactivation.{IsDeactivated, deactivate_service-IsDeactivated}
use api_v.Offers.Soundness.{AllSound, Reach-AllSound}
use api_v.Offers.Steps.{step_update, here, next}

abbrev complete : Professional
complete = record listed {
  main_categories = codes "Coiffure" ∷ [];
  bookings_paused_until = some 40;
}

abbrev bookings : Table Booking
bookings = memory (λ b. b.id)

abbrev asked : Booking
asked = record {
  id = 0;
  client_id = 1;
  professional_id = 9;
  service_id = 31;
  status = pending;
  scheduled_at = 900;
  duration_min = 30;
  total_price = 3000;
  travel_fee = 0;
  commune = codes "Cocody";
  address = none;
  client_notes = none;
  confirmed_at = none;
  cancelled_at = none;
  cancellation_note = none;
  cancellation_request_status = request_none;
  cancellation_requested_at = none;
  cancellation_reviewed_at = none;
  cancellation_request_reason = none;
  booking_services = [];
  deleted_at = none;
}

abbrev before : bookings.State
before = record { size = 1; slot = λ i. some asked }

commands : Unit {0}
unfolding refresh is_eligible get_active_services is_available deactivate_service update get_service
    deactivate trim same
commands = tt

-- The pause lasts: listed, but no bookings.
abbrev refreshed : Professional
refreshed = record complete {
  is_listing_active = true;
  is_accepting_bookings = false;
  updated_at = 20;
}

refresh-paused : refresh 20 (some (some (codes "Awa"))) complete ≡ refreshed
unfolding commands
refresh-paused = refl

refresh_iff_example :
    (((refresh 20 (some (some (codes "Awa"))) complete).is_listing_active ≡ true)
      ↔ IsEligible (some (codes "Awa")) complete)
    × (((refresh 20 (some (some (codes "Awa"))) complete).is_accepting_bookings ≡ true)
        ↔ (IsEligible (some (codes "Awa")) complete × IsOver 20 (some 40)))
refresh_iff_example = refresh_iff 20 (some (codes "Awa")) complete refl

-- Without its one service the account is no longer listed.
abbrev closed : Professional
closed = record complete {
  services = record cut_hair { is_active = false; updated_at = 20 } ∷ [];
  is_listing_active = false;
  is_accepting_bookings = false;
  updated_at = 20;
}

abbrev after : bookings.State
after = bookings.update_many (is_open_for 31) (as_cancelled 20) before

deactivate_service-hair :
    deactivate_service bookings 20 (some (some (codes "Awa"))) 31 (some complete) before
    ≡ ok (closed, after)
unfolding commands
deactivate_service-hair = refl

deactivate_service-IsDeactivated_example :
    IsDeactivated bookings 20 31 (some complete) before closed after
deactivate_service-IsDeactivated_example =
    deactivate_service-IsDeactivated bookings (memory-IsLawful (λ b. b.id)) 20
      (some (some (codes "Awa"))) 31 (some complete) before closed after deactivate_service-hair

abbrev server : Client
server = record {
  categories = memory (λ c. c.id);
  requests = memory (λ r. r.id);
  offers = memory (λ o. o.id);
  owners = memory (λ o. o.id);
  same_name = same;
  nfd = λ text. text;
  lower = λ text. text;
}

abbrev database : Store server
database = record {
  categories = record {
    size = 1;
    slot = λ i. some (new_category (codes "Coiffure") (codes "coiffure") none 0);
  };
  requests = record { size = 0; slot = λ i. none };
  offers = record { size = 0; slot = λ i. none };
  owners = record { size = 0; slot = λ i. none };
}

abbrev longer : Edit
longer = record {
  name = none;
  description = none;
  duration_min = some (pos 45);
  base_price = none;
  category = some (codes " Coiffure ");
  image_url = none;
}

abbrev extended : Professional
extended = with_service 31 (edited 10 longer (codes "Coiffure")) complete

update-longer : update server 10 (some 2) 31 longer (some complete) database ≡ ok extended
unfolding commands
update-longer = refl

update-endless :
    update server 10
      (some 2)
      31
      (record longer { duration_min = some (pos 0) })
      (some complete)
      database
    ≡ err (bad_request "Duration must be greater than 0")
unfolding commands
update-endless = refl

Reach-AllSound_example : AllSound extended
Reach-AllSound_example =
    Reach-AllSound server bookings
      (next here (step_update 10 (some 2) 31 longer database extended update-longer))
      (record { duration = refl; price = refl }, tt)
