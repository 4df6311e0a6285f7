-- ===== src/Offers/Steps.antt =====
-- The commands on the services of a professional as steps of the aggregate.
use api_v.Base.{ℕ, ◌≡◌, Option, some, ℤ, Text, ok}
use api_v.Database.{Table}
use api_v.Booking.{Booking}
use api_v.Service.{CreateProps}
use api_v.Professional.{Professional}
use api_v.Catalogue.{Client, Store}
use api_v.Offers.{
  Edit, delete_service, set_fee, activate_service, remove_service_image, deactivate_service, add,
  update,
}

-- A command on the services of the professional that was found, and what it stores.
pub data Step (C : Client) (T : Table Booking) (p : Professional) : Professional → Type 0 where
  step_add :
      (now : ℕ) (user : Option (Option Text)) (props : CreateProps) (image_url : Option Text)
      (db : Store C) (after : Professional)
      → add C now user props image_url (some p) db ≡ ok after
      → Step C T p after
  step_update :
      (now : ℕ) (requester : Option ℕ) (id : ℕ) (e : Edit) (db : Store C) (after : Professional)
      → update C now requester id e (some p) db ≡ ok after
      → Step C T p after
  step_delete :
      (now : ℕ) (user : Option (Option Text)) (id : ℕ) (after : Professional)
      → delete_service now user id (some p) ≡ ok after
      → Step C T p after
  step_fee :
      (now id : ℕ) (commune : Text) (travel_fee : ℤ) (after : Professional)
      → set_fee now id commune travel_fee (some p) ≡ ok after
      → Step C T p after
  step_activate :
      (now : ℕ) (user : Option (Option Text)) (id : ℕ) (after : Professional)
      → activate_service now user id (some p) ≡ ok after
      → Step C T p after
  step_deactivate :
      (now : ℕ) (user : Option (Option Text)) (id : ℕ) (bookings : T.State) (after : Professional)
      (bookings_after : T.State)
      → deactivate_service T now user id (some p) bookings ≡ ok (after, bookings_after)
      → Step C T p after
  step_image :
      (now id : ℕ) (after : Professional)
      → remove_service_image now id (some p) ≡ ok after
      → Step C T p after

pub data Reach (C : Client) (T : Table Booking) (p : Professional) : Professional → Type 0 where
  here : Reach C T p p
  next : {mid after : Professional} → Reach C T p mid → Step C T mid after → Reach C T p after
