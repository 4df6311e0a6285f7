-- ===== src/Booking/Tests.antt =====
-- The handlers on a table in memory: a booking is created, confirmed and completed, and the
-- theorems about bookings at these databases.
mod Runs
use api_v.Base.{
  ℕ, ◌≡◌, refl, true, false, none, some, List, [], ◌∷◌, ltb, ◌==◌, if◌then◌else◌, codes,
}
use api_v.Database.Memory.{Slots, memory, memory-IsLawful}
use api_v.Availability.{open_day}
use api_v.Professional.{active}
use api_v.Booking.{
  Client, Store, IsLawfulClient, Booking, ProfessionalRow, ServiceRow, HoursRow, FeeRow, pending,
  confirmed, completed, request_none,
}
use api_v.Booking.Creation.{CreateCommand, Created, Draft, new_row, written}
use api_v.Booking.Decisions.{Confirmed, as_confirmed, as_completed, counted, updated}

abbrev pub server : Client
server = record {
  bookings = memory (λ b. b.id);
  professionals = memory (λ p. p.id);
  services = memory (λ s. s.id);
  availabilities = memory (λ a. a.id);
}

pub server-IsLawfulClient : IsLawfulClient server
server-IsLawfulClient = record {
  bookings = memory-IsLawful (λ b. b.id);
  professionals = memory-IsLawful (λ p. p.id);
  services = memory-IsLawful (λ s. s.id);
  availabilities = memory-IsLawful (λ a. a.id);
}

abbrev pub awa : ProfessionalRow
awa = record {
  id = 0;
  is_verified = true;
  status = active;
  is_accepting_bookings = true;
  bookings_paused_until = some 3;
  travel_buffer_min = 15;
  booking_count = 0;
  deleted_at = none;
}

abbrev pub cocody : FeeRow
cocody = record {
  commune = codes "Cocody";
  travel_fee = 500;
  is_available = true;
  deleted_at = none;
}

abbrev pub braids : ServiceRow
braids = record {
  id = 0;
  professional_id = 0;
  duration_min = 60;
  base_price = 3000;
  is_active = true;
  commune_fees = cocody ∷ [];
  deleted_at = none;
}

-- The hours of a Monday.
abbrev pub monday : HoursRow
monday = record {
  id = 0;
  professional_id = 0;
  day_of_week = 1;
  start_time = codes "08:00";
  end_time = codes "18:00";
  break_start_time = some (codes "12:00");
  break_end_time = some (codes "13:00");
  status = open_day;
  is_active = true;
  deleted_at = none;
}

abbrev pub database : Store server
database = record {
  bookings = record { size = 0; slot = λ i. none };
  professionals = record { size = 1; slot = λ i. some awa };
  services = record { size = 1; slot = λ i. some braids };
  availabilities = record { size = 1; slot = λ i. some monday };
}

-- Nine o'clock of the first Monday after the epoch.
abbrev pub nine : ℕ
nine = 378000000

abbrev pub command : CreateCommand
command = record {
  client_id = 7;
  professional_id = 0;
  service_ids = 0 ∷ [];
  scheduled_at = some nine;
  commune = codes "Cocody";
  address = none;
  client_notes = none;
}

abbrev pub draft : Draft
draft = record {
  services = braids ∷ [];
  professional = awa;
  scheduled_at = nine;
  travel_fee = 500;
  primary_id = 0;
  lines = record { service_id = 0; duration_min = 60; base_price = 3000; order = 0 } ∷ [];
}

abbrev pub first_row : Booking
first_row = new_row command draft 0

abbrev pub made : Created
made = record { booking = first_row; has_schedule_conflict = false; overlapping_booking_ids = [] }

-- The databases after the creation, the confirmation and the completion.
abbrev pub with_booking : Store server
with_booking = (written server command draft database).1

abbrev pub with_confirmed : Store server
with_confirmed = record with_booking {
  bookings = server.bookings.update 0 (as_confirmed 6) with_booking.bookings;
  professionals = server.professionals.update 0 counted with_booking.professionals;
}

abbrev pub quiet : Confirmed
quiet = record { has_schedule_conflict = false; conflicting_booking_ids = [] }

abbrev pub confirmed_row : Booking
confirmed_row = as_confirmed 6 first_row

abbrev pub with_completed : Store server
with_completed = updated server confirmed_row as_completed with_confirmed

abbrev pub completed_row : Booking
completed_row = as_completed confirmed_row

-- The second booking of the slot, after the first is completed; the count of the professional's
-- bookings has grown.
abbrev pub draft_again : Draft
draft_again = record draft { professional = counted awa }

abbrev pub made_again : Created
made_again = (written server command draft_again with_completed).0

abbrev pub with_another : Store server
with_another = (written server command draft_again with_completed).1

-- A booking at half past nine.
abbrev pub other_row : Booking
other_row = record first_row { id = 5; scheduled_at = 379800000; duration_min = 30 }
