-- ===== src/Booking.antt =====
-- src/modules/client/interface/handlers/booking.handlers.ts and
-- src/modules/professional/interface/handlers/booking.handlers.ts: bookings. Here are the rows that
-- the handlers read and write. Dates are milliseconds since the epoch, never before it; prices and
-- durations are whole and not negative, as the entities check before they are stored.
pub mod Slots
pub mod Pricing
pub mod Creation
pub mod Decisions
pub mod Changes
pub mod Lifecycle
mod Tests
use api_v.Base.{ℕ, Bool, true, false, Option, List, Text}
use api_v.Database.{Table, IsLawful}
use api_v.Availability.{AvailabilityStatus}
use api_v.Professional.{ProfessionalStatus}

-- The enum `BookingStatus` of the schema.
pub data BookingStatus : Type 0 where
  pending confirmed rejected cancelled completed no_show : BookingStatus

-- The enum `BookingCancellationRequestStatus`.
pub data CancellationRequestStatus : Type 0 where
  request_none request_pending request_approved request_rejected : CancellationRequestStatus

-- A row of `BookingService`.
pub record BookingLine : Type 0 where
  pub service_id : ℕ
  pub duration_min : ℕ
  pub base_price : ℕ
  pub order : ℕ

-- A row of `Booking`, with its lines. The dates that the database keeps by itself are left out.
pub record Booking : Type 0 where
  pub id : ℕ
  pub client_id : ℕ
  pub professional_id : ℕ
  pub service_id : ℕ
  pub status : BookingStatus
  pub scheduled_at : ℕ
  pub duration_min : ℕ
  pub total_price : ℕ
  pub travel_fee : ℕ
  pub commune : Text
  pub address : Option Text
  pub client_notes : Option Text
  pub confirmed_at : Option ℕ
  pub cancelled_at : Option ℕ
  pub cancellation_note : Option Text
  pub cancellation_request_status : CancellationRequestStatus
  pub cancellation_requested_at : Option ℕ
  pub cancellation_reviewed_at : Option ℕ
  pub cancellation_request_reason : Option Text
  pub booking_services : List BookingLine
  pub deleted_at : Option ℕ

-- The columns of `Professional` that the handlers read and write.
pub record ProfessionalRow : Type 0 where
  pub id : ℕ
  pub is_verified : Bool
  pub status : ProfessionalStatus
  pub is_accepting_bookings : Bool
  pub bookings_paused_until : Option ℕ
  pub travel_buffer_min : ℕ
  pub booking_count : ℕ
  pub deleted_at : Option ℕ

-- A row of the fees of a service.
pub record FeeRow : Type 0 where
  pub commune : Text
  pub travel_fee : ℕ
  pub is_available : Bool
  pub deleted_at : Option ℕ

pub record ServiceRow : Type 0 where
  pub id : ℕ
  pub professional_id : ℕ
  pub duration_min : ℕ
  pub base_price : ℕ
  pub is_active : Bool
  pub commune_fees : List FeeRow
  pub deleted_at : Option ℕ

-- The hours of a day, as texts.
pub record HoursRow : Type 0 where
  pub id : ℕ
  pub professional_id : ℕ
  pub day_of_week : ℕ
  pub start_time : Text
  pub end_time : Text
  pub break_start_time : Option Text
  pub break_end_time : Option Text
  pub status : AvailabilityStatus
  pub is_active : Bool
  pub deleted_at : Option ℕ

-- The models of the client that the handlers call.
pub record Client : Type 1 where
  pub bookings : Table Booking
  pub professionals : Table ProfessionalRow
  pub services : Table ServiceRow
  pub availabilities : Table HoursRow

pub record Store (C : Client) : Type 0 where
  pub bookings : C.bookings.State
  pub professionals : C.professionals.State
  pub services : C.services.State
  pub availabilities : C.availabilities.State

pub record IsLawfulClient (C : Client) : Type 0 where
  pub bookings : IsLawful (λ b. b.id) C.bookings
  pub professionals : IsLawful (λ p. p.id) C.professionals
  pub services : IsLawful (λ s. s.id) C.services
  pub availabilities : IsLawful (λ a. a.id) C.availabilities

-- `booking.status === 'PENDING'`, and the same for the other states that are tested.
abbrev pub is_pending : BookingStatus → Bool
is_pending pending = true
is_pending _ = false

abbrev pub is_confirmed : BookingStatus → Bool
is_confirmed confirmed = true
is_confirmed _ = false

abbrev pub is_completed : BookingStatus → Bool
is_completed completed = true
is_completed _ = false

abbrev pub is_request_pending : CancellationRequestStatus → Bool
is_request_pending request_pending = true
is_request_pending _ = false

-- A status that no handler leaves: what the theorems say of the life of a booking.
abbrev pub is_terminal : BookingStatus → Bool
is_terminal rejected = true
is_terminal cancelled = true
is_terminal completed = true
is_terminal no_show = true
is_terminal _ = false
