-- ===== src/Booking/Pricing.antt =====
-- The parts of the creation of a booking that compute its price, its length and its lines.
use api_v.Base.{
  ℕ, suc, ◌+◌, Bool, not, ◌&&◌, Option, none, some, is_some, or_else, List, [], ◌∷◌, ◌==◌, any,
  find?, filter, Text, same, Result, ok, bad_request, internal, required, ◌>>=◌,
}
use api_v.Booking.{FeeRow, ServiceRow, BookingLine}

-- `services.reduce((sum, s) => sum + s.durationMin, 0)`
abbrev pub total_duration : List ServiceRow → ℕ
total_duration [] = 0
total_duration (s ∷ rest) = s.duration_min + total_duration rest

-- `services.reduce((sum, s) => sum + s.basePrice, 0)`
abbrev pub total_base_price : List ServiceRow → ℕ
total_base_price [] = 0
total_base_price (s ∷ rest) = s.base_price + total_base_price rest

-- `id: { in: ids }`
abbrev pub is_in : List ℕ → ℕ → Bool
is_in ids id = any (λ i. i == id) ids

-- The `where` of the query for the services.
abbrev pub is_asked : List ℕ → ℕ → ServiceRow → Bool
is_asked ids professional_id s =
    is_in ids s.id
    && s.professional_id == professional_id
    && s.is_active
    && not (is_some s.deleted_at)

-- `communeFees: { where: { deletedAt: null, isAvailable: true } }`
abbrev pub fees_of : ServiceRow → List FeeRow
fees_of s = filter (λ f. not (is_some f.deleted_at) && f.is_available) s.commune_fees

abbrev pub first_of {ℓ} : {A : Type ℓ} → List A → Option A
first_of [] = none
first_of (x ∷ _) = some x

-- `services.find((s) => s.id === serviceIds[0]) ?? services[0]`; with no service at all the next
-- line reads a field of `undefined`.
unfoldable pub primary_service : List ℕ → List ServiceRow → Result ServiceRow
primary_service [] services = required (first_of services) (internal "TypeError")
primary_service (i ∷ _) services =
    required (or_else (find? (λ s. s.id == i) services) (first_of services)) (internal "TypeError")

abbrev pub fee_among : List FeeRow → Text → Result ℕ
fee_among [] commune = ok 0
fee_among (f ∷ fees) commune = do
  fee ←
      required (find? (λ g. same g.commune commune) (f ∷ fees))
        (bad_request "Ce professionnel n'est pas disponible dans la commune")
  ok fee.travel_fee

-- The fee of the commune; a service without fees is offered everywhere and costs nothing more.
unfoldable pub travel_fee_for : ServiceRow → Text → Result ℕ
travel_fee_for primary commune = fee_among (fees_of primary) commune

-- `serviceIds.map((id, index) => …)`, from an index on; an id with no service reads a field of
-- `undefined`.
unfoldable pub lines_from : ℕ → List ℕ → List ServiceRow → Result (List BookingLine)
lines_from index [] services = ok []
lines_from index (id ∷ ids) services = do
  s ← required (find? (λ s. s.id == id) services) (internal "TypeError")
  rest ← lines_from (suc index) ids services
  ok (
      record {
        service_id = id;
        duration_min = s.duration_min;
        base_price = s.base_price;
        order = index;
      }
      ∷ rest)
