-- ===== src/Service.antt =====
-- src/modules/professional/core/entities/service-offering.entity.ts: a service and its travel
-- fees by commune. Prices and durations are whole numbers, signed because the code tests their
-- sign; dates are milliseconds, ids are numbers.
pub mod Laws
mod Tests
use api_v.Base.{
  ℕ, Bool, true, false, not, ◌&&◌, ◌||◌, Option, none, some, is_some, get_or_else, List, [],
  if◌then◌else◌, any, find?, replace_first, push, ℤ, pos, ◌+ℤ◌, ltb_ℤ, leb_ℤ, Text, same, is_empty,
  trim, Result, ok, bad_request, throw_if, ◌>>=◌, ◌>>◌,
}

-- `CommuneFeeVO`
pub record CommuneFee : Type 0 where
  pub commune : Text
  pub travel_fee : ℤ
  pub is_available : Bool

pub record ServiceOffering : Type 0 where
  pub id : ℕ
  pub professional_id : ℕ
  pub name : Text
  pub description : Option Text
  pub image_url : Option Text
  pub duration_min : ℤ
  pub base_price : ℤ
  pub category : Text
  pub is_active : Bool
  pub commune_fees : List CommuneFee
  pub created_at : ℕ
  pub updated_at : ℕ
  pub deleted_at : Option ℕ

-- `!text || text.trim().length === 0`
abbrev pub is_blank : Text → Bool
is_blank t = is_empty t || is_empty (trim t)

-- `CommuneFeeVO.create`
unfoldable pub create_fee : Text → ℤ → Option Bool → Result CommuneFee
create_fee commune travel_fee is_available = do
  throw_if (is_blank commune) (bad_request "Commune name is required")
  throw_if (ltb_ℤ travel_fee (pos 0)) (bad_request "Travel fee cannot be negative")
  ok (record {
    commune = commune;
    travel_fee = travel_fee;
    is_available = get_or_else is_available true;
  })

unfoldable pub calculate_total_price : CommuneFee → ℤ → ℤ
calculate_total_price fee base_price = base_price +ℤ fee.travel_fee

-- The argument of `ServiceOfferingEntity.create`.
pub record CreateProps : Type 0 where
  pub id : ℕ
  pub professional_id : ℕ
  pub name : Text
  pub description : Option Text
  pub duration_min : ℤ
  pub base_price : ℤ
  pub category : Text

unfoldable pub create : ℕ → CreateProps → Result ServiceOffering
create now props = do
  throw_if (is_blank props.name) (bad_request "Service name is required")
  throw_if (leb_ℤ props.duration_min (pos 0)) (bad_request "Duration must be greater than 0")
  throw_if (ltb_ℤ props.base_price (pos 0)) (bad_request "Price cannot be negative")
  ok (record {
    id = props.id;
    professional_id = props.professional_id;
    name = props.name;
    description = props.description;
    image_url = none;
    duration_min = props.duration_min;
    base_price = props.base_price;
    category = props.category;
    is_active = true;
    commune_fees = [];
    created_at = now;
    updated_at = now;
    deleted_at = none;
  })

unfoldable pub set_image : ℕ → Text → ServiceOffering → ServiceOffering
set_image now url s = record s { image_url = some url; updated_at = now }

unfoldable pub clear_image : ℕ → ServiceOffering → ServiceOffering
clear_image now s = record s { image_url = none; updated_at = now }

-- `(cf) => cf.commune === commune`
abbrev pub is_for : Text → CommuneFee → Bool
is_for commune fee = same fee.commune commune

-- `setCommeFee`: both branches build the fee first; the index of the found fee is its position.
unfoldable pub set_commune_fee : ℕ → Text → ℤ → ServiceOffering → Result ServiceOffering
set_commune_fee now commune travel_fee s = do
  fee ← create_fee commune travel_fee none
  ok (record s {
    commune_fees = elim (find? (is_for commune) s.commune_fees) [
      | some _ ↦ replace_first (is_for commune) (λ _. fee) s.commune_fees
      | none ↦ push fee s.commune_fees
    ];
    updated_at = now;
  })

abbrev pub price_with : ℤ → Option CommuneFee → ℤ
price_with base_price none = base_price
price_with base_price (some fee) = calculate_total_price fee base_price

unfoldable pub get_price_for_commune : Text → ServiceOffering → ℤ
get_price_for_commune commune s = price_with s.base_price (find? (is_for commune) s.commune_fees)

unfoldable pub deactivate : ℕ → ServiceOffering → ServiceOffering
deactivate now s = record s { is_active = false; updated_at = now }

unfoldable pub activate : ℕ → ServiceOffering → ServiceOffering
activate now s = record s { is_active = true; updated_at = now }

unfoldable pub is_available : ServiceOffering → Bool
is_available s = s.is_active && not (is_some s.deleted_at)
