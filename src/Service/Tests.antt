-- ===== src/Service/Tests.antt =====
-- Runs of a service's prices, and each theorem at a concrete service.
use api_v.Base.{
  ◌≡◌, refl, true, none, List, [], ◌∷◌, pos, negsuc, ◌+ℤ◌, same, trim, codes, ok, err, bad_request,
}
use api_v.Service.{
  CommuneFee, ServiceOffering, create_fee, calculate_total_price, CreateProps, create,
  set_commune_fee, get_price_for_commune,
}

pricing : Unit {0}
unfolding create set_commune_fee create_fee get_price_for_commune calculate_total_price trim same
    ◌+ℤ◌
pricing = tt

abbrev braids : CreateProps
braids = record {
  id = 3;
  professional_id = 9;
  name = codes "Tresses";
  description = none;
  duration_min = pos 90;
  base_price = pos 5000;
  category = codes "Coiffure";
}

abbrev offered : List CommuneFee → ServiceOffering
offered fees = record {
  id = 3;
  professional_id = 9;
  name = codes "Tresses";
  description = none;
  image_url = none;
  duration_min = pos 90;
  base_price = pos 5000;
  category = codes "Coiffure";
  is_active = true;
  commune_fees = fees;
  created_at = 8;
  updated_at = 8;
  deleted_at = none;
}

abbrev to_cocody : CommuneFee
to_cocody = record { commune = codes "Cocody"; travel_fee = pos 700; is_available = true }

create-braids : create 8 braids ≡ ok (offered [])
unfolding pricing
create-braids = refl

set_fee : set_commune_fee 8 (codes "Cocody") (pos 700) (offered []) ≡ ok (offered (to_cocody ∷ []))
unfolding pricing
set_fee = refl

negative_fee :
    set_commune_fee 8 (codes "Cocody") (negsuc 4) (offered [])
    ≡ err (bad_request "Travel fee cannot be negative")
unfolding pricing
negative_fee = refl
