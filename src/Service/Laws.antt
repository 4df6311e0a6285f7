-- ===== src/Service/Laws.antt =====
-- What a service's prices are after its fees have been set.
use api_v.Base.{
  ℕ, ◌≡◌, refl, true, none, some, List, [], ◌∷◌, arith, if◌then◌else◌, Option-cases, inl, inr,
  find?, replace_first, push, count, count-push_unique, Every-find, +ℤ_parts, find_of_any, Every,
  Every-push, Every-replace_first, count-replace_first, ◌≤◌, ℤ, pos, ◌+ℤ◌, ◌≤ℤ◌, Text, same,
  same_iff, ok,
}
use api_v.Service.{
  CommuneFee, ServiceOffering, create_fee, calculate_total_price, CreateProps, create, is_for,
  set_commune_fee, get_price_for_commune, is_available,
}

find-push :
    (c d : Text) (fee : CommuneFee) (fees : List CommuneFee)
    → fee.commune ≡ c
    → find? (is_for c) fees ≡ none
    → find? (is_for d) (push fee fees) ≡ (if same c d then some fee else find? (is_for d) fees)
find-push c d fee [] e h = ground arith
find-push c d fee (x ∷ fees) e h =
    ground
      (arith, find-push c d fee fees e, same_iff x.commune c, same_iff x.commune d, same_iff c d)

find-replace_first :
    (c d : Text) (fee old : CommuneFee) (fees : List CommuneFee)
    → fee.commune ≡ c
    → find? (is_for c) fees ≡ some old
    → find? (is_for d) (replace_first (is_for c) (λ _. fee) fees)
      ≡ (if same c d then some fee else find? (is_for d) fees)
find-replace_first c d fee old [] e h = cc
find-replace_first c d fee old (x ∷ fees) e h = ground (
  arith,
  find-replace_first c d fee old fees e,
  same_iff x.commune c,
  same_iff x.commune d,
  same_iff c d,
)

-- The fees after a successful call, at every commune.
set_commune_fee_fees :
    (now : ℕ) (c d : Text) (fee : ℤ) (s t : ServiceOffering)
    → set_commune_fee now c fee s ≡ ok t
    → (t.base_price ≡ s.base_price)
      × (find? (is_for d) t.commune_fees ≡ (
          if same c d
          then some (record { commune = c; travel_fee = fee; is_available = true })
          else find? (is_for d) s.commune_fees))
unfolding set_commune_fee create_fee
set_commune_fee_fees now c d fee s t h = elim (Option-cases (find? (is_for c) s.commune_fees)) [
  | inl new ↦ (
    ground arith,
    ground (
      arith,
      find-push c d (record { commune = c; travel_fee = fee; is_available = true }) s.commune_fees
          refl new,
    ),
  )
  | inr (old, found) ↦ (
    ground arith,
    ground (
      arith,
      find-replace_first c d (record { commune = c; travel_fee = fee; is_available = true }) old
          s.commune_fees refl found,
    ),
  )
]

-- Setting a fee changes the price of that commune to the base price plus the fee, whether or not
-- the commune had one, and the price of no other commune.
pub get_price_for_commune-set_commune_fee :
    (now : ℕ) (c d : Text) (fee : ℤ) (s t : ServiceOffering)
    → set_commune_fee now c fee s ≡ ok t
    → get_price_for_commune d t
      ≡ (if same c d then s.base_price +ℤ fee else get_price_for_commune d s)
unfolding get_price_for_commune calculate_total_price
get_price_for_commune-set_commune_fee now c d fee s t h =
    let (base, fees) = set_commune_fee_fees now c d fee s t h in rw (fees, base) (ground arith)

-- The well-formedness of a service: a positive duration, no negative amount, and at most one fee
-- for each commune.
pub record IsOffer (s : ServiceOffering) : Type 0 where
  pub duration_pos : pos 1 ≤ℤ s.duration_min
  pub price_nonneg : pos 0 ≤ℤ s.base_price
  pub fees_nonneg : Every (λ fee. pos 0 ≤ℤ fee.travel_fee) s.commune_fees
  pub fees_unique : (c : Text) → count (is_for c) s.commune_fees ≤ 1

-- A service that is created is well formed, and bookable.
pub create-IsOffer :
    (now : ℕ) (props : CreateProps) (s : ServiceOffering)
    → create now props ≡ ok s
    → IsOffer s × (is_available s ≡ true)
unfolding create is_available
create-IsOffer now props s h =
    let fees : s.commune_fees ≡ [] = ground arith in
    (
      record {
        duration_pos = ground arith;
        price_nonneg = ground arith;
        fees_nonneg = rw fees tt;
        fees_unique = λ c. rw fees (omega arith);
      },
      ground arith,
    )

module _ (now : ℕ) (c : Text) (amount : ℤ) where
  -- The fee that `setCommeFee` builds.
  abbrev new_fee : CommuneFee
  new_fee = record { commune = c; travel_fee = amount; is_available = true }

  count-push_new :
      (d : Text) (fees : List CommuneFee)
      → find? (is_for c) fees ≡ none
      → count (is_for d) fees ≤ 1
      → count (is_for d) (push new_fee fees) ≤ 1
  count-push_new d fees new h =
      count-push_unique (is_for d) new_fee fees h
        λ eq. find_of_any (is_for d) fees (rw ((same_iff c d).0 eq) at new)

  count-replace_fee :
      (d : Text) (fees : List CommuneFee)
      → count (is_for d) (replace_first (is_for c) (λ _. new_fee) fees) ≡ count (is_for d) fees
  count-replace_fee d fees =
      count-replace_first (is_for d) (is_for c) (λ _. new_fee) fees
        λ fee eq. rw ((same_iff fee.commune c).0 eq)

  -- Setting a fee keeps a service well formed.
  pub set_commune_fee-IsOffer :
      (s t : ServiceOffering) → IsOffer s → set_commune_fee now c amount s ≡ ok t → IsOffer t
  unfolding set_commune_fee create_fee
  set_commune_fee-IsOffer s t v h =
      let positive : pos 0 ≤ℤ amount = ground arith in
      elim (Option-cases (find? (is_for c) s.commune_fees)) [
        | inl new ↦
            let fees : t.commune_fees ≡ push new_fee s.commune_fees = ground arith in
            record {
              duration_pos = ground arith;
              price_nonneg = ground arith;
              fees_nonneg = rw fees (Every-push _ new_fee s.commune_fees v.fees_nonneg positive);
              fees_unique = λ d. rw fees (count-push_new d s.commune_fees new (v.fees_unique d));
            }
        | inr (old, found) ↦
            let fees : t.commune_fees ≡ replace_first (is_for c) (λ _. new_fee) s.commune_fees =
              ground arith in
            record {
              duration_pos = ground arith;
              price_nonneg = ground arith;
              fees_nonneg = rw fees (
                  Every-replace_first _ (is_for c) (λ _. new_fee) s.commune_fees v.fees_nonneg
                    (λ _ _ _. positive));
              fees_unique = λ d. rw (fees, count-replace_fee d s.commune_fees) (v.fees_unique d);
            }
      ]

-- The price of a well-formed service in a commune is at least its base price.
pub base_price-le-get_price_for_commune :
    (c : Text) (s : ServiceOffering) → IsOffer s → s.base_price ≤ℤ get_price_for_commune c s
unfolding get_price_for_commune calculate_total_price
base_price-le-get_price_for_commune c s v = elim (Option-cases (find? (is_for c) s.commune_fees)) [
  | inl new ↦ rw new (omega arith)
  | inr (fee, found) ↦
      let positive =
        Every-find (λ fee. pos 0 ≤ℤ fee.travel_fee) (is_for c) s.commune_fees fee v.fees_nonneg
          found in
      rw found (omega (arith, positive, +ℤ_parts s.base_price fee.travel_fee))
]
