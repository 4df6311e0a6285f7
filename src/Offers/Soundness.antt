-- ===== src/Offers/Soundness.antt =====
-- The durations and prices of the services over any sequence of the commands on them.
use api_v.Base.{
  ℕ, ◌≡◌, sym, ap, subst, ◌∙◌, Bool, false, not, ◌&&◌, Option, none, some, is_some, Every,
  Every-push, Every-find, Every-replace_first, find?, any, ℤ, pos, ltb_ℤ, leb_ℤ, get_or_else, Text,
  ok, not_found, bad_request, forbidden, conflict, given, passed_test, first_returns, ok_injective,
  arith,
}
use api_v.Database.{Table}
use api_v.Booking.{Booking}
use api_v.Service.{
  ServiceOffering, CreateProps, create, create_fee, is_blank, set_image, clear_image,
  set_commune_fee, activate, deactivate,
}
use api_v.Professional.{Professional}
use api_v.Professional.Services.{add_service, remove_service, get_service, has_id, is_live_named}
use api_v.Catalogue.{Client}
use api_v.Offers.{
  Edit, fails, is_other_user, edited, refresh, with_service, with_image, find_service,
  delete_service, set_fee, activate_service, remove_service_image, deactivate_service, is_open_for,
  as_cancelled, check_category, category_after, add, update,
}
use api_v.Offers.Steps.{
  Step, step_add, step_update, step_delete, step_fee, step_activate, step_deactivate, step_image,
  Reach, here, next,
}
use api_v.Offers.Deactivation.{services-refresh}

-- The duration is positive and the price is not negative.
pub record IsSound (s : ServiceOffering) : Type 0 where
  pub duration : leb_ℤ s.duration_min (pos 0) ≡ false
  pub price : ltb_ℤ s.base_price (pos 0) ≡ false

abbrev pub AllSound : Professional → Type 0
AllSound p = Every IsSound p.services

refresh-AllSound :
    (now : ℕ) (user : Option (Option Text)) (p : Professional)
    → AllSound p
    → AllSound (refresh now user p)
refresh-AllSound now user p sound = subst (Every IsSound) (sym (services-refresh now user p)) sound

-- The look-ups give the professional that was found, and a service that it has.
found :
    (id : ℕ) (p : Professional) (there : Professional × ServiceOffering)
    → find_service id (some p) ≡ ok there
    → (there.0 ≡ p) × (get_service id p ≡ some there.1)
found id p there h =
    let (s, e, h1) = given (get_service id p) (not_found "Service non trouve") _ h in
    (sym (ap (λ x. x.0) (ok_injective h1)), e ∙ ap (λ x. some x.1) (ok_injective h1))

with_service-AllSound :
    (id : ℕ) (f : ServiceOffering → ServiceOffering) (p : Professional)
    → AllSound p
    → ((s : ServiceOffering) → IsSound s → IsSound (f s))
    → AllSound (with_service id f p)
with_service-AllSound id f p sound keeps =
    Every-replace_first IsSound (λ s. has_id id s && not (is_some s.deleted_at)) f p.services sound
      (λ s _ k. keeps s k)

-- What a command on the service that was found stores.
there_sound :
    (id : ℕ) (f : ServiceOffering → ServiceOffering) (p q : Professional)
    → q ≡ p
    → AllSound p
    → ((s : ServiceOffering) → IsSound s → IsSound (f s))
    → AllSound (with_service id f q)
there_sound id f p q e sound keeps =
    with_service-AllSound id f q (subst AllSound (sym e) sound) keeps

create-IsSound :
    (now : ℕ) (props : CreateProps) (s : ServiceOffering) → create now props ≡ ok s → IsSound s
unfolding create
create-IsSound now props s h =
    let (_, h1) = passed_test (is_blank props.name) (bad_request "Service name is required") _ h in
    let (long, h2) =
      passed_test (leb_ℤ props.duration_min (pos 0)) (bad_request "Duration must be greater than 0")
        _ h1 in
    let (dear, h3) =
      passed_test (ltb_ℤ props.base_price (pos 0)) (bad_request "Price cannot be negative") _ h2 in
    subst IsSound (ok_injective h3) (record { duration = long; price = dear })

with_image-IsSound :
    (now : ℕ) (url : Option Text) (s : ServiceOffering) → IsSound s → IsSound (with_image now url s)
unfolding set_image
with_image-IsSound now none s k = k
with_image-IsSound now (some url) s k = record {
  duration = ground (arith, k.duration);
  price = ground (arith, k.price);
}

edited-IsSound :
    (now : ℕ) (e : Edit) (category : Text) (s : ServiceOffering)
    → fails (λ n. leb_ℤ n (pos 0)) e.duration_min ≡ false
    → fails (λ n. ltb_ℤ n (pos 0)) e.base_price ≡ false
    → IsSound s
    → IsSound (edited now e category s)
edited-IsSound now e category s long dear k = record {
  duration = given_or e.duration_min (λ n. leb_ℤ n (pos 0)) s.duration_min long k.duration;
  price = given_or e.base_price (λ n. ltb_ℤ n (pos 0)) s.base_price dear k.price;
}
  where
    given_or :
        (o : Option ℤ) (test : ℤ → Bool) (old : ℤ)
        → fails test o ≡ false
        → test old ≡ false
        → test (get_or_else o old) ≡ false
    given_or none test old h k = k
    given_or (some n) test old h k = h

set_commune_fee-IsSound :
    (now : ℕ) (commune : Text) (travel_fee : ℤ) (s changed : ServiceOffering)
    → set_commune_fee now commune travel_fee s ≡ ok changed
    → IsSound s
    → IsSound changed
unfolding set_commune_fee
set_commune_fee-IsSound now commune travel_fee s changed h k =
    let (fee, _, h1) = first_returns (create_fee commune travel_fee none) _ h in
    subst IsSound (ok_injective h1) (record { duration = k.duration; price = k.price })

module _ (C : Client) (T : Table Booking) where
  Step-AllSound : {p after : Professional} → Step C T p after → AllSound p → AllSound after
  unfolding add update delete_service set_fee activate_service deactivate_service
      remove_service_image add_service remove_service get_service activate deactivate clear_image
  Step-AllSound {p} (step_add now user props image_url db after h) sound =
      let (category, _, h1) = first_returns (check_category C props.category db) _ h in
      let (service, made, h2) =
        first_returns (create now (record props { category = category.name })) _ h1 in
      let (saved, adds, h3) =
        first_returns (add_service now (with_image now image_url service) p) _ h2 in
      let (_, h4) =
        passed_test (any (is_live_named (with_image now image_url service).name) p.services)
          (conflict "Service already exists") _ adds in
      let k = with_image-IsSound now image_url service (create-IsSound now _ service made) in
      subst AllSound (ok_injective h3) (
        refresh-AllSound now user saved (
          subst AllSound (ok_injective h4) (
            Every-push IsSound _ p.services sound
              (record { duration = k.duration; price = k.price }))))
  Step-AllSound {p} (step_update now requester id e db after h) sound =
      let (_, h1) =
        passed_test (is_other_user requester p) (forbidden "Vous ne pouvez pas modifier ce service")
          _ h in
      let (service, _, h2) = given (get_service id p) (not_found "Service non trouve") _ h1 in
      let (long, h3) =
        passed_test (fails (λ n. leb_ℤ n (pos 0)) e.duration_min)
          (bad_request "Duration must be greater than 0") _ h2 in
      let (dear, h4) =
        passed_test (fails (λ n. ltb_ℤ n (pos 0)) e.base_price)
          (bad_request "Price cannot be negative") _ h3 in
      let (category, _, h5) =
        first_returns (category_after C e.category service.category db) _ h4 in
      subst AllSound (ok_injective h5) (
        with_service-AllSound id (edited now e category) p sound
          (λ s k. edited-IsSound now e category s long dear k))
  Step-AllSound {p} (step_delete now user id after h) sound =
      let (saved, removes, h1) = first_returns (remove_service now id p) _ h in
      let (_, h2) =
        passed_test (not (is_some (find? (has_id id) p.services))) (not_found "Service not found") _
          removes in
      subst AllSound (ok_injective h1) (
        refresh-AllSound now user saved (
          subst AllSound (ok_injective h2) (
            Every-replace_first IsSound (has_id id) (λ s. record s { deleted_at = some now })
              p.services sound (λ s _ k. record { duration = k.duration; price = k.price }))))
  Step-AllSound {p} (step_fee now id commune travel_fee after h) sound =
      let (there, f, h1) = first_returns (find_service id (some p)) _ h in
      let (e, stood) = found id p there f in
      let (_, h2) =
        passed_test (ltb_ℤ travel_fee (pos 0)) (bad_request "Travel fee cannot be negative") _ h1 in
      let (changed, sets, h3) =
        first_returns (set_commune_fee now commune travel_fee there.1) _ h2 in
      subst AllSound (ok_injective h3) (
        there_sound id (λ _. changed) p there.0 e sound
          (λ s _. set_commune_fee-IsSound now commune travel_fee there.1 changed sets (
            Every-find IsSound (λ s. has_id id s && not (is_some s.deleted_at)) p.services there.1
              sound stood)))
  Step-AllSound {p} (step_activate now user id after h) sound =
      let (there, f, h1) = first_returns (find_service id (some p)) _ h in
      subst AllSound (ok_injective h1) (
        refresh-AllSound now user (with_service id (activate now) there.0) (
          there_sound id (activate now) p there.0 (found id p there f).0 sound
            (λ s k. record { duration = k.duration; price = k.price })))
  Step-AllSound {p} (step_deactivate now user id bookings after bookings_after h) sound =
      let (there, f, h1) =
        first_returns (find_service id (some p))
          (λ there. ok (
            refresh now user (with_service id (deactivate now) there.0),
            T.update_many (is_open_for id) (as_cancelled now) bookings,
          ))
          h in
      subst AllSound (ap (λ x. x.0) (ok_injective h1)) (
        refresh-AllSound now user (with_service id (deactivate now) there.0) (
          there_sound id (deactivate now) p there.0 (found id p there f).0 sound
            (λ s k. record { duration = k.duration; price = k.price })))
  Step-AllSound {p} (step_image now id after h) sound =
      let (there, f, h1) = first_returns (find_service id (some p)) _ h in
      subst AllSound (ok_injective h1) (
        there_sound id (clear_image now) p there.0 (found id p there f).0 sound
          (λ s k. record { duration = k.duration; price = k.price }))

  -- Where every service of a professional has a positive duration and a price that is not negative,
  -- every service has so after any sequence of the commands on services, whatever they are given:
  -- additions, edits, removals, fees, activations, deactivations and removals of images.
  pub Reach-AllSound : {p after : Professional} → Reach C T p after → AllSound p → AllSound after
  Reach-AllSound here sound = sound
  Reach-AllSound (next reach step) sound = Step-AllSound step (Reach-AllSound reach sound)
