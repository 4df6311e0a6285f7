-- ===== src/Hours/Days.antt =====
-- The commands, and the number of live days for each day of the week.
use api_v.Base.{
  Bool, ℕ, ◌≡◌, ◌≤◌, refl, sym, ap, subst, true, false, Option, none, some, List, [], ◌∷◌, any,
  ◌==◌, count-replace_first, if◌then◌else◌, ℤ, pos, Text, Result, ok, first_returns, ok_injective,
  given,
}
use api_v.Availability.{
  Availability, AvailabilityStatus, open_day, closed, on_leave, create, reopen, mark_as_closed,
  mark_as_on_leave,
}
use api_v.Professional.{Professional}
use api_v.Professional.Schedule.{
  is_live_on, add_availability, update_availability, get_availability,
}
use api_v.Professional.Schedule.Laws.{
  HasLiveDays, KeepsDays, add_availability-KeepsDays, update_availability-KeepsDays,
  remove_availability-KeepsDays,
}
use api_v.Hours.{
  Times, props_of, put_on, put_day, put_slots, put_week, with_status, times_or, set_availability,
  set_availability_bulk, update_hours, remove_hours, set_status, set_all_week,
}
use api_v.Hours.Laws.{create_fields}

kept : {r : Result Professional} {q : Professional} → KeepsDays r → r ≡ ok q → HasLiveDays q
kept v h = subst KeepsDays h v

put_on-HasLiveDays :
    (now new_id : ℕ) (day : ℤ) (times : Times) (o : Option Availability) (p : Professional)
    {q : Professional}
    → HasLiveDays p
    → put_on now new_id day times o p ≡ ok q
    → HasLiveDays q
unfolding put_on
put_on-HasLiveDays now new_id day times none p v h =
    let (a, made, added) = first_returns (create now (props_of new_id p.id day times)) _ h in
    kept (add_availability-KeepsDays now a p v) added
put_on-HasLiveDays now new_id day times (some old) p v h =
    let (a, made, updated) = first_returns (create now (props_of old.id p.id day times)) _ h in
    kept
      (update_availability-KeepsDays now day (record a { status = old.status }) p
        (create_fields now (props_of old.id p.id day times) a made).0 v)
      updated

put_day-HasLiveDays :
    (now new_id : ℕ) (day : ℤ) (times : Times) (p : Professional) {q : Professional}
    → HasLiveDays p
    → put_day now new_id day times p ≡ ok q
    → HasLiveDays q
unfolding put_day
put_day-HasLiveDays now new_id day times p v h =
    put_on-HasLiveDays now new_id day times (get_availability day p) p v h

put_slots-HasLiveDays :
    (now : ℕ) (slots : List (ℕ × ℤ × Times)) (p : Professional) {q : Professional}
    → HasLiveDays p
    → put_slots now slots p ≡ ok q
    → HasLiveDays q
unfolding put_slots
put_slots-HasLiveDays now [] p v h = subst HasLiveDays (ok_injective h) v
put_slots-HasLiveDays now ((new_id, day, times) ∷ slots) p v h =
    let (mid, first, rest) = first_returns (put_day now new_id day times p) _ h in
    put_slots-HasLiveDays now slots mid (put_day-HasLiveDays now new_id day times p v first) rest

turn-HasLiveDays :
    (now new_id : ℕ) (b : Bool) (day : ℤ) (times : Times) (p : Professional) {q : Professional}
    → HasLiveDays p
    → (if b then ok p else put_day now new_id day times p) ≡ ok q
    → HasLiveDays q
turn-HasLiveDays now new_id true day times p v h = subst HasLiveDays (ok_injective h) v
turn-HasLiveDays now new_id false day times p v h = put_day-HasLiveDays now new_id day times p v h

put_week-HasLiveDays :
    (now : ℕ) (new_id : ℕ → ℕ) (excluded : List ℕ) (times : Times) (days : List ℕ)
    (p : Professional) {q : Professional}
    → HasLiveDays p
    → put_week now new_id excluded times days p ≡ ok q
    → HasLiveDays q
unfolding put_week
put_week-HasLiveDays now new_id excluded times [] p v h = subst HasLiveDays (ok_injective h) v
put_week-HasLiveDays now new_id excluded times (d ∷ days) p v h =
    let (mid, first, rest) =
      first_returns
        (if any (λ x. x == d) excluded then ok p else put_day now (new_id d) (pos d) times p) _ h in
    put_week-HasLiveDays now new_id excluded times days mid
      (turn-HasLiveDays now (new_id d) (any (λ x. x == d) excluded) (pos d) times p v first) rest

-- The change of a status changes no day.
with_status-is_live_on :
    (now : ℕ) (status : AvailabilityStatus) (day : ℤ) (a : Availability)
    → is_live_on day (with_status now status a) ≡ is_live_on day a
unfolding reopen mark_as_closed mark_as_on_leave
with_status-is_live_on now open_day day a = refl
with_status-is_live_on now closed day a = refl
with_status-is_live_on now on_leave day a = refl

set_status-HasLiveDays :
    (now : ℕ) (day : ℤ) (status : AvailabilityStatus) (p : Professional) {q : Professional}
    → HasLiveDays p
    → set_status now day status (some p) ≡ ok q
    → HasLiveDays q
unfolding set_status
set_status-HasLiveDays now day status p v h =
    let (a, found, k) = given (get_availability day p) _ _ h in
    subst HasLiveDays (ok_injective k) λ d.
      subst (λ n. n ≤ 1)
        (sym (
          count-replace_first (is_live_on d) (is_live_on day) (with_status now status)
            p.availabilities (λ x _. with_status-is_live_on now status d x)))
        (v d)

-- A command on the weekly hours of an account, when it returns.
pub data Sets (p : Professional) : Professional → Type 0 where
  sets :
      (now new_id : ℕ) (day : ℤ) (times : Times) (a : Availability) {q : Professional}
      → set_availability now new_id day times (some p) ≡ ok (a, q)
      → Sets p q
  sets_bulk :
      (now : ℕ) (slots : List (ℕ × ℤ × Times)) {q : Professional}
      → set_availability_bulk now slots (some p) ≡ ok q
      → Sets p q
  updates :
      (now : ℕ) (day : ℤ) (start_time end_time break_start_time break_end_time : Option Text)
      (a : Availability) {q : Professional}
      → update_hours now day start_time end_time break_start_time break_end_time (some p)
        ≡ ok (a, q)
      → Sets p q
  removes : (now : ℕ) (day : ℤ) {q : Professional} → remove_hours now day (some p) ≡ ok q → Sets p q
  sets_status :
      (now : ℕ) (day : ℤ) (status : AvailabilityStatus) {q : Professional}
      → set_status now day status (some p) ≡ ok q
      → Sets p q
  sets_week :
      (now : ℕ) (new_id : ℕ → ℕ) (excluded : Option (List ℕ)) (times : Times) {q : Professional}
      → set_all_week now new_id excluded times (some p) ≡ ok q
      → Sets p q

set_availability-HasLiveDays :
    (now new_id : ℕ) (day : ℤ) (times : Times) (p : Professional) {a : Availability}
    {q : Professional}
    → HasLiveDays p
    → set_availability now new_id day times (some p) ≡ ok (a, q)
    → HasLiveDays q
unfolding set_availability
set_availability-HasLiveDays now new_id day times p v h =
    let (a, made, k) = first_returns (create now (props_of new_id p.id day times)) _ h in
    let (r, added, last) = first_returns (add_availability now a p) _ k in
    subst HasLiveDays (ap (λ o. o.1) (ok_injective last))
      (kept (add_availability-KeepsDays now a p v) added)

update_hours-HasLiveDays :
    (now : ℕ) (day : ℤ) (s e b f : Option Text) (p : Professional) {a : Availability}
    {q : Professional}
    → HasLiveDays p
    → update_hours now day s e b f (some p) ≡ ok (a, q)
    → HasLiveDays q
unfolding update_hours
update_hours-HasLiveDays now day s e b f p v h =
    let (c, found, k) = given (get_availability day p) _ _ h in
    let props = props_of c.id p.id day (times_or s e b f c) in
    let (a, made, k') = first_returns (create now props) _ k in
    let (r, updated, k'') =
      first_returns (update_availability now day (record a { status = c.status }) p) _ k' in
    let (o, there, last) = given (get_availability day r) _ _ k'' in
    subst HasLiveDays (ap (λ o. o.1) (ok_injective last)) (
      kept
        (update_availability-KeepsDays now day (record a { status = c.status }) p
          (create_fields now props a made).0 v)
        updated)

-- Each of the six commands, when it returns, leaves at most one live day for each day of the week,
-- if there was at most one: also the loops over many days and the update, whose new day may take
-- over the times of the old one.
pub hours-HasLiveDays : {p q : Professional} → Sets p q → HasLiveDays p → HasLiveDays q
unfolding set_availability_bulk set_all_week remove_hours
hours-HasLiveDays {p} (sets now new_id day times a h) v =
    set_availability-HasLiveDays now new_id day times p v h
hours-HasLiveDays {p} (sets_bulk now slots h) v = put_slots-HasLiveDays now slots p v h
hours-HasLiveDays {p} (updates now day s e b f a h) v =
    update_hours-HasLiveDays now day s e b f p v h
hours-HasLiveDays {p} (removes now day h) v = kept (remove_availability-KeepsDays now day p v) h
hours-HasLiveDays {p} (sets_status now day status h) v = set_status-HasLiveDays now day status p v h
hours-HasLiveDays {p} (sets_week now new_id excluded times h) v =
    put_week-HasLiveDays now new_id _ times _ p v h
