-- ===== src/Hours/Laws.antt =====
-- What the commands do to the week.
use api_v.Base.{
  ℕ, ◌≡◌, ◌≢◌, refl, sym, ap, subst, ◌∙◌, inl, inr, Bool-cases, not, ◌&&◌, ◌||◌, is_empty,
  if◌then◌else◌, passed, throw_if, bad_request, ok_injective, Option, none, some, Text, ℤ, ok,
  first_returns, arith,
}
use api_v.Availability.{
  checked_break, break_of, Availability, AvailabilityStatus, open_day, CreateProps, create,
}
use api_v.Availability.Laws.{create_parts}
use api_v.Availability.Ranges.{TimeRange, includes}
use api_v.Availability.Ranges
use api_v.Professional.{Professional}
use api_v.Professional.Schedule.{get_availability}
use api_v.Professional.Schedule.Laws.{
  get_availability-update_availability, get_availability-add_availability,
}
use api_v.Hours.{Times, props_of, put_on, put_day}

abbrev pub status_or_open : Option Availability → AvailabilityStatus
status_or_open none = open_day
status_or_open (some a) = a.status

-- The texts of a break, and those that a command asks for: both must be given and not empty.
abbrev pub texts_of : Option TimeRange → Option (Text × Text)
texts_of none = none
texts_of (some r) = some (r.start_time, r.end_time)

abbrev pub asked_break : Option Text → Option Text → Option (Text × Text)
asked_break (some b) (some e) = if not (is_empty b) && not (is_empty e) then some (b, e) else none
asked_break _ _ = none

-- A day has the times of a command, with its break, and the status that it had before, open for a new one.
pub record IsPut (times : Times) (before after : Option Availability) : Type 0 where
  pub day : Availability
  pub found : after ≡ some day
  pub starts : day.working_hours.start_time ≡ times.start_time
  pub ends : day.working_hours.end_time ≡ times.end_time
  pub rests : texts_of day.break_time ≡ asked_break times.break_start_time times.break_end_time
  pub same_status : day.status ≡ status_or_open before

range_texts :
    (s e : Text) (r : TimeRange) → Ranges.create s e ≡ ok r → (r.start_time ≡ s) × (r.end_time ≡ e)
unfolding Ranges.create
range_texts s e r h = (ground arith, ground arith)

break_of_texts :
    (hours : TimeRange) (b e : Option Text) (o : Option TimeRange)
    → break_of hours b e ≡ ok o
    → texts_of o ≡ asked_break b e
unfolding break_of checked_break
break_of_texts hours (some b) (some e) o h =
    elim (Bool-cases (not (is_empty b) && not (is_empty e))) [
      | inl u ↦
          let (r, made, k) = first_returns (Ranges.create b e) _ (rw u at h) in
          let (starts, ends) = range_texts b e r made in
          let (_, k1) =
            passed
              (throw_if (not (includes hours b) || not (includes hours e))
                (bad_request "Break time must be within working hours"))
              _ k in
          rw u (
            ap texts_of (sym (ok_injective k1))
            ∙ ap (λ s. some (s, r.end_time)) starts
            ∙ ap (λ s. some (b, s)) ends)
      | inr u ↦ rw u (ap texts_of (sym (ok_injective (rw u at h))))
    ]
break_of_texts hours (some b) none o h = ap texts_of (sym (ok_injective h))
break_of_texts hours none (some e) o h = ap texts_of (sym (ok_injective h))
break_of_texts hours none none o h = ap texts_of (sym (ok_injective h))

pub create_fields :
    (now : ℕ) (props : CreateProps) (a : Availability)
    → create now props ≡ ok a
    → (a.day_of_week ≡ props.day_of_week)
      × (a.deleted_at ≡ none)
      × (a.status ≡ open_day)
      × (a.working_hours.start_time ≡ props.start_time)
      × (a.working_hours.end_time ≡ props.end_time)
unfolding create
create_fields now props a h =
    let (s, e) =
      range_texts props.start_time props.end_time a.working_hours (create_parts now props a h).0 in
    (ground arith, ground arith, ground arith, s, e)

put_on-IsPut :
    (now new_id : ℕ) (day : ℤ) (times : Times) (o : Option Availability) (p q : Professional)
    → put_on now new_id day times o p ≡ ok q
    → IsPut times o (get_availability day q)
      × ((d : ℤ) → d ≢ day → get_availability d q ≡ get_availability d p)
unfolding put_on
put_on-IsPut now new_id day times none p q h =
    let (a, made, added) = first_returns (create now (props_of new_id p.id day times)) _ h in
    let (on, live, opened, s, e) = create_fields now (props_of new_id p.id day times) a made in
    let (at, others) = get_availability-add_availability now a p q live added in
    (
      record {
        day = record a { professional_id = p.id };
        found =
            subst (λ d. get_availability d q ≡ some (record a { professional_id = p.id })) on at;
        starts = s;
        ends = e;
        rests =
            break_of_texts a.working_hours _ _ a.break_time
              (create_parts now (props_of new_id p.id day times) a made).1;
        same_status = opened;
      },
      λ d n. others d (subst (λ x. d ≢ x) (sym on) n),
    )
put_on-IsPut now new_id day times (some old) p q h =
    let (a, made, updated) = first_returns (create now (props_of old.id p.id day times)) _ h in
    let (on, live, opened, s, e) = create_fields now (props_of old.id p.id day times) a made in
    let (at, others) =
      get_availability-update_availability now day (record a { status = old.status }) p q on live
        updated in
    (
      record {
        day = record a { status = old.status };
        found = at;
        starts = s;
        ends = e;
        rests =
            break_of_texts a.working_hours _ _ a.break_time
              (create_parts now (props_of old.id p.id day times) a made).1;
        same_status = refl;
      },
      others,
    )

-- The body of the loops, when it returns: the day that it is for has the times of the command and
-- keeps its status, or is open if it was not there; every other day finds what it found before.
pub put_day-IsPut :
    (now new_id : ℕ) (day : ℤ) (times : Times) (p q : Professional)
    → put_day now new_id day times p ≡ ok q
    → IsPut times (get_availability day p) (get_availability day q)
      × ((d : ℤ) → d ≢ day → get_availability d q ≡ get_availability d p)
unfolding put_day
put_day-IsPut now new_id day times p q h =
    put_on-IsPut now new_id day times (get_availability day p) p q h
