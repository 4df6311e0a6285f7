-- ===== src/Hours.antt =====
-- src/modules/professional/interface/handlers/availability.handlers.ts: the commands that set the
-- weekly hours. The repository gives the aggregate, or nothing, and saves it whole: a handler takes
-- what `findById` gave and returns what it saves. `randomUUID()` is an argument.
pub mod Laws
pub mod Week
pub mod Days
mod Tests
use api_v.Base.{
  ℕ, Bool, true, false, Option, none, some, get_or_else, or_else, List, [], ◌∷◌, if◌then◌else◌, any,
  ◌==◌, replace_first, ℤ, pos, Text, Result, ok, not_found, bad_request, required, ◌>>=◌, ◌>>◌,
}
use api_v.Availability.{
  Availability, AvailabilityStatus, open_day, closed, on_leave, CreateProps, create, reopen,
  mark_as_closed, mark_as_on_leave,
}
use api_v.Availability.Ranges.{TimeRange}
use api_v.Professional.{Professional}
use api_v.Professional.Schedule.{
  is_live_on, add_availability, update_availability, remove_availability, get_availability,
}

-- The times of a command.
pub record Times : Type 0 where
  pub start_time : Text
  pub end_time : Text
  pub break_start_time : Option Text
  pub break_end_time : Option Text

abbrev pub props_of : ℕ → ℕ → ℤ → Times → CreateProps
props_of id professional_id day times = record {
  id = id;
  professional_id = professional_id;
  day_of_week = day;
  start_time = times.start_time;
  end_time = times.end_time;
  break_start_time = times.break_start_time;
  break_end_time = times.break_end_time;
}

-- `SetAvailabilityHandler`
unfoldable pub set_availability :
    ℕ → ℕ → ℤ → Times → Option Professional → Result (Availability × Professional)
set_availability now new_id day times found = do
  professional ← required found (not_found "Professionnel non trouve")
  availability ← create now (props_of new_id professional.id day times)
  saved ← add_availability now availability professional
  ok (record availability { professional_id = professional.id }, saved)

-- What the loops of the bulk handler and of the week's handler do with the day at hand, in the two
-- cases of `existing`.
unfoldable pub put_on : ℕ → ℕ → ℤ → Times → Option Availability → Professional → Result Professional
put_on now new_id day times none p = do
  availability ← create now (props_of new_id p.id day times)
  add_availability now availability p
put_on now new_id day times (some existing) p = do
  availability ← create now (props_of existing.id p.id day times)
  update_availability now day (record availability { status = existing.status }) p

unfoldable pub put_day : ℕ → ℕ → ℤ → Times → Professional → Result Professional
put_day now new_id day times p = put_on now new_id day times (get_availability day p) p

-- The loop over the slots, each with the id that a new day would get.
unfoldable pub put_slots : ℕ → List (ℕ × ℤ × Times) → Professional → Result Professional
put_slots now [] p = ok p
put_slots now ((new_id, day, times) ∷ slots) p = do
  next ← put_day now new_id day times p
  put_slots now slots next

-- `SetAvailabilityBulkHandler`, without the list of the days that it answers.
unfoldable pub set_availability_bulk :
    ℕ → List (ℕ × ℤ × Times) → Option Professional → Result Professional
set_availability_bulk now slots found = do
  professional ← required found (not_found "Professionnel non trouve")
  put_slots now slots professional

abbrev pub break_start : Option TimeRange → Option Text
break_start none = none
break_start (some r) = some r.start_time

abbrev pub break_end : Option TimeRange → Option Text
break_end none = none
break_end (some r) = some r.end_time

-- The times of an update: those of the command, and where it gives none those of the day.
abbrev pub times_or : Option Text → Option Text → Option Text → Option Text → Availability → Times
times_or start_time end_time break_start_time break_end_time current = record {
  start_time = get_or_else start_time current.working_hours.start_time;
  end_time = get_or_else end_time current.working_hours.end_time;
  break_start_time = or_else break_start_time (break_start current.break_time);
  break_end_time = or_else break_end_time (break_end current.break_time);
}

-- `UpdateAvailabilityHandler`
unfoldable pub update_hours :
    ℕ
    → ℤ
    → Option Text
    → Option Text
    → Option Text
    → Option Text
    → Option Professional
    → Result (Availability × Professional)
update_hours now day start_time end_time break_start_time break_end_time found = do
  professional ← required found (not_found "Professionnel non trouve")
  current ←
      required (get_availability day professional)
        (not_found "Disponibilite non trouvee pour ce jour")
  updated ← create now (
      props_of current.id professional.id day
        (times_or start_time end_time break_start_time break_end_time current))
  saved ← update_availability now day (record updated { status = current.status }) professional
  result ←
      required (get_availability day saved) (bad_request "Echec de mise a jour de la disponibilite")
  ok (result, saved)

-- `RemoveAvailabilityHandler`
unfoldable pub remove_hours : ℕ → ℤ → Option Professional → Result Professional
remove_hours now day found = do
  professional ← required found (not_found "Professionnel non trouve")
  remove_availability now day professional

abbrev pub with_status : ℕ → AvailabilityStatus → Availability → Availability
with_status now open_day a = reopen now a
with_status now closed a = mark_as_closed now a
with_status now on_leave a = mark_as_on_leave now a

-- `SetAvailabilityStatusHandler`: the day that was found is changed inside the aggregate.
unfoldable pub set_status : ℕ → ℤ → AvailabilityStatus → Option Professional → Result Professional
set_status now day status found = do
  professional ← required found (not_found "Professionnel non trouve")
  availability ←
      required (get_availability day professional)
        (not_found "Disponibilite non trouvee pour ce jour")
  ok (record professional {
    availabilities =
        replace_first (is_live_on day) (with_status now status) professional.availabilities;
  })

-- The loop of the week over the days that are left.
unfoldable pub put_week : ℕ → (ℕ → ℕ) → List ℕ → Times → List ℕ → Professional → Result Professional
put_week now new_id excluded times [] p = ok p
put_week now new_id excluded times (day ∷ days) p = do
  next ← (if any (λ d. d == day) excluded then ok p else put_day now (new_id day) (pos day) times p)
  put_week now new_id excluded times days next

-- `SetAvailabilityForAllWeekHandler`
unfoldable pub set_all_week :
    ℕ → (ℕ → ℕ) → Option (List ℕ) → Times → Option Professional → Result Professional
set_all_week now new_id exclude_days times found = do
  professional ← required found (not_found "Professionnel non trouve")
  put_week now new_id (get_or_else exclude_days []) times (0 ∷ 1 ∷ 2 ∷ 3 ∷ 4 ∷ 5 ∷ 6 ∷ [])
      professional
