-- ===== src/Hours/Tests.antt =====
-- The week of an account with a Monday: the whole week but Sunday is set, then Monday is closed.
use api_v.Base.{
  ℕ, ◌≡◌, ◌⊎◌, refl, true, false, none, some, List, [], ◌∷◌, any, ◌==◌, trim, pos, codes, ok, arith,
}
use api_v.Availability.{Availability, closed, create, break_of, mark_as_closed}
use api_v.Availability.Ranges
use api_v.Availability.Ranges.{includes}
use api_v.Professional.{Professional}
use api_v.Professional.Tests.{listed, monday}
use api_v.Professional.Schedule.{add_availability, update_availability, get_availability}
use api_v.Professional.Schedule.Laws.{HasLiveDays}
use api_v.Hours.{Times, put_on, put_day, put_week, set_status, set_all_week}
use api_v.Hours.Laws.{IsPut}
use api_v.Hours.Week.{set_all_week-IsPut}

abbrev nine_to_five : Times
nine_to_five = record {
  start_time = codes "09:00";
  end_time = codes "17:00";
  break_start_time = none;
  break_end_time = none;
}

abbrev new_hours : Availability
new_hours = record monday {
  working_hours = record { start_time = codes "09:00"; end_time = codes "17:00" };
  created_at = 8;
  updated_at = 8;
}

-- The account after Monday has got the new times.
abbrev changed : Professional
changed = record listed { availabilities = new_hours ∷ []; updated_at = 8 }

runs : Unit {0}
unfolding put_day put_on put_week set_all_week set_status create break_of Ranges.create
    Ranges.time_regex Ranges.total_min trim add_availability update_availability get_availability
    mark_as_closed
runs = tt

put_day-listed : put_day 8 70 (pos 1) nine_to_five listed ≡ ok changed
unfolding runs
put_day-listed = refl

-- All days but Monday are excluded.
abbrev others : List ℕ
others = 0 ∷ 2 ∷ 3 ∷ 4 ∷ 5 ∷ 6 ∷ []

set_all_week-listed : set_all_week 8 (λ d. 70) (some others) nine_to_five (some listed) ≡ ok changed
unfolding runs
set_all_week-listed = refl

set_all_week-IsPut_example :
    ((any (λ d. d == 1) others ≡ true)
      × (get_availability (pos 1) changed ≡ get_availability (pos 1) listed))
    ⊎ ((any (λ d. d == 1) others ≡ false)
        × IsPut nine_to_five (get_availability (pos 1) listed) (get_availability (pos 1) changed))
set_all_week-IsPut_example =
    set_all_week-IsPut 8 (λ d. 70) others nine_to_five listed changed 1 (omega arith)
      set_all_week-listed

abbrev closed_monday : Professional
closed_monday = record listed {
  availabilities = record monday { status = closed; updated_at = 8 } ∷ [];
}

set_status-listed : set_status 8 (pos 1) closed (some listed) ≡ ok closed_monday
unfolding runs
set_status-listed = refl

listed-HasLiveDays : HasLiveDays listed
listed-HasLiveDays day = ground arith
