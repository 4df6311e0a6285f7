-- ===== src/Schedule/Laws.antt =====
-- The two views of a schedule: the slot that decides whether the professional is open now, which is
-- the first of the day, and the one that the week shows, which is the last.
use api_v.Base.{
  ℕ, ◌≤◌, ◌≡◌, refl, sym, ap, subst, ◌∙◌, true, false, inl, inr, Option, none, some, or_else, List,
  [], ◌∷◌, any, find?, count, map, ==_iff, if◌then◌else◌, ◌==◌, ℤ, pos, Bool-cases,
  not_any_of_count, find_of_not_any, eq_ℤ, ◌&&◌, arith,
}
use api_v.Availability.{is_open}
use api_v.Booking.Slots.{utc_day, utc_minutes}
use api_v.Schedule.{
  DaySlot, ScheduleDay, is_open_on, compute_open_now, by_day, display_order, status_of, shown,
  build_schedule,
}

or_else-none : (o : Option DaySlot) → or_else o none ≡ o
or_else-none none = refl
or_else-none (some s) = refl

-- Where at most one slot is open on a day, the map and the search find the same one.
by_day-find :
    (slots : List DaySlot) (known : ℤ → Option DaySlot) (day : ℤ)
    → count (is_open_on day) slots ≤ 1
    → by_day slots known day ≡ or_else (find? (is_open_on day) slots) (known day)
unfolding by_day
by_day-find [] known day u = refl
by_day-find (s ∷ slots) known day u =
    by_day-find slots (λ d. if is_open s.status && eq_ℤ s.day_of_week d then some s else known d)
      day (ground arith)
    ∙ elim (Bool-cases (is_open_on day s)) [
      | inl here ↦
          rw
            (find_of_not_any (is_open_on day) slots
              (not_any_of_count (is_open_on day) slots (ground arith)))
            (ground arith)
      | inr gone ↦
          let swapped : (is_open s.status && eq_ℤ s.day_of_week day) ≡ false = ground arith in
          rw (swapped, gone) refl
    ]

day_of_week-shown : (dow : ℕ) (o : Option DaySlot) → (shown dow o).day_of_week ≡ dow
day_of_week-shown dow none = refl
day_of_week-shown dow (some s) = refl

-- Among days that each carry their own number, a search by number finds the day.
find-map :
    (f : ℕ → ScheduleDay) (days : List ℕ) (day : ℕ)
    → ((d : ℕ) → (f d).day_of_week ≡ d)
    → any (λ d. d == day) days ≡ true
    → find? (λ e. e.day_of_week == day) (map f days) ≡ some (f day)
find-map f [] day own t = cc
find-map f (d ∷ days) day own t = elim (Bool-cases (d == day)) [
  | inl e ↦
      rw (subst (λ n. (n == day) ≡ true) (sym (own d)) e)
        (ap (λ x. some (f x)) ((==_iff d day).0 e))
  | inr e ↦
      rw (subst (λ n. (n == day) ≡ false) (sym (own d)) e) (find-map f days day own (ground arith))
]

open_as_shown :
    (now_min dow : ℕ) (o : Option DaySlot)
    → (status_of now_min o).is_open_now ≡ true
    → ((shown dow o).is_open_day ≡ true)
      × ((shown dow o).end_time ≡ (status_of now_min o).closing_time)
open_as_shown now_min dow none h = cc
open_as_shown now_min dow (some s) h = (refl, rw h refl)

-- Where at most one slot is open on the day of the week of the date, a professional who is open now
-- is shown as open on that day of the week, and the closing time is the end of the hours shown.
pub build_schedule-agrees :
    (slots : List DaySlot) (now : ℕ)
    → count (is_open_on (pos (utc_day now))) slots ≤ 1
    → (build_schedule slots now).open_status.is_open_now ≡ true
    → (d : ScheduleDay) × (find? (λ e. e.day_of_week == utc_day now) (build_schedule slots now).days
        ≡ some d)
      × (d.is_open_day ≡ true)
      × (d.end_time ≡ (build_schedule slots now).open_status.closing_time)
unfolding build_schedule compute_open_now
build_schedule-agrees slots now u h =
    let today = utc_day now in
    let slot = find? (is_open_on (pos today)) slots in
    let (opened, closing) = open_as_shown (utc_minutes now) today slot h in
    (
      shown today slot,
      find-map (λ dow. shown dow (by_day slots (λ _. none) (pos dow))) display_order today
            (λ dow. day_of_week-shown dow _) (ground arith)
          ∙ ap (λ o. some (shown today o))
              (by_day-find slots (λ _. none) (pos today) u ∙ or_else-none slot),
      opened,
      closing,
    )
