-- ===== src/Availability/Laws.antt =====
-- What `AvailabilityEntity.create` guarantees of a day's hours, and when a time is bookable.
use api_v.Base.{
  ℕ, ◌≤◌, ◌≡◌, refl, inl, inr, Bool, true, false, not, ◌&&◌, Option, none, some, arith, leb,
  Bool-cases, pos, ◌≤ℤ◌, Text, is_empty, ok, first_returns,
}
use api_v.Availability.Ranges
use api_v.Availability.Ranges.{TimeRange, includes}
use api_v.Availability.Ranges.Printed.{Clock, minutes, print}
use api_v.Availability.Ranges.Laws.{IsRange, create-IsRange, includes-print}
use api_v.Availability.{
  Availability, is_open, CreateProps, checked_break, break_of, create, in_break, is_time_available,
  mark_as_on_leave, mark_as_closed, reopen, deactivate,
}

-- A break is a range inside the working hours.
pub record IsBreak (hours r : TimeRange) (h : IsRange hours) : Type 0 where
  pub range : IsRange r
  pub after_opening : minutes h.opening ≤ minutes range.opening
  pub before_closing : minutes range.closing ≤ minutes h.closing

abbrev pub HasBreak : (hours : TimeRange) → IsRange hours → Option TimeRange → Type 0
HasBreak hours h none = Unit
HasBreak hours h (some r) = IsBreak hours r h

-- The well-formedness of a day.
pub record IsWellFormed (a : Availability) : Type 0 where
  pub day_low : pos 0 ≤ℤ a.day_of_week
  pub day_high : a.day_of_week ≤ℤ pos 6
  pub hours : IsRange a.working_hours
  pub rest : HasBreak a.working_hours hours a.break_time

checked_break-some :
    (hours r : TimeRange) (b e : Text) (o : Option TimeRange)
    → Ranges.create b e ≡ ok r
    → checked_break hours b e ≡ ok o
    → (o ≡ some r) × (includes hours b ≡ true) × (includes hours e ≡ true)
unfolding checked_break
checked_break-some hours r b e o q p = (ground arith, ground arith, ground arith)

-- A printed time inside a range, by its minutes.
within_of_includes :
    (r : TimeRange) (v : IsRange r) (c : Clock)
    → includes r (print c) ≡ true
    → (minutes v.opening ≤ minutes c) × (minutes c ≤ minutes v.closing)
within_of_includes r v c h =
    (ground (arith, includes-print r v c), ground (arith, includes-print r v c))

checked_break-HasBreak :
    (hours : TimeRange) (h : IsRange hours) (b e : Text) (o : Option TimeRange)
    → checked_break hours b e ≡ ok o
    → HasBreak hours h o
unfolding checked_break
checked_break-HasBreak hours h b e o p =
    let (r, created, q) = first_returns (Ranges.create b e) _ p in
    let (v, same_b, same_e) = create-IsRange b e r created in
    let (is_r, in_b, in_e) = checked_break-some hours r b e o created p in
    let starts = within_of_includes hours h v.opening (rw (← v.start_shows, same_b) in_b) in
    let ends = within_of_includes hours h v.closing (rw (← v.end_shows, same_e) in_e) in
    rw is_r (record { range = v; after_opening = starts.0; before_closing = ends.1 })

break_of-HasBreak :
    (hours : TimeRange) (h : IsRange hours) (b e : Option Text) (o : Option TimeRange)
    → break_of hours b e ≡ ok o
    → HasBreak hours h o
unfolding break_of
break_of-HasBreak hours h (some b) (some e) o p =
    elim (Bool-cases (not (is_empty b) && not (is_empty e))) [
      | inl given ↦ checked_break-HasBreak hours h b e o (rw given at p)
      | inr absent ↦ let e : o ≡ none = ground arith in rw e tt
    ]
break_of-HasBreak hours h _ _ o p = let e : o ≡ none = ground arith in rw e tt

pub create_parts :
    (now : ℕ) (props : CreateProps) (a : Availability)
    → create now props ≡ ok a
    → (Ranges.create props.start_time props.end_time ≡ ok a.working_hours)
      × (break_of a.working_hours props.break_start_time props.break_end_time ≡ ok a.break_time)
      × (pos 0 ≤ℤ a.day_of_week)
      × (a.day_of_week ≤ℤ pos 6)
unfolding create
create_parts now props a p = (ground arith, ground arith, ground arith, ground arith)

-- Whatever the arguments, a day that is created is one of the week's seven, its hours are two clock
-- times in strict order, and its break, if it has one, is a range inside those hours.
pub create-IsWellFormed :
    (now : ℕ) (props : CreateProps) (a : Availability) → create now props ≡ ok a → IsWellFormed a
create-IsWellFormed now props a p =
    let (created, rests, low, high) = create_parts now props a p in
    let hours = (create-IsRange _ _ a.working_hours created).0 in
    record {
      day_low = low;
      day_high = high;
      hours = hours;
      rest = break_of-HasBreak a.working_hours hours _ _ a.break_time rests;
    }

-- Whether the break covers a minute of the day, both of its ends included.
abbrev pub rests_at :
    (hours : TimeRange) (h : IsRange hours) (o : Option TimeRange) → HasBreak hours h o → ℕ → Bool
rests_at hours h none v n = false
rests_at hours h (some r) v n = leb (minutes v.range.opening) n && leb n (minutes v.range.closing)

in_break-print :
    (hours : TimeRange) (h : IsRange hours) (o : Option TimeRange) (v : HasBreak hours h o)
    (c : Clock)
    → in_break o (print c) ≡ rests_at hours h o v (minutes c)
in_break-print hours h none v c = refl
in_break-print hours h (some r) v c = includes-print r v.range c

-- On a well-formed day a clock time is available exactly if the day is active and open, its minutes
-- lie within the working hours and the break does not cover them; both ranges include their ends.
pub is_time_available-print :
    (a : Availability) (v : IsWellFormed a) (c : Clock)
    → is_time_available a (print c) ≡ (
        a.is_active
        && is_open a.status
        && (leb (minutes v.hours.opening) (minutes c) && leb (minutes c) (minutes v.hours.closing))
        && not (rests_at a.working_hours v.hours a.break_time v.rest (minutes c)))
unfolding is_time_available
is_time_available-print a v c =
    rw
      (
        includes-print a.working_hours v.hours c,
        in_break-print a.working_hours v.hours a.break_time v.rest c,
      )
      (ground arith)

-- A day that is closed, on leave or deactivated has no available time, and reopening a day that
-- was closed or on leave gives the times that reopening it alone gives.
pub status_changes :
    (now later : ℕ) (a : Availability) (time : Text)
    → (is_time_available (mark_as_closed now a) time ≡ false)
      × (is_time_available (mark_as_on_leave now a) time ≡ false)
      × (is_time_available (deactivate now a) time ≡ false)
      × (is_time_available (reopen later (mark_as_closed now a)) time
          ≡ is_time_available (reopen later a) time)
      × (is_time_available (reopen later (mark_as_on_leave now a)) time
          ≡ is_time_available (reopen later a) time)
unfolding is_time_available mark_as_closed mark_as_on_leave deactivate reopen
status_changes now later a time =
    (ground arith, ground arith, ground arith, ground arith, ground arith)
