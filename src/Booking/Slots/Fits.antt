-- ===== src/Booking/Slots/Fits.antt =====
-- A slot against the hours and the break of its day.
use api_v.Base.{
  ℕ, ◌+◌, ◌≤◌, ◌≡◌, ◌⊎◌, true, false, ◌||◌, ◌&&◌, Option, none, some, Text, is_empty, ok, given,
  passed, throw_if, bad_request, arith,
}
use api_v.Availability.Ranges.{total_min}
use api_v.Booking.{Client, Store, IsLawfulClient, HoursRow}
use api_v.Booking.Slots.{
  utc_day, utc_minutes, lt_num, is_hours_on, meets_break, check_hours, validate_slot,
}

-- The slot from one minute of the day to another, against the hours of a row.
pub record IsWithin (a : HoursRow) (from to : ℕ) : Type 0 where
  pub opens : (s : ℕ) → total_min a.start_time ≡ some s → s ≤ from
  pub closes : (e : ℕ) → total_min a.end_time ≡ some e → to ≤ e
  pub off_break :
      (b e : Text) (s t : ℕ)
      → a.break_start_time ≡ some b
      → a.break_end_time ≡ some e
      → is_empty b ≡ false
      → is_empty e ≡ false
      → total_min b ≡ some s
      → total_min e ≡ some t
      → (t ≤ from) ⊎ (to ≤ s)

not_before : (from s : ℕ) (o : Option ℕ) → o ≡ some s → lt_num (some from) o ≡ false → s ≤ from
not_before from s none e h = cc
not_before from s (some t) e h = ground arith

not_after : (to e : ℕ) (o : Option ℕ) → o ≡ some e → lt_num o (some to) ≡ false → to ≤ e
not_after to e none h k = cc
not_after to e (some t) h k = ground arith

-- A slot that does not meet a break with given bounds is over before it or begins after it.
clear_of :
    (x y : Option Text) (from to s t : ℕ) (b e : Text)
    → meets_break x y from to ≡ false
    → x ≡ some b
    → y ≡ some e
    → is_empty b ≡ false
    → is_empty e ≡ false
    → total_min b ≡ some s
    → total_min e ≡ some t
    → (t ≤ from) ⊎ (to ≤ s)
clear_of x y from to s t b e h hx hy kb ke tb te =
    apart (total_min b) (total_min e) tb te (meets (rw (hx, hy) at h))
  where
    meets :
        meets_break (some b) (some e) from to ≡ false
        → (lt_num (some from) (total_min e) && lt_num (total_min b) (some to)) ≡ false
    meets k = ground arith

    apart :
        (p q : Option ℕ)
        → p ≡ some s
        → q ≡ some t
        → (lt_num (some from) q && lt_num p (some to)) ≡ false
        → (t ≤ from) ⊎ (to ≤ s)
    apart none q u v k = cc
    apart (some p) none u v k = cc
    apart (some p) (some q) u v k = ground arith

check_hours-IsWithin :
    (a : HoursRow) (date duration : ℕ)
    → check_hours a date duration ≡ ok tt
    → IsWithin a (utc_minutes date) (utc_minutes date + duration)
unfolding check_hours
check_hours-IsWithin a date duration h =
    let from = utc_minutes date in
    let (h1, h2) =
      passed
        (throw_if
          (lt_num (some from) (total_min a.start_time)
            || lt_num (total_min a.end_time) (some (from + duration)))
          (bad_request "Le créneau est hors des heures de travail"))
        _ h in
    let (h3, _) =
      passed
        (throw_if (meets_break a.break_start_time a.break_end_time from (from + duration))
          (bad_request "Le créneau chevauche la pause"))
        _ h2 in
    record {
      opens = λ s e. not_before from s (total_min a.start_time) e (ground arith);
      closes = λ t e. not_after (from + duration) t (total_min a.end_time) e (ground arith);
      off_break = λ b e s t.
          clear_of a.break_start_time a.break_end_time from (from + duration) s t b e
            (ground arith);
    }

module _ (C : Client) (lawful : IsLawfulClient C) (db : Store C) where
  -- A slot passes only where the table has hours of the professional for the day of the week of the
  -- date in UTC, open, active and not deleted, such that the slot begins no earlier and ends no
  -- later than they say and does not meet their break.
  pub validate_slot-IsWithin :
      (professional_id date duration : ℕ)
      → validate_slot C db professional_id date duration ≡ ok tt
      → (a : HoursRow) × (C.availabilities.find_unique a.id db.availabilities ≡ some a)
        × (is_hours_on professional_id (utc_day date) a ≡ true)
        × IsWithin a (utc_minutes date) (utc_minutes date + duration)
  unfolding validate_slot
  validate_slot-IsWithin professional_id date duration h =
      let (a, found, k) = given _ _ _ h in
      let (t, u) = lawful.availabilities.find_first_some _ _ a found in
      (a, u, t, check_hours-IsWithin a date duration k)
