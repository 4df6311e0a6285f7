-- ===== src/Availability/Ranges/Printed.antt =====
-- "HH:mm" texts described without the regular expression: the printed clock times. The regular
-- expression accepts exactly these, and the code's arithmetic reads their minutes back.
use api_v.Base.{ℕ, ◌+◌, ◌-◌, ◌*◌, ◌/◌, ◌%◌, ◌≤◌, ◌<◌, ◌≡◌, true, some, [], ◌∷◌, arith, Text, trim}
use api_v.Availability.Ranges.{is_digit, time_regex, split_colon, number, total_min}

pub record Clock : Type 0 where
  pub hour : ℕ
  pub minute : ℕ
  pub hour_bound : hour < 24
  pub minute_bound : minute < 60

abbrev pub minutes : Clock → ℕ
minutes c = c.hour * 60 + c.minute

-- The two digits of a number below 100.
abbrev digit_pair : ℕ → Text → Text
digit_pair n rest = (48 + n / 10) ∷ (48 + n % 10) ∷ rest

abbrev pub print : Clock → Text
print c = digit_pair c.hour (b':' ∷ digit_pair c.minute [])

trim_pair : (c d : ℕ) → is_digit c ≡ true → is_digit d ≡ true → trim (c ∷ d ∷ []) ≡ c ∷ d ∷ []
unfolding trim
trim_pair c d p q = ground arith

number_pair : (n : ℕ) → n < 100 → number (digit_pair n []) ≡ some n
unfolding number
number_pair n h =
    rw (trim_pair (48 + n / 10) (48 + n % 10) (ground arith) (ground arith)) (ground arith)

pub time_regex-print : (c : Clock) → time_regex (print c) ≡ true
unfolding time_regex
time_regex-print c = ground arith

split_colon-print :
    (c : Clock) → split_colon (print c) ≡ digit_pair c.hour [] ∷ digit_pair c.minute [] ∷ []
unfolding split_colon
split_colon-print c = ground arith

pub total_min-print : (c : Clock) → total_min (print c) ≡ some (minutes c)
unfolding total_min
total_min-print c =
    rw (split_colon-print c)
      (ground (arith, number_pair c.hour (omega arith), number_pair c.minute (omega arith)))

-- What the regular expression says of the five characters.
record IsShaped (a b s d e : ℕ) : Type 0 where
  tens : 48 ≤ a
  tens_bound : a ≤ 50
  units : 48 ≤ b
  units_bound : b ≤ 57
  late : a * 10 + b ≤ 551
  colon : s ≡ 58
  minute_tens : 48 ≤ d
  minute_tens_bound : d ≤ 53
  minute_units : 48 ≤ e
  minute_units_bound : e ≤ 57

shape_of_regex : (a b s d e : ℕ) → time_regex (a ∷ b ∷ s ∷ d ∷ e ∷ []) ≡ true → IsShaped a b s d e
unfolding time_regex
shape_of_regex a b s d e h = record {
  tens = ground arith;
  tens_bound = ground arith;
  units = ground arith;
  units_bound = ground arith;
  late = ground arith;
  colon = ground arith;
  minute_tens = ground arith;
  minute_tens_bound = ground arith;
  minute_units = ground arith;
  minute_units_bound = ground arith;
}

module _ (a b s d e : ℕ) (h : IsShaped a b s d e) where
  read_clock : Clock
  read_clock = record {
    hour = (a - 48) * 10 + (b - 48);
    minute = (d - 48) * 10 + (e - 48);
    hour_bound = omega arith;
    minute_bound = omega arith;
  }

  print-read_clock : a ∷ b ∷ s ∷ d ∷ e ∷ [] ≡ print read_clock
  unfolding read_clock
  print-read_clock =
      let first : a ≡ 48 + ((a - 48) * 10 + (b - 48)) / 10 = omega arith in
      let second : b ≡ 48 + ((a - 48) * 10 + (b - 48)) % 10 = omega arith in
      let third : d ≡ 48 + ((d - 48) * 10 + (e - 48)) / 10 = omega arith in
      let fourth : e ≡ 48 + ((d - 48) * 10 + (e - 48)) % 10 = omega arith in
      cc (first, second, h.colon, third, fourth)

-- The clock time that a text of the right shape shows.
pub clock_of_regex : (t : Text) → time_regex t ≡ true → (c : Clock) × (t ≡ print c)
unfolding time_regex
clock_of_regex (a ∷ b ∷ s ∷ d ∷ e ∷ []) h =
    let shape = shape_of_regex a b s d e h in
    (read_clock a b s d e shape, print-read_clock a b s d e shape)
clock_of_regex _ h = cc
