-- ===== src/Availability/Ranges.antt =====
-- The class `TimeRangeVO`: a range of "HH:mm" texts, checked when it is built. A number is
-- `none` where JavaScript has NaN; every comparison with NaN is false.
pub mod Printed
pub mod Laws
use api_v.Base.{
  ℕ, ◌+◌, ◌-◌, ◌*◌, Bool, true, false, not, ◌&&◌, ◌||◌, Option, none, some, List, [], ◌∷◌, leb, ltb,
  ◌==◌, if◌then◌else◌, Text, trim, Result, ok, err, bad_request, throw_if, ◌>>=◌, ◌>>◌,
}

abbrev pub is_digit : ℕ → Bool
is_digit c = leb b'0' c && leb c b'9'

-- `/^([0-1][0-9]|2[0-3]):[0-5][0-9]$/`
unfoldable pub time_regex : Text → Bool
time_regex (a ∷ b ∷ c ∷ d ∷ e ∷ []) =
    ((leb b'0' a && leb a b'1' && is_digit b) || (a == b'2' && leb b'0' b && leb b b'3'))
    && c == b':'
    && leb b'0' d
    && leb d b'5'
    && is_digit e
time_regex _ = false

-- One character in front of the parts of the rest: a colon begins a new part.
abbrev cut : Bool → ℕ → List Text → List Text
cut true c rest = [] ∷ rest
cut false c [] = (c ∷ []) ∷ []
cut false c (part ∷ rest) = (c ∷ part) ∷ rest

-- `time.split(':')`
unfoldable pub split_colon : Text → List Text
split_colon [] = [] ∷ []
split_colon (c ∷ s) = cut (c == b':') c (split_colon s)

unfoldable pub digits_from : ℕ → Text → Option ℕ
digits_from acc [] = some acc
digits_from acc (c ∷ s) =
    let rest = digits_from (acc * 10 + (c - b'0')) s in if is_digit c then rest else none

-- `Number(text)` on the texts of decimal digits; the empty text is 0, all else is NaN here.
unfoldable pub number : Text → Option ℕ
unfolding digits_from
number s = digits_from 0 (trim s)

abbrev total : Option ℕ → Option ℕ → Option ℕ
total (some hour) (some min) = some (hour * 60 + min)
total _ _ = none

unfoldable pub minutes_of : List Text → Option ℕ
unfolding number
minutes_of (h ∷ m ∷ _) = total (number h) (number m)
minutes_of _ = none

-- `const [h, m] = time.split(':').map(Number); h * 60 + m`
unfoldable pub total_min : Text → Option ℕ
unfolding split_colon minutes_of
total_min time = minutes_of (split_colon time)

-- `a >= b` and `a <= b` between numbers that may be NaN
abbrev pub ge_num : Option ℕ → Option ℕ → Bool
ge_num (some a) (some b) = leb b a
ge_num _ _ = false

abbrev pub le_num : Option ℕ → Option ℕ → Bool
le_num (some a) (some b) = leb a b
le_num _ _ = false

pub record TimeRange : Type 0 where
  pub start_time : Text
  pub end_time : Text

-- `TimeRangeVO.create`: the constructor with `validate`
unfoldable pub create : Text → Text → Result TimeRange
create start_time end_time = do
  throw_if (not (time_regex start_time) || not (time_regex end_time))
      (bad_request "Invalid time format. Use HH:mm")
  throw_if (ge_num (total_min start_time) (total_min end_time))
      (bad_request "Start time must be before end time")
  ok (record { start_time = start_time; end_time = end_time })

-- `includes`: both ends belong to the range
unfoldable pub includes : TimeRange → Text → Bool
includes r time =
    ge_num (total_min time) (total_min r.start_time)
    && le_num (total_min time) (total_min r.end_time)
