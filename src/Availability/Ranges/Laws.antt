-- ===== src/Availability/Ranges/Laws.antt =====
-- What `TimeRangeVO` guarantees, in minutes since midnight.
use api_v.Base.{
  ◌<◌, ◌≡◌, ◌∙◌, ◌↔◌, true, ◌&&◌, arith, leb, ltb, if◌then◌else◌, Text, ok, err, bad_request,
}
use api_v.Availability.Ranges.{time_regex, TimeRange, create, includes}
use api_v.Availability.Ranges.Printed.{
  Clock, minutes, print, time_regex-print, total_min-print, clock_of_regex,
}

-- A range whose ends are printed clock times, the first before the second.
pub record IsRange (r : TimeRange) : Type 0 where
  pub opening : Clock
  pub closing : Clock
  pub start_shows : r.start_time ≡ print opening
  pub end_shows : r.end_time ≡ print closing
  pub ordered : minutes opening < minutes closing

-- `TimeRangeVO.create` on printed times decides by their minutes alone.
pub create-print :
    (a b : Clock)
    → create (print a) (print b) ≡ (
        if ltb (minutes a) (minutes b)
        then ok (record { start_time = print a; end_time = print b })
        else err (bad_request "Start time must be before end time"))
unfolding create
create-print a b =
    ground (arith, time_regex-print a, time_regex-print b, total_min-print a, total_min-print b)

create_regex :
    (s t : Text) (r : TimeRange) → create s t ≡ ok r → (time_regex s ≡ true) × (time_regex t ≡ true)
unfolding create
create_regex s t r h = (ground arith, ground arith)

create_fields :
    (s t : Text) (r : TimeRange) → create s t ≡ ok r → (r.start_time ≡ s) × (r.end_time ≡ t)
unfolding create
create_fields s t r h = (ground arith, ground arith)

ordered_of_create :
    (a b : Clock) (r : TimeRange) → create (print a) (print b) ≡ ok r → minutes a < minutes b
ordered_of_create a b r h = ground (arith, create-print a b)

-- Whatever two texts are given, a range that is returned holds them, and they are clock times of
-- one day in strict order.
pub create-IsRange :
    (s t : Text) (r : TimeRange)
    → create s t ≡ ok r
    → IsRange r × (r.start_time ≡ s) × (r.end_time ≡ t)
create-IsRange s t r h =
    let (shape_s, shape_t) = create_regex s t r h in
    let (same_s, same_t) = create_fields s t r h in
    let (a, at_s) = clock_of_regex s shape_s in
    let (b, at_t) = clock_of_regex t shape_t in
    (
      record {
        opening = a;
        closing = b;
        start_shows = same_s ∙ at_s;
        end_shows = same_t ∙ at_t;
        ordered = ordered_of_create a b r (rw (at_s, at_t) at h);
      },
      same_s,
      same_t,
    )

-- `TimeRangeVO.create` accepts two texts exactly if they are clock times in strict order.
pub create_iff :
    (s t : Text)
    → (create s t ≡ ok (record { start_time = s; end_time = t }))
      ↔ ((a : Clock) × (b : Clock) × (s ≡ print a) × (t ≡ print b) × (minutes a < minutes b))
create_iff s t = (
  λ h.
      let v = (create-IsRange s t _ h).0 in
      (v.opening, v.closing, v.start_shows, v.end_shows, v.ordered),
  λ w. rw (w.2, w.3) (ground (arith, create-print w.0 w.1)),
)

-- A range includes the printed time exactly if its minutes lie between the two ends, both
-- included.
pub includes-print :
    (r : TimeRange) (v : IsRange r) (c : Clock)
    → includes r (print c)
      ≡ (leb (minutes v.opening) (minutes c) && leb (minutes c) (minutes v.closing))
unfolding includes
includes-print r v c = ground (
  arith,
  v.start_shows,
  v.end_shows,
  total_min-print c,
  total_min-print v.opening,
  total_min-print v.closing,
)
