-- ===== src/Booking/Creation/Accepting.antt =====
-- When the professional's own state lets a booking through.
use api_v.Base.{ℕ, ◌≡◌, ◌≤◌, ◌↔◌, refl, true, Option, none, some, ok, arith}
use api_v.Professional.{active}
use api_v.Booking.{ProfessionalRow}
use api_v.Booking.Creation.{check_accepting}

-- The checks of the professional pass exactly where it is verified, active and accepting bookings,
-- and a pause, if there is one, is over.
pub check_accepting_iff :
    (now : ℕ) (p : ProfessionalRow)
    → (check_accepting now p ≡ ok tt) ↔ (
        (p.is_verified ≡ true)
        × (p.status ≡ active)
        × (p.is_accepting_bookings ≡ true)
        × ((until : ℕ) → p.bookings_paused_until ≡ some until → until ≤ now))
unfolding check_accepting
check_accepting_iff now p = go p.bookings_paused_until refl
  where
    go :
        (o : Option ℕ)
        → p.bookings_paused_until ≡ o
        → (check_accepting now p ≡ ok tt) ↔ (
            (p.is_verified ≡ true)
            × (p.status ≡ active)
            × (p.is_accepting_bookings ≡ true)
            × ((until : ℕ) → p.bookings_paused_until ≡ some until → until ≤ now))
    go none e = (
      (λ h. (ground arith, ground arith, ground arith, λ u k. ground arith)),
      λ (v, s, a, w). ground arith,
    )
    go (some u) e = (
      (λ h. (ground arith, ground arith, ground arith, λ u k. ground arith)),
      λ (v, s, a, w). ground (arith, w u e),
    )
