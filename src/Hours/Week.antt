-- ===== src/Hours/Week.antt =====
-- The loop over the days of the week.
use api_v.Base.{
  ℕ, ◌≤◌, ◌≡◌, ◌≢◌, sym, ap, subst, ◌∙◌, Bool, true, false, inl, inr, Option, some, List, [], ◌∷◌,
  any, ◌==◌, not, ◌&&◌, ◌⊎◌, ==_iff, true_not_false, if◌then◌else◌, pos, Result, ok, first_returns,
  ok_injective, Bool-cases, arith,
}
use api_v.Availability.{Availability}
use api_v.Professional.{Professional}
use api_v.Professional.Schedule.{get_availability}
use api_v.Hours.Laws.{status_or_open, IsPut, put_day-IsPut}
use api_v.Hours.{Times, put_day, put_week, set_all_week}

-- The times of one day after another: put among the days of the loop that are not excluded, and
-- else left.
abbrev pub is_put : List ℕ → List ℕ → ℕ → Bool
is_put excluded days day = any (λ d. d == day) days && not (any (λ d. d == day) excluded)

trans-IsPut :
    {times : Times} {before mid after : Option Availability}
    → IsPut times before mid
    → IsPut times mid after
    → IsPut times before after
trans-IsPut {times} {before} h k = record {
  day = k.day;
  found = k.found;
  starts = k.starts;
  ends = k.ends;
  rests = k.rests;
  same_status = k.same_status ∙ ap status_or_open h.found ∙ h.same_status;
}

pos_injective : (m n : ℕ) → pos m ≡ pos n → m ≡ n
pos_injective m n h = ground arith

-- A day at the head of the loop that is not excluded is put.
is_put_head :
    (excluded days : List ℕ) (d day : ℕ)
    → day ≡ d
    → any (λ x. x == d) excluded ≡ false
    → is_put excluded (d ∷ days) day ≡ true
is_put_head excluded days d day e kept =
    subst (λ x. is_put excluded (d ∷ days) x ≡ true) (sym e) (ground arith)

-- A day further on that is put is put by the rest of the loop.
is_put_tail :
    (excluded days : List ℕ) (d day : ℕ)
    → is_put excluded (d ∷ days) day ≡ true
    → day ≢ d
    → is_put excluded days day ≡ true
is_put_tail excluded days d day h n = ground arith

abbrev week : List ℕ
week = 0 ∷ 1 ∷ 2 ∷ 3 ∷ 4 ∷ 5 ∷ 6 ∷ []

module _ (now : ℕ) (new_id : ℕ → ℕ) (excluded : List ℕ) (times : Times) where
  abbrev turn : ℕ → Professional → Result Professional
  turn d p = if any (λ x. x == d) excluded then ok p else put_day now (new_id d) (pos d) times p

  turn-left :
      (d day : ℕ) (p mid : Professional)
      → turn d p ≡ ok mid
      → (any (λ x. x == d) excluded ≡ true) ⊎ (day ≢ d)
      → get_availability (pos day) mid ≡ get_availability (pos day) p
  turn-left d day p mid h c = elim (Bool-cases (any (λ x. x == d) excluded)) [
    | inl out ↦ ap (get_availability (pos day)) (sym (ok_injective (rw out at h)))
    | inr kept ↦
        (put_day-IsPut now (new_id d) (pos d) times p mid (rw kept at h)).1 (pos day) (λ same.
          elim c [
            | inl out ↦ true_not_false (sym out ∙ kept)
            | inr other ↦ other (pos_injective day d same)
          ])
  ]

  put_week-left :
      (days : List ℕ) (day : ℕ) (p q : Professional)
      → put_week now new_id excluded times days p ≡ ok q
      → is_put excluded days day ≡ false
      → get_availability (pos day) q ≡ get_availability (pos day) p
  unfolding put_week
  put_week-left [] day p q h n = ap (get_availability (pos day)) (sym (ok_injective h))
  put_week-left (d ∷ days) day p q h n =
      let (mid, first, rest) = first_returns (turn d p) _ h in
      put_week-left days day mid q rest (ground arith)
      ∙ turn-left d day p mid first (elim (Bool-cases (any (λ x. x == d) excluded)) [
        | inl out ↦ inl out
        | inr kept ↦ inr (λ e. true_not_false (sym (is_put_head excluded days d day e kept) ∙ n))
      ])

  put_week-IsPut :
      (days : List ℕ) (day : ℕ) (p q : Professional)
      → put_week now new_id excluded times days p ≡ ok q
      → is_put excluded days day ≡ true
      → IsPut times (get_availability (pos day) p) (get_availability (pos day) q)
  unfolding put_week
  put_week-IsPut [] day p q h t = absurd (true_not_false (sym t))
  put_week-IsPut (d ∷ days) day p q h t =
      let (mid, first, rest) = first_returns (turn d p) _ h in
      let further = put_week-IsPut days day mid q rest in
      elim (Bool-cases (day == d)) [
        | inl e ↦
            let on = (==_iff day d).0 e in
            let kept : any (λ x. x == d) excluded ≡ false =
              subst (λ x. any (λ y. y == x) excluded ≡ false) on (ground arith) in
            let now_put : IsPut times (get_availability (pos day) p)
                (get_availability (pos day) mid) =
              subst (λ x. IsPut times (get_availability (pos x) p) (get_availability (pos x) mid))
                (sym on) (put_day-IsPut now (new_id d) (pos d) times p mid (rw kept at first)).0 in
            elim (Bool-cases (is_put excluded days day)) [
              | inl again ↦ trans-IsPut now_put (further again)
              | inr done ↦
                  subst (IsPut times (get_availability (pos day) p))
                    (sym (put_week-left days day mid q rest done)) now_put
            ]
        | inr e ↦
            let other : day ≢ d = ground arith in
            subst (λ o. IsPut times o (get_availability (pos day) q))
              (turn-left d day p mid first (inr other))
              (further (is_put_tail excluded days d day t other))
      ]

  -- When the command for the whole week returns, each of the seven days either is excluded and finds
  -- what it found before, or is not and has the times and the break of the command and the status that it had,
  -- open if it was not there.
  pub set_all_week-IsPut :
      (p q : Professional) (day : ℕ)
      → day ≤ 6
      → set_all_week now new_id (some excluded) times (some p) ≡ ok q
      → ((any (λ d. d == day) excluded ≡ true)
          × (get_availability (pos day) q ≡ get_availability (pos day) p))
        ⊎ ((any (λ d. d == day) excluded ≡ false)
            × IsPut times (get_availability (pos day) p) (get_availability (pos day) q))
  unfolding set_all_week
  set_all_week-IsPut p q day l h = elim (Bool-cases (any (λ d. d == day) excluded)) [
    | inl out ↦ inl (out, put_week-left week day p q h (ground arith))
    | inr kept ↦ inr (kept, put_week-IsPut week day p q h (ground arith))
  ]
