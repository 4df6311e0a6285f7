-- ===== src/Review/Runs.antt =====
-- Reviews over their whole life: every call of a handler or of the scheduler that returns is a step
-- of the database.
use api_v.Base.{ℕ, ◌≡◌, Bool, true, false, Option, none, some, ok, ◌==◌, if◌then◌else◌}
use api_v.Booking.{Booking, is_completed}
use api_v.Review.{RatedRow, ReviewSession, Client, Store, IsLawfulClient}
use api_v.Review.Submission.{SubmitCommand, submit_review}
use api_v.Review.Editing.{EditCommand, edit_review}
use api_v.Review.Opening.{
  on_completed, on_cancelled, on_approved, open_session, upsert_session, record_cancellation,
  recorded_by, record_approval,
}
use api_v.Review.Expiry.{reveal_expired}
use api_v.Review.Effects.{opens, notes, Effects, done, and_then}
use api_v.Review.Effects.Filed.{IsFiled, Effect-IsFiled}
use api_v.Review.Effects.Blind.{IsBlind, Effect-IsBlind}
use api_v.Review.Effects.Summed.{IsSummed, Effect-IsSummed}
use api_v.Review.Effects.Submitting.{submit_review-Effects, edit_review-Effect}
use api_v.Review.Effects.Expiring.{reveal_expired-Effects}

pub data Step (C : Client) (db : Store C) : Store C → Type 0 where
  step_submit :
      (now later : ℕ) (command : SubmitCommand) (id : ℕ) (after : Store C)
      → submit_review C now later command db ≡ ok (id, after)
      → Step C db after
  step_edit :
      (now : ℕ) (command : EditCommand) (after : Store C)
      → edit_review C now command db ≡ ok after
      → Step C db after
  step_completed : (now booking_id : ℕ) → Step C db (on_completed C now booking_id db)
  step_cancelled :
      (booking_id : ℕ) (user_id : Option ℕ) → Step C db (on_cancelled C booking_id user_id db)
  step_approved : (booking_id : ℕ) → Step C db (on_approved C booking_id db)
  step_expire : (now : ℕ) → Step C db (reveal_expired C now db)

pub data Reach (C : Client) (db : Store C) : Store C → Type 0 where
  here : Reach C db db
  next : {mid after : Store C} → Reach C db mid → Step C mid after → Reach C db after

module _ (C : Client) (lawful : IsLawfulClient C) where
  Effects-IsFiled : {db after : Store C} → Effects C db after → IsFiled C db → IsFiled C after
  Effects-IsFiled done filed = filed
  Effects-IsFiled (and_then es e) filed = Effect-IsFiled C lawful e (Effects-IsFiled es filed)

  joined : {db mid after : Store C} → Effects C db mid → Effects C mid after → Effects C db after
  joined before done = before
  joined before (and_then es e) = and_then (joined before es) e

  on_completed-Effects :
      (now booking_id : ℕ) (db : Store C) → Effects C db (on_completed C now booking_id db)
  unfolding on_completed
  on_completed-Effects now booking_id db = go (C.bookings.find_unique booking_id db.bookings)
    where
      upserted : (o : Option ReviewSession) → Effects C db (upsert_session C now booking_id o db)
      upserted none = and_then done (opens now booking_id)
      upserted (some s) = done

      go : (o : Option Booking) → Effects C db (open_session C now booking_id o db)
      go none = done
      go (some b) = ifs (is_completed b.status)
        where
          ifs :
              (t : Bool)
              → Effects C db (
                  if t
                  then upsert_session C now booking_id
                      (C.sessions.find_first (λ s. s.booking_id == booking_id) db.sessions)
                      db
                  else db)
          ifs true = upserted _
          ifs false = done

  on_cancelled-Effects :
      (booking_id : ℕ) (user_id : Option ℕ) (db : Store C)
      → Effects C db (on_cancelled C booking_id user_id db)
  unfolding on_cancelled
  on_cancelled-Effects booking_id user_id db =
      go user_id (C.bookings.find_unique booking_id db.bookings)
    where
      go : (u : Option ℕ) (o : Option Booking) → Effects C db (record_cancellation C u o db)
      go u none = done
      go none (some b) = done
      go (some u) (some b) = by (C.professionals.find_unique b.professional_id db.professionals)
        where
          by : (o : Option (RatedRow C.Number)) → Effects C db (recorded_by C u b o db)
          by none = done
          by (some p) = and_then done (notes _)

  on_approved-Effects : (booking_id : ℕ) (db : Store C) → Effects C db (on_approved C booking_id db)
  unfolding on_approved
  on_approved-Effects booking_id db = go (C.bookings.find_unique booking_id db.bookings)
    where
      go : (o : Option Booking) → Effects C db (record_approval C o db)
      go none = done
      go (some b) = and_then done (notes _)

  -- Every step is a sequence of writes.
  Step-Effects : {db after : Store C} → Step C db after → IsFiled C db → Effects C db after
  Step-Effects {db} (step_submit now later command id after e) filed =
      submit_review-Effects C lawful db now command later id after e
  Step-Effects {db} (step_edit now command after e) filed =
      and_then done (edit_review-Effect C lawful db now command after e)
  Step-Effects {db} (step_completed now booking_id) filed = on_completed-Effects now booking_id db
  Step-Effects {db} (step_cancelled booking_id user_id) filed =
      on_cancelled-Effects booking_id user_id db
  Step-Effects {db} (step_approved booking_id) filed = on_approved-Effects booking_id db
  Step-Effects {db} (step_expire now) filed = reveal_expired-Effects C lawful now db filed

  pub Reach-Effects : {db after : Store C} → Reach C db after → IsFiled C db → Effects C db after
  Reach-Effects here filed = done
  Reach-Effects (next r st) filed =
      let before = Reach-Effects r filed in
      joined before (Step-Effects st (Effects-IsFiled before filed))

  -- The reviews stay filed, whatever calls follow.
  pub Reach-IsFiled : (db after : Store C) → Reach C db after → IsFiled C db → IsFiled C after
  Reach-IsFiled db after r filed = Effects-IsFiled (Reach-Effects r filed) filed

  -- If the reviews are filed and a live review can be seen exactly where its session has been
  -- revealed, as in an empty table, then this stays so whatever calls follow: no review is shown
  -- before its session is revealed, and none stays hidden after.
  pub Reach-IsBlind :
      (db after : Store C) → Reach C db after → IsFiled C db → IsBlind C db → IsBlind C after
  Reach-IsBlind db after r filed blind = go (Reach-Effects r filed)
    where
      go : {after : Store C} → Effects C db after → IsBlind C after
      go done = blind
      go (and_then es e) = Effect-IsBlind C lawful e (Effects-IsFiled es filed) (go es)

  -- If the reviews are filed and the stored rating and number of reviews of every professional are
  -- the mean and the count over the live, visible reviews of clients for that professional (the mean
  -- being 0 where there is none), then this stays so whatever calls follow.
  pub Reach-IsSummed :
      (db after : Store C) → Reach C db after → IsFiled C db → IsSummed C db → IsSummed C after
  Reach-IsSummed db after r filed summed = go (Reach-Effects r filed)
    where
      go : {after : Store C} → Effects C db after → IsSummed C after
      go done = summed
      go (and_then es e) = Effect-IsSummed C lawful e (Effects-IsFiled es filed) (go es)
