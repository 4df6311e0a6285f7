-- ===== src/Catalogue/Requests.antt =====
-- The requests for new categories: once decided, never decided again.
use api_v.Base.{
  ℕ, ◌≡◌, refl, sym, ap, ◌∙◌, inl, inr, false, some, some_injective, ◌==◌, ==_iff, Bool-cases,
  true_not_false, arith,
}
use api_v.Database.Writes.{create-keeps}
use api_v.Catalogue.{Request, Client, Store, IsLawfulClient}
use api_v.Catalogue.Commands.{is_pending, new_request}
use api_v.Catalogue.Steps.{Reach, here, next, Asks, asks_nothing, asks, decides}
use api_v.Catalogue.Effects.{Step-Writes}

module _ (C : Client) (lawful : IsLawfulClient C) where
  Asks-keeps :
      (db : Store C) {requests : C.requests.State} (i : ℕ) (r : Request)
      → Asks C db requests
      → C.requests.find_unique i db.requests ≡ some r
      → is_pending r.status ≡ false
      → C.requests.find_unique i requests ≡ some r
  Asks-keeps db i r asks_nothing h e = h
  Asks-keeps db i r (asks professional_id name description) h e =
      create-keeps (λ r. r.id) C.requests lawful.requests
        (new_request professional_id name description) db.requests i r (λ i. refl) h
  Asks-keeps db i r (decides f o stored pending same_id) h e = elim (Bool-cases (o.id == i)) [
    | inl u ↦ absurd (
        true_not_false (
          sym pending
          ∙ ap (λ x. is_pending x.status)
              (some_injective (
                sym stored
                ∙ ap (λ n. C.requests.find_unique n db.requests) ((==_iff o.id i).0 u)
                ∙ h))
          ∙ e))
    | inr u ↦ lawful.requests.find_unique-update_ne o.id i f db.requests (ground arith) ∙ h
  ]

  -- A request that has been approved or rejected is found as it was decided, with its reviewer, date,
  -- note and category, after any sequence of commands.
  pub find_unique-Reach :
      {db after : Store C} (i : ℕ) (r : Request)
      → Reach C db after
      → C.requests.find_unique i db.requests ≡ some r
      → is_pending r.status ≡ false
      → C.requests.find_unique i after.requests ≡ some r
  find_unique-Reach i r here h e = h
  find_unique-Reach i r (next {mid} reach step) h e =
      Asks-keeps mid i r (Step-Writes C lawful mid step).1 (find_unique-Reach i r reach h e) e
