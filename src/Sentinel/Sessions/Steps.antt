-- ===== src/Sentinel/Sessions/Steps.antt =====
-- The table of refresh tokens over any sequence of calls: a token is never lost, a revoked one stays
-- revoked, and no two have the same hash.
use api_v.Base.{
  ℕ, ◌≡◌, refl, sym, ap, ◌∙◌, inl, inr, Bool, true, false, Option, none, some, Text, same, same_iff,
  ◌==◌, if◌then◌else◌, ok, true_not_false, arith,
}
use api_v.Database.{changed_if}
use api_v.Database.Writes.{
  changed_from, find_unique-update_if, find_unique-create_cases, create-keeps,
}
use api_v.Sentinel.{TokenRow, Client, Store, IsLawfulClient}
use api_v.Sentinel.Sessions.{
  TokenData, new_token, revoked, used_at, is_open_of, find_by_hash, revoke_all_for_user, create,
  refresh, logout, revoke_session,
}

-- The calls that write tokens, whatever they answer, and any call that writes other tables only.
pub data Step (C : Client) (db : Store C) : Store C → Type 0 where
  step_create : (now : ℕ) (props : TokenData) → Step C db (create C now props db).1
  step_refresh : (now : ℕ) (raw fresh : Text) → Step C db (refresh C now raw fresh db).1
  step_logout :
      (all_devices : Bool) (user_id : ℕ) (raw : Option Text)
      → Step C db (logout C all_devices user_id raw db)
  step_revoke :
      (session_id user_id : ℕ) (after : Store C)
      → revoke_session C session_id user_id db ≡ ok after
      → Step C db after
  step_other :
      (phones : C.phones.State) (users : C.users.State) (secrets : C.secrets.State)
      → Step C db (record db { phones = phones; users = users; secrets = secrets })

pub data Reach (C : Client) (db : Store C) : Store C → Type 0 where
  here : Reach C db db
  next : {mid after : Store C} → Reach C db mid → Step C mid after → Reach C db after

-- The same token at a later time.
pub record IsLater (t u : TokenRow) : Type 0 where
  pub user : u.user_id ≡ t.user_id
  pub hash : u.token_hash ≡ t.token_hash
  pub expiry : u.expires_at ≡ t.expires_at
  pub stays_revoked : t.is_revoked ≡ true → u.is_revoked ≡ true

pub unchanged : (t : TokenRow) → IsLater t t
unchanged t = record { user = refl; hash = refl; expiry = refl; stays_revoked = λ h. h }

pub later_again : (t u v : TokenRow) → IsLater t u → IsLater u v → IsLater t v
later_again t u v a b = record {
  user = b.user ∙ a.user;
  hash = b.hash ∙ a.hash;
  expiry = b.expiry ∙ a.expiry;
  stays_revoked = λ h. b.stays_revoked (a.stays_revoked h);
}

-- The writes of one row.
pub data Touch : (TokenRow → TokenRow) → Type 0 where
  revokes : Touch revoked
  uses : (now : ℕ) → Touch (used_at now)

touched : {f : TokenRow → TokenRow} → Touch f → (t : TokenRow) → IsLater t (f t)
touched revokes t = record { user = refl; hash = refl; expiry = refl; stays_revoked = λ h. refl }
touched (uses now) t = record { user = refl; hash = refl; expiry = refl; stays_revoked = λ h. h }

touched_id : {f : TokenRow → TokenRow} → Touch f → (t : TokenRow) → (f t).id ≡ t.id
touched_id revokes t = refl
touched_id (uses now) t = refl

touched_if :
    {f : TokenRow → TokenRow}
    → Touch f
    → (b : Bool) (t : TokenRow) → IsLater t (if b then f t else t)
touched_if w true t = touched w t
touched_if w false t = unchanged t

pub data Effect (C : Client) (db : Store C) : Store C → Type 0 where
  adds :
      (now : ℕ) (props : TokenData)
      → find_by_hash C props.token_hash db ≡ none
      → Effect C db (record db { tokens = (C.tokens.create (new_token now props) db.tokens).1 })
  touches :
      {f : TokenRow → TokenRow} (t : TokenRow)
      → Touch f
      → C.tokens.find_unique t.id db.tokens ≡ some t
      → Effect C db (record db { tokens = C.tokens.update t.id f db.tokens })
  clears : (user_id : ℕ) → Effect C db (revoke_all_for_user C user_id db)
  elsewhere :
      (phones : C.phones.State) (users : C.users.State) (secrets : C.secrets.State)
      → Effect C db (record db { phones = phones; users = users; secrets = secrets })

pub data Effects (C : Client) (db : Store C) : Store C → Type 0 where
  done : Effects C db db
  and_then : {mid after : Store C} → Effects C db mid → Effect C mid after → Effects C db after

-- No two tokens have the same hash.
unfoldable pub IsDistinct : (C : Client) → Store C → Type 0
IsDistinct C db =
    (i j : ℕ) (t u : TokenRow)
    → C.tokens.find_unique i db.tokens ≡ some t
    → C.tokens.find_unique j db.tokens ≡ some u
    → t.token_hash ≡ u.token_hash
    → i ≡ j

module _ (C : Client) (lawful : IsLawfulClient C) where
  pub Effect-IsLater :
      {db after : Store C} (i : ℕ) (t : TokenRow)
      → Effect C db after
      → C.tokens.find_unique i db.tokens ≡ some t
      → (u : TokenRow) × (C.tokens.find_unique i after.tokens ≡ some u) × IsLater t u
  Effect-IsLater {db} i t (adds now props e) h = (
    t,
    create-keeps (λ t. t.id) C.tokens lawful.tokens _ db.tokens i t (λ i. refl) h,
    unchanged t,
  )
  Effect-IsLater {db} i t (touches {f} o w k) h = (
    if t.id == o.id then f t else t,
    find_unique-update_if (λ t. t.id) C.tokens lawful.tokens o.id f db.tokens o i k (touched_id w)
        ∙ ap (changed_if (λ x. x.id == o.id) f) h
        ∙ ground arith,
    touched_if w (t.id == o.id) t,
  )
  Effect-IsLater {db} i t (clears user_id) h = (
    if is_open_of user_id t then revoked t else t,
    lawful.tokens.find_unique-update_many (is_open_of user_id) revoked db.tokens i (λ x. refl)
        ∙ ap (changed_if (is_open_of user_id) revoked) h
        ∙ ground arith,
    touched_if revokes (is_open_of user_id t) t,
  )
  Effect-IsLater i t (elsewhere phones users secrets) h = (t, h, unchanged t)

  -- A row after a change comes from a row with its hash.
  came_from :
      {f : TokenRow → TokenRow} (p : TokenRow → Bool) (w : Touch f) (o : Option TokenRow)
      (t : TokenRow)
      → changed_if p f o ≡ some t
      → (q : TokenRow) × (o ≡ some q) × (t.token_hash ≡ q.token_hash)
  came_from {f} p w o t h =
      let (q, k, e) = changed_from p f o t h in
      (q, k, ap (λ t. t.token_hash) e ∙ (touched_if w (p q) q).hash)

  same_hashes :
      {f : TokenRow → TokenRow} (db after : Store C) (p : TokenRow → Bool) (w : Touch f)
      → ((i : ℕ)
          → C.tokens.find_unique i after.tokens ≡ changed_if p f (C.tokens.find_unique i db.tokens))
      → IsDistinct C db
      → IsDistinct C after
  unfolding IsDistinct
  same_hashes db after p w at distinct i j t u h k s =
      let (q, a, e) = came_from p w _ t (sym (at i) ∙ h) in
      let (r, b, d) = came_from p w _ u (sym (at j) ∙ k) in distinct i j q r a b (sym e ∙ s ∙ d)

  not_there :
      (hash : Text) (db : Store C) (i : ℕ) (t : TokenRow)
      → find_by_hash C hash db ≡ none
      → C.tokens.find_unique i db.tokens ≡ some t
      → t.token_hash ≡ hash
      → ⊥
  not_there hash db i t e h s = true_not_false (
      sym ((same_iff t.token_hash hash).1 s)
      ∙ lawful.tokens.find_first_none (λ t. same t.token_hash hash) db.tokens i t e h)

  pub Effect-IsDistinct :
      {db after : Store C} → Effect C db after → IsDistinct C db → IsDistinct C after
  unfolding IsDistinct
  Effect-IsDistinct {db} (adds now props e) distinct i j t u h k s =
      let at =
        find_unique-create_cases (λ t. t.id) C.tokens lawful.tokens (new_token now props)
          db.tokens in
      elim (at i t (λ i. refl) h) [
        | inl (a, b) ↦ elim (at j u (λ i. refl) k) [
          | inl (c, d) ↦ sym b ∙ d
          | inr w ↦
              absurd (not_there props.token_hash db j u e w (sym s ∙ ap (λ t. t.token_hash) a))
        ]
        | inr v ↦ elim (at j u (λ i. refl) k) [
          | inl (c, d) ↦
              absurd (not_there props.token_hash db i t e v (s ∙ ap (λ t. t.token_hash) c))
          | inr w ↦ distinct i j t u v w s
        ]
      ]
  Effect-IsDistinct {db} (touches {f} o w k) distinct i j t u h l s =
      same_hashes db (record db { tokens = C.tokens.update o.id f db.tokens }) (λ x. x.id == o.id) w
        (λ i.
          find_unique-update_if (λ t. t.id) C.tokens lawful.tokens o.id f db.tokens o i k
            (touched_id w))
        distinct i j t u h l s
  Effect-IsDistinct {db} (clears user_id) distinct i j t u h l s =
      same_hashes db (revoke_all_for_user C user_id db) (is_open_of user_id) revokes
        (λ i.
          lawful.tokens.find_unique-update_many (is_open_of user_id) revoked db.tokens i
            (λ x. refl))
        distinct i j t u h l s
  Effect-IsDistinct (elsewhere phones users secrets) distinct i j t u h k s = distinct i j t u h k s
