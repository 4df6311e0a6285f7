-- ===== src/Sentinel/Accounts.antt =====
-- What the look-up of an account answers.
use api_v.Base.{
  ℕ, ◌≡◌, refl, sym, ap, subst, ◌∙◌, true, false, is_empty, not, ◌&&◌, Option, none, some,
  some_injective, is_some, ◌==◌, ==_iff, arith,
}
use api_v.Sentinel.{
  UserRow, SecretRow, UserEntity, Client, Store, IsLawfulClient, with_secret, has_pin, find_by_id,
}

module _ (C : Client) (lawful : IsLawfulClient C) where
  -- The account that was found has the key and the secret of the key.
  pub find_by_id_lem :
      (id : ℕ) (db : Store C) (u : UserEntity)
      → find_by_id C id db ≡ some u
      → (u.user.id ≡ id) × (u.client_secret ≡ C.secrets.find_unique u.user.id db.secrets)
  unfolding find_by_id
  find_by_id_lem id db u h =
      go
        (C.users.find_first (λ u. u.id == id && not (is_some u.deleted_at) && u.is_active) db.users)
        refl h
    where
      first_of :
          (x : UserRow)
          → (x.id == id && not (is_some x.deleted_at) && x.is_active) ≡ true
          → (x.id == id) ≡ true
      first_of x e = ground arith

      go :
          (o : Option UserRow)
          → C.users.find_first
              (λ u. u.id == id && not (is_some u.deleted_at) && u.is_active)
              db.users
            ≡ o
          → with_secret C db o ≡ some u
          → (u.user.id ≡ id) × (u.client_secret ≡ C.secrets.find_unique u.user.id db.secrets)
      go none e k = cc
      go (some x) e k = (
        ap (λ u. u.user.id) (sym (some_injective k))
            ∙ (==_iff x.id id).0 (first_of x (lawful.users.find_first_some _ db.users x e).0),
        subst (λ u. u.client_secret ≡ C.secrets.find_unique u.user.id db.secrets) (some_injective k)
            refl,
      )

-- A user with a PIN has a secret.
pub secret_of_pin :
    (u : UserEntity) → has_pin u ≡ true → (s : SecretRow) × (u.client_secret ≡ some s)
secret_of_pin u h = go u.client_secret refl h
  where
    go :
        (o : Option SecretRow)
        → u.client_secret ≡ o
        → elim o [ none ↦ false | some s ↦ not (is_empty s.secret_hash) ] ≡ true
        → (s : SecretRow) × (u.client_secret ≡ some s)
    go none e k = cc
    go (some s) e k = (s, e)
