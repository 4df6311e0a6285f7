-- ===== src/Database.antt =====
-- libs/database: the database client as a parameter. A table is a state that the handlers reach
-- through a few calls only; what they rely on is in `IsLawful`. Calls run one after another.
pub mod Memory
pub mod Keys
pub mod Queries
pub mod Writes
use api_v.Base.{
  ℕ, ◌≡◌, ◌≢◌, Bool, true, false, Option, none, some, List, [], ◌∷◌, ◌+◌, if◌then◌else◌, ◌==◌, any,
  Every,
}

-- The calls of one model of the client. The test stands for the `where` clause, the change for the
-- `data` of an update; a created row gets its key from the database.
pub record Table (Row : Type 0) : Type 1 where
  pub State : Type 0
  pub find_unique : ℕ → State → Option Row
  pub find_first : (Row → Bool) → State → Option Row
  pub find_many : (Row → Bool) → State → List Row
  pub update : ℕ → (Row → Row) → State → State
  pub create : (ℕ → Row) → State → Row × State
  pub update_many : (Row → Bool) → (Row → Row) → State → State

-- The row that was found, if it passes a test.
abbrev pub passing : {Row : Type 0} → (Row → Bool) → Option Row → Option Row
passing t none = none
passing t (some r) = if t r then some r else none

-- The row that was found, changed if it passes a test.
abbrev pub changed_if : {Row : Type 0} → (Row → Bool) → (Row → Row) → Option Row → Option Row
changed_if p f none = none
changed_if p f (some r) = if p r then some (f r) else some r

-- The sum of a number over rows.
abbrev pub total : {Row : Type 0} → (Row → ℕ) → List Row → ℕ
total w [] = 0
total w (r ∷ rows) = w r + total w rows

-- What the documentation of the client promises of these calls.
pub record IsLawful {Row : Type 0} (key : Row → ℕ) (T : Table Row) : Type 0 where
  pub find_unique_key : (i : ℕ) (s : T.State) (r : Row) → T.find_unique i s ≡ some r → key r ≡ i
  pub find_first_some :
      (p : Row → Bool) (s : T.State) (r : Row)
      → T.find_first p s ≡ some r
      → (p r ≡ true) × (T.find_unique (key r) s ≡ some r)
  pub find_first_none :
      (p : Row → Bool) (s : T.State) (i : ℕ) (r : Row)
      → T.find_first p s ≡ none
      → T.find_unique i s ≡ some r
      → p r ≡ false
  pub find_many_passes :
      (p : Row → Bool) (s : T.State)
      → Every (λ r. (p r ≡ true) × (T.find_unique (key r) s ≡ some r)) (T.find_many p s)
  pub find_many_all :
      (p : Row → Bool) (s : T.State) (i : ℕ) (r : Row)
      → T.find_unique i s ≡ some r
      → p r ≡ true
      → any (λ q. key q == i) (T.find_many p s) ≡ true
  pub find_unique-update :
      (i : ℕ) (f : Row → Row) (s : T.State) (r : Row)
      → T.find_unique i s ≡ some r
      → key (f r) ≡ i
      → T.find_unique i (T.update i f s) ≡ some (f r)
  pub find_unique-update_ne :
      (i j : ℕ) (f : Row → Row) (s : T.State)
      → i ≢ j
      → T.find_unique j (T.update i f s) ≡ T.find_unique j s
  pub create_row :
      (f : ℕ → Row) (s : T.State)
      → ((i : ℕ) → key (f i) ≡ i)
      → ((T.create f s).0 ≡ f (key (T.create f s).0))
        × (T.find_unique (key (T.create f s).0) s ≡ none)
        × (T.find_unique (key (T.create f s).0) (T.create f s).1 ≡ some (T.create f s).0)
  pub create_ne :
      (f : ℕ → Row) (s : T.State) (j : ℕ)
      → ((i : ℕ) → key (f i) ≡ i)
      → key (T.create f s).0 ≢ j
      → T.find_unique j (T.create f s).1 ≡ T.find_unique j s
  pub find_unique-update_many :
      (p : Row → Bool) (f : Row → Row) (s : T.State) (i : ℕ)
      → ((r : Row) → key (f r) ≡ key r)
      → T.find_unique i (T.update_many p f s) ≡ changed_if p f (T.find_unique i s)
  pub find_many_total :
      (p : Row → Bool) (w : Row → ℕ) (s t : T.State)
      → ((i : ℕ) → passing p (T.find_unique i s) ≡ passing p (T.find_unique i t))
      → total w (T.find_many p s) ≡ total w (T.find_many p t)
