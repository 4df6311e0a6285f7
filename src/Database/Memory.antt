-- ===== src/Database/Memory.antt =====
-- A table in memory: numbered slots, of which the first `size` are in use. It meets the laws.
use api_v.Base.{
  ℕ, ◌+◌, ◌∙◌, zero, suc, ◌<◌, ◌≡◌, ◌≢◌, refl, subst, ap, sym, inl, inr, Bool, true, false, Option,
  none, some, List, [], ◌∷◌, ltb, ◌==◌, if◌then◌else◌, any, Every, arith, Bool-cases,
}
use api_v.Database.{Table, IsLawful, passing, changed_if, total}

same_key : (i : ℕ) → (i == i) ≡ true
same_key i = ground arith

other_key : (i j : ℕ) → i ≢ j → (j == i) ≡ false
other_key i j n = ground arith

module _ {Row : Type 0} (key : Row → ℕ) where
  pub record Slots : Type 0 where
    pub size : ℕ
    pub slot : ℕ → Option Row

  -- A slot counts where its row has the slot's number as its key.
  abbrev checked : ℕ → Option Row → Option Row
  checked i none = none
  checked i (some r) = if key r == i then some r else none

  abbrev get : ℕ → Slots → Option Row
  get i s = if ltb i s.size then checked i (s.slot i) else none

  abbrev consed : (Row → Bool) → Option Row → List Row → List Row
  consed p none rest = rest
  consed p (some r) rest = if p r then r ∷ rest else rest

  abbrev collect : (Row → Bool) → ℕ → Slots → List Row
  collect p zero s = []
  collect p (suc n) s = consed p (get n s) (collect p n s)

  abbrev head : List Row → Option Row
  head [] = none
  head (r ∷ _) = some r

  abbrev mapped : (Row → Row) → Option Row → Option Row
  mapped f none = none
  mapped f (some r) = some (f r)

  abbrev pub memory : Table Row
  memory = record {
    State = Slots;
    find_unique = get;
    find_first = λ p s. head (collect p s.size s);
    find_many = λ p s. collect p s.size s;
    update = λ i f s. record {
      size = s.size;
      slot = λ j. if j == i then mapped f (s.slot j) else s.slot j;
    };
    create = λ f s. (
      f s.size,
      record { size = suc s.size; slot = λ j. if j == s.size then some (f s.size) else s.slot j },
    );
    update_many = λ p f s. record { size = s.size; slot = λ j. changed_if p f (s.slot j) };
  }

  get-key : (i : ℕ) (s : Slots) (r : Row) → get i s ≡ some r → key r ≡ i
  get-key i s r h = go (s.slot i) h
    where
      go : (o : Option Row) → (if ltb i s.size then checked i o else none) ≡ some r → key r ≡ i
      go none e = ground arith
      go (some q) e = ground arith

  get-below : (i : ℕ) (s : Slots) (r : Row) → get i s ≡ some r → i < s.size
  get-below i s r h = ground arith

  Every-consed :
      (p : Row → Bool) (n : ℕ) (s : Slots) (o : Option Row) (rest : List Row)
      → get n s ≡ o
      → Every (λ r. (p r ≡ true) × (get (key r) s ≡ some r)) rest
      → Every (λ r. (p r ≡ true) × (get (key r) s ≡ some r)) (consed p o rest)
  Every-consed p n s none rest e h = h
  Every-consed p n s (some r) rest e h = elim (Bool-cases (p r)) [
    | inl t ↦ rw t ((t, rw (get-key n s r e) e), h)
    | inr t ↦ rw t h
  ]

  collect-passes :
      (p : Row → Bool) (n : ℕ) (s : Slots)
      → Every (λ r. (p r ≡ true) × (get (key r) s ≡ some r)) (collect p n s)
  collect-passes p zero s = tt
  collect-passes p (suc n) s = Every-consed p n s (get n s) _ refl (collect-passes p n s)

  any-consed :
      (p q : Row → Bool) (o : Option Row) (rest : List Row)
      → any q rest ≡ true
      → any q (consed p o rest) ≡ true
  any-consed p q none rest h = h
  any-consed p q (some r) rest h = ground arith

  any-consed_self :
      (p q : Row → Bool) (o : Option Row) (r : Row) (rest : List Row)
      → o ≡ some r
      → p r ≡ true
      → q r ≡ true
      → any q (consed p o rest) ≡ true
  any-consed_self p q o r rest e t u = rw (e, t) (ground arith)

  collect-all :
      (p : Row → Bool) (n : ℕ) (s : Slots) (i : ℕ) (r : Row)
      → get i s ≡ some r
      → p r ≡ true
      → i < n
      → any (λ q. key q == i) (collect p n s) ≡ true
  collect-all p zero s i r h t l = absurd (omega arith)
  collect-all p (suc n) s i r h t l = elim (Bool-cases (i == n)) [
    | inl e ↦
        any-consed_self p (λ q. key q == i) (get n s) r _
          (subst (λ m. get m s ≡ some r) (ground arith) h) t (ground (arith, get-key i s r h))
    | inr e ↦ any-consed p (λ q. key q == i) (get n s) _ (collect-all p n s i r h t (ground arith))
  ]

  head_passes :
      (p : Row → Bool) (s : Slots) (rows : List Row) (r : Row)
      → Every (λ r. (p r ≡ true) × (get (key r) s ≡ some r)) rows
      → head rows ≡ some r
      → (p r ≡ true) × (get (key r) s ≡ some r)
  head_passes p s [] r h e = cc
  head_passes p s (q ∷ rows) r h e =
      subst (λ r. (p r ≡ true) × (get (key r) s ≡ some r)) (ground arith) h.0

  none_of_head : (q : Row → Bool) (rows : List Row) → head rows ≡ none → any q rows ≡ false
  none_of_head q [] e = refl
  none_of_head q (r ∷ rows) e = cc

  found :
      (i size : ℕ) (q r : Row)
      → (if ltb i size then (if key q == i then some q else none) else none) ≡ some r
      → q ≡ r
  found i size q r e = ground arith

  checked-mapped :
      (i size : ℕ) (f : Row → Row) (o : Option Row) (r : Row)
      → (if ltb i size then checked i o else none) ≡ some r
      → key (f r) ≡ i
      → (if ltb i size then checked i (mapped f o) else none) ≡ some (f r)
  checked-mapped i size f none r e k = ground arith
  checked-mapped i size f (some q) r e k =
      subst (λ x. (if ltb i size then (if key x == i then some x else none) else none) ≡ some (f r))
        (ap f (sym (found i size q r e))) (ground arith)

  get-slot :
      (s : Slots) (slot : ℕ → Option Row) (r : Row)
      → key r ≡ s.size
      → slot s.size ≡ some r
      → get s.size (record { size = suc s.size; slot = slot }) ≡ some r
  get-slot s slot r k e = rw e (ground arith)

  checked-changed_if :
      (p : Row → Bool) (f : Row → Row) (i size : ℕ) (o : Option Row)
      → ((r : Row) → key (f r) ≡ key r)
      → (if ltb i size then checked i (changed_if p f o) else none)
        ≡ changed_if p f (if ltb i size then checked i o else none)
  checked-changed_if p f i size none k = ground arith
  checked-changed_if p f i size (some r) k = ground (arith, k r)

  abbrev weight : (Row → ℕ) → Option Row → ℕ
  weight w none = 0
  weight w (some r) = w r

  total-consed :
      (p : Row → Bool) (w : Row → ℕ) (o : Option Row) (rest : List Row)
      → total w (consed p o rest) ≡ weight w (passing p o) + total w rest
  total-consed p w none rest = ground arith
  total-consed p w (some r) rest = ground arith

  -- The slots past the size add nothing.
  total-collect_past :
      (p : Row → Bool) (w : Row → ℕ) (s : Slots) (k : ℕ)
      → total w (collect p (k + s.size) s) ≡ total w (collect p s.size s)
  total-collect_past p w s zero = ap (λ n. total w (collect p n s)) (zero_add s.size)
    where
      zero_add : (m : ℕ) → 0 + m ≡ m
      zero_add m = omega arith
  total-collect_past p w s (suc k) =
      ap (λ n. total w (collect p n s)) (suc_add k s.size)
      ∙ rw (past k s) (total-collect_past p w s k)
    where
      suc_add : (j m : ℕ) → suc j + m ≡ suc (j + m)
      suc_add j m = omega arith

      past : (k : ℕ) (s : Slots) → get (k + s.size) s ≡ none
      past k s = ground arith

  total-collect :
      (p : Row → Bool) (w : Row → ℕ) (n : ℕ) (s t : Slots)
      → ((i : ℕ) → passing p (get i s) ≡ passing p (get i t))
      → total w (collect p n s) ≡ total w (collect p n t)
  total-collect p w zero s t h = refl
  total-collect p w (suc n) s t h =
      total-consed p w (get n s) _
      ∙ ap (λ o. weight w o + total w (collect p n s)) (h n)
      ∙ ap (λ k. weight w (passing p (get n t)) + k) (total-collect p w n s t h)
      ∙ sym (total-consed p w (get n t) _)

  total-collect_all :
      (p : Row → Bool) (w : Row → ℕ) (s t : Slots)
      → ((i : ℕ) → passing p (get i s) ≡ passing p (get i t))
      → total w (collect p s.size s) ≡ total w (collect p t.size t)
  total-collect_all p w s t h =
      sym (total-collect_past p w s t.size)
      ∙ total-collect p w (t.size + s.size) s t h
      ∙ ap (λ n. total w (collect p n t)) (add_comm t.size s.size)
      ∙ total-collect_past p w t s.size
    where
      add_comm : (m n : ℕ) → m + n ≡ n + m
      add_comm m n = omega arith

  pub memory-IsLawful : IsLawful key memory
  memory-IsLawful = record {
    find_unique_key = get-key;
    find_first_some = λ p s r e. head_passes p s _ r (collect-passes p s.size s) e;
    find_first_none = λ p s i r e h. ground (
      arith,
      Bool-cases (p r),
      get-below i s r h,
      collect-all p s.size s i r h,
      none_of_head (λ q. key q == i) (collect p s.size s) e,
    );
    find_many_passes = λ p s. collect-passes p s.size s;
    find_many_all = λ p s i r h t. collect-all p s.size s i r h t (get-below i s r h);
    find_unique-update =
        λ i f s r h k. rw (same_key i) (checked-mapped i s.size f (s.slot i) r h k);
    find_unique-update_ne = λ i j f s n. rw (other_key i j n) refl;
    create_row = λ f s k. (
      ap f (sym (k s.size)),
      rw (k s.size) (ground arith),
      rw (k s.size) (
          get-slot s (λ j. if j == s.size then some (f s.size) else s.slot j) (f s.size) (k s.size)
            (rw (same_key s.size) refl)),
    );
    create_ne = λ f s j k n.
        rw (other_key s.size j (subst (λ m. m ≢ j) (k s.size) n))
          (ground (arith, subst (λ m. m ≢ j) (k s.size) n));
    find_unique-update_many = λ p f s i k. checked-changed_if p f i s.size (s.slot i) k;
    find_many_total = λ p w s t h. total-collect_all p w s t h;
  }
