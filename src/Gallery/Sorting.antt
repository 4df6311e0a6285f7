-- ===== src/Gallery/Sorting.antt =====
-- `items.sort((a, b) => a.order - b.order)`: the language's sort is stable. The order of the
-- result is described by what it holds at each order, not by the insertions that build it.
use api_v.Base.{
  ℕ, ◌≤◌, ◌≡◌, refl, Bool, List, [], ◌∷◌, arith, leb, ◌==◌, if◌then◌else◌, filter, Every, inl, inr,
  Bool-cases,
}
use api_v.Gallery.{GalleryItem}

-- The item goes before the first one of a greater or equal order.
insert : GalleryItem → List GalleryItem → List GalleryItem
insert g [] = g ∷ []
insert g (x ∷ xs) = let rest = insert g xs in if leb g.order x.order then g ∷ x ∷ xs else x ∷ rest

unfoldable pub sort_by_order : List GalleryItem → List GalleryItem
unfolding insert
sort_by_order [] = []
sort_by_order (x ∷ xs) = insert x (sort_by_order xs)

-- Ascending orders.
abbrev pub IsSorted : List GalleryItem → Type 0
IsSorted [] = Unit
IsSorted (x ∷ xs) = Every (λ y. x.order ≤ y.order) xs × IsSorted xs

abbrev pub has_order : ℕ → GalleryItem → Bool
has_order k g = g.order == k

Every-insert :
    (n : ℕ) (g : GalleryItem) (xs : List GalleryItem)
    → n ≤ g.order
    → Every (λ y. n ≤ y.order) xs
    → Every (λ y. n ≤ y.order) (insert g xs)
unfolding insert
Every-insert n g [] h k = (h, tt)
Every-insert n g (x ∷ xs) h k = elim (Bool-cases (leb g.order x.order)) [
  | inl t ↦ rw t (h, k)
  | inr t ↦ rw t (k.0, Every-insert n g xs h k.1)
]

Every-weaken :
    (m n : ℕ) (xs : List GalleryItem)
    → m ≤ n
    → Every (λ y. n ≤ y.order) xs
    → Every (λ y. m ≤ y.order) xs
Every-weaken m n [] h k = tt
Every-weaken m n (x ∷ xs) h k = (omega arith, Every-weaken m n xs h k.1)

insert-IsSorted : (g : GalleryItem) (xs : List GalleryItem) → IsSorted xs → IsSorted (insert g xs)
unfolding insert
insert-IsSorted g [] h = (tt, tt)
insert-IsSorted g (x ∷ xs) h = elim (Bool-cases (leb g.order x.order)) [
  | inl t ↦
      let low : g.order ≤ x.order = ground arith in
      rw t ((low, Every-weaken g.order x.order xs low h.0), h)
  | inr t ↦
      let high : x.order ≤ g.order = ground arith in
      rw t (Every-insert x.order g xs high h.0, insert-IsSorted g xs h.1)
]

-- The result of the sort is in ascending order.
pub sort_by_order-IsSorted : (xs : List GalleryItem) → IsSorted (sort_by_order xs)
unfolding sort_by_order
sort_by_order-IsSorted [] = tt
sort_by_order-IsSorted (x ∷ xs) = insert-IsSorted x (sort_by_order xs) (sort_by_order-IsSorted xs)

filter-insert :
    (k : ℕ) (g : GalleryItem) (xs : List GalleryItem)
    → filter (has_order k) (insert g xs)
      ≡ (if has_order k g then g ∷ filter (has_order k) xs else filter (has_order k) xs)
unfolding insert
filter-insert k g [] = refl
filter-insert k g (x ∷ xs) = ground (arith, filter-insert k g xs)

-- For every order the items of that order stand in the result as they stood before: the sort is a
-- permutation, and stable.
pub filter-sort_by_order :
    (k : ℕ) (xs : List GalleryItem)
    → filter (has_order k) (sort_by_order xs) ≡ filter (has_order k) xs
unfolding sort_by_order
filter-sort_by_order k [] = refl
filter-sort_by_order k (x ∷ xs) =
    rw (filter-insert k x (sort_by_order xs), filter-sort_by_order k xs)
