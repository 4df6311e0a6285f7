-- ===== src/Professional/Portfolio/Laws.antt =====
-- The galleries that are shown, and what reordering does to each item.
use api_v.Base.{
  ℕ, ◌≡◌, not, ◌&&◌, some, is_some, List, [], ◌∷◌, arith, if◌then◌else◌, find?, filter,
  replace_first, ◌==◌,
}
use api_v.Gallery.{GalleryItem}
use api_v.Gallery.Sorting.{IsSorted, has_order, sort_by_order-IsSorted, filter-sort_by_order}
use api_v.Professional.{Professional}
use api_v.Professional.Portfolio.{
  has_id, get_public_gallery, get_all_gallery_items, reorder, reorder_gallery,
}

-- Both galleries come in ascending order, and at each order hold exactly the items that are public
-- and not deleted, or not deleted, in the order in which they were stored.
pub galleries-IsSorted :
    (p : Professional) (k : ℕ)
    → IsSorted (get_public_gallery p)
      × (filter (has_order k) (get_public_gallery p)
          ≡ filter
              (has_order k)
              (filter (λ g. g.is_public && not (is_some g.deleted_at)) p.gallery))
      × IsSorted (get_all_gallery_items p)
      × (filter (has_order k) (get_all_gallery_items p)
          ≡ filter (has_order k) (filter (λ g. not (is_some g.deleted_at)) p.gallery))
unfolding get_public_gallery get_all_gallery_items
galleries-IsSorted p k = (
  sort_by_order-IsSorted _,
  filter-sort_by_order k _,
  sort_by_order-IsSorted _,
  filter-sort_by_order k _,
)

-- The order that the list gives an id last, or the one it has.
abbrev pub last_order : ℕ → ℕ → List (ℕ × ℕ) → ℕ
last_order id old [] = old
last_order id old ((i, order) ∷ rest) = last_order id (if i == id then order else old) rest

find-replace_order :
    (id i order : ℕ) (gallery : List GalleryItem) (g : GalleryItem)
    → find? (has_id id) gallery ≡ some g
    → find? (has_id id) (replace_first (has_id i) (λ g. record g { order = order }) gallery)
      ≡ some (record g { order = if i == id then order else g.order })
find-replace_order id i order [] g h = cc
find-replace_order id i order (x ∷ gallery) g h =
    ground (arith, find-replace_order id i order gallery g)

find-reorder :
    (id : ℕ) (item_orders : List (ℕ × ℕ)) (gallery : List GalleryItem) (g : GalleryItem)
    → find? (has_id id) gallery ≡ some g
    → find? (has_id id) (reorder item_orders gallery)
      ≡ some (record g { order = last_order id g.order item_orders })
unfolding reorder
find-reorder id [] gallery g h = h
find-reorder id ((i, order) ∷ rest) gallery g h =
    find-reorder id rest _ _ (find-replace_order id i order gallery g h)

-- Reordering gives each item of the gallery the order that the list gives its id last, leaves an
-- item that the list does not name as it was, and changes nothing but the order of an item.
pub find-reorder_gallery :
    (now id : ℕ) (item_orders : List (ℕ × ℕ)) (p : Professional) (g : GalleryItem)
    → find? (has_id id) p.gallery ≡ some g
    → find? (has_id id) (reorder_gallery now item_orders p).gallery
      ≡ some (record g { order = last_order id g.order item_orders })
unfolding reorder_gallery
find-reorder_gallery now id item_orders p g h = find-reorder id item_orders p.gallery g h
