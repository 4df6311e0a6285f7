-- ===== src/Professional/Portfolio.antt =====
-- The gallery of a professional.
pub mod Laws
use api_v.Base.{
  ℕ, Bool, true, false, not, ◌&&◌, Option, none, some, is_some, List, [], ◌∷◌, if◌then◌else◌, find?,
  filter, replace_first, push, length, ◌==◌, Result, ok, not_found, throw_if, ◌>>=◌, ◌>>◌,
}
use api_v.Gallery
use api_v.Gallery.{GalleryItem, is_visible}
use api_v.Gallery.Sorting.{sort_by_order}
use api_v.Professional.{Professional}

abbrev pub has_id : ℕ → GalleryItem → Bool
has_id id g = g.id == id

unfoldable pub add_gallery_item : ℕ → GalleryItem → Professional → Professional
add_gallery_item now item p = record p {
  gallery = push (record item { professional_id = p.id }) p.gallery;
  updated_at = now;
}

unfoldable pub remove_gallery_item : ℕ → ℕ → Professional → Result Professional
remove_gallery_item now item_id p = do
  throw_if (not (is_some (find? (has_id item_id) p.gallery))) (not_found "Gallery item not found")
  ok (record p {
    gallery = replace_first (has_id item_id) (Gallery.delete now) p.gallery;
    updated_at = now;
  })

-- `(g) => g.isPublic && !g.deletedAt`
abbrev pub is_shown : GalleryItem → Bool
is_shown g = g.is_public && not (is_some g.deleted_at)

abbrev pub is_kept : GalleryItem → Bool
is_kept g = not (is_some g.deleted_at)

unfoldable pub get_public_gallery : Professional → List GalleryItem
get_public_gallery p = sort_by_order (filter is_shown p.gallery)

unfoldable pub get_all_gallery_items : Professional → List GalleryItem
get_all_gallery_items p = sort_by_order (filter is_kept p.gallery)

unfoldable pub get_gallery_item_count : Professional → ℕ
unfolding get_public_gallery
get_gallery_item_count p = length (get_public_gallery p)

-- The loop of `reorderGallery`: an id and its new order at a time; an unknown id is passed over.
unfoldable pub reorder : List (ℕ × ℕ) → List GalleryItem → List GalleryItem
reorder [] gallery = gallery
reorder ((id, order) ∷ item_orders) gallery =
    reorder item_orders (replace_first (has_id id) (λ g. record g { order = order }) gallery)

unfoldable pub reorder_gallery : ℕ → List (ℕ × ℕ) → Professional → Professional
unfolding reorder
reorder_gallery now item_orders p = record p {
  gallery = reorder item_orders p.gallery;
  updated_at = now;
}
