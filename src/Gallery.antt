-- ===== src/Gallery.antt =====
-- src/modules/professional/core/entities/gallery-item.entity.ts: an image of the portfolio, and
-- the array sort by its order. Orders are the natural numbers that the DTO accepts.
pub mod Sorting
use api_v.Base.{
  ℕ, Bool, true, false, not, ◌&&◌, Option, none, some, is_some, get_or_else, or_else, List, [], ◌∷◌,
  leb, if◌then◌else◌, Text, Result, ok, bad_request, throw_if, ◌>>=◌, ◌>>◌,
}
use api_v.Service.{is_blank}

pub record GalleryItem : Type 0 where
  pub id : ℕ
  pub professional_id : ℕ
  pub image_url : Text
  pub caption : Option Text
  pub category : Option Text
  pub order : ℕ
  pub is_public : Bool
  pub created_at : ℕ
  pub updated_at : ℕ
  pub deleted_at : Option ℕ

-- The argument of `GalleryItemEntity.create`.
pub record CreateProps : Type 0 where
  pub id : ℕ
  pub professional_id : ℕ
  pub image_url : Text
  pub caption : Option Text
  pub category : Option Text
  pub order : Option ℕ

unfoldable pub create : ℕ → CreateProps → Result GalleryItem
create now props = do
  throw_if (is_blank props.image_url) (bad_request "Image URL is required")
  ok (record {
    id = props.id;
    professional_id = props.professional_id;
    image_url = props.image_url;
    caption = props.caption;
    category = props.category;
    order = get_or_else props.order 0;
    is_public = true;
    created_at = now;
    updated_at = now;
    deleted_at = none;
  })

-- A property that is `undefined` leaves the field alone.
unfoldable pub update : ℕ → Option Text → Option Text → Option ℕ → GalleryItem → GalleryItem
update now caption category order g = record g {
  caption = or_else caption g.caption;
  category = or_else category g.category;
  order = get_or_else order g.order;
  updated_at = now;
}

unfoldable pub make_public : ℕ → GalleryItem → GalleryItem
make_public now g = record g { is_public = true; updated_at = now }

unfoldable pub make_private : ℕ → GalleryItem → GalleryItem
make_private now g = record g { is_public = false; updated_at = now }

unfoldable pub is_visible : GalleryItem → Bool
is_visible g = not (is_some g.deleted_at) && g.is_public

unfoldable pub delete : ℕ → GalleryItem → GalleryItem
delete now g = record g { deleted_at = some now }

unfoldable pub restore : ℕ → GalleryItem → GalleryItem
restore now g = record g { deleted_at = none; updated_at = now }
