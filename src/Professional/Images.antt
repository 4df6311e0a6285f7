-- ===== src/Professional/Images.antt =====
-- The images of the public profile: no image twice, and a cap on their number.
pub mod Laws
pub mod Contents
use api_v.Base.{
  ℕ, Bool, true, false, not, ◌||◌, Option, none, some, List, [], ◌∷◌, leb, ltb, if◌then◌else◌, any,
  filter, push, length, Text, same, is_empty, trim, Result, ok, not_found, bad_request, throw_if,
  ◌>>=◌, ◌>>◌,
}
use api_v.Professional.{Professional}

-- `MAX_PROFILE_IMAGES`
abbrev pub max_profile_images : ℕ
max_profile_images = 5

-- `urls.includes(url)`
abbrev pub contains : Text → List Text → Bool
contains url = any (λ u. same u url)

-- `urls.splice(urls.indexOf(url), 1)`, where the index was found
unfoldable pub remove_first : Text → List Text → List Text
remove_first url [] = []
remove_first url (u ∷ us) = let rest = remove_first url us in if same u url then us else u ∷ rest

-- The test and the write of `addProfileImage`, on a trimmed address.
unfoldable pub add_url : ℕ → Text → Professional → Result Professional
add_url now url p = if contains url p.profile_image_urls then ok p else (do
  throw_if (leb max_profile_images (length p.profile_image_urls))
      (bad_request "Maximum 5 images de profil autorisées")
  ok (record p { profile_image_urls = push url p.profile_image_urls; updated_at = now }))

-- `imageUrl?.trim()`, where the empty text stands for a missing one
unfoldable pub add_profile_image : ℕ → Text → Professional → Result Professional
add_profile_image now image_url p = do
  throw_if (is_empty (trim image_url)) (bad_request "L'URL de l'image est requise")
  add_url now (trim image_url) p

unfoldable pub remove_profile_image : ℕ → Text → Professional → Result Professional
remove_profile_image now image_url p = do
  throw_if (not (contains image_url p.profile_image_urls)) (not_found "Image de profil non trouvée")
  ok (record p {
    profile_image_urls = remove_first image_url p.profile_image_urls;
    updated_at = now;
  })

-- `Array.from(new Set(urls))`: the first of each, in order
unfoldable pub dedup_from : List Text → List Text → List Text
dedup_from seen [] = seen
dedup_from seen (u ∷ us) = dedup_from (if contains u seen then seen else push u seen) us

-- `imageUrls.map((u) => u?.trim()).filter((u) => !!u)`
unfoldable pub cleaned : List Text → List Text
cleaned [] = []
cleaned (u ∷ us) = let rest = cleaned us in if is_empty (trim u) then rest else trim u ∷ rest

unfoldable pub set_profile_images : ℕ → List Text → Professional → Result Professional
set_profile_images now image_urls p = do
  let urls = dedup_from [] (cleaned image_urls)
  throw_if (ltb max_profile_images (length urls))
      (bad_request "Maximum 5 images de profil autorisées")
  ok (record p { profile_image_urls = urls; updated_at = now })

unfoldable pub set_primary_image : ℕ → Text → Professional → Result Professional
set_primary_image now image_url p = do
  throw_if (is_empty (trim image_url)) (bad_request "L'URL de l'image est requise")
  added ←
      if contains (trim image_url) p.profile_image_urls
      then ok p
      else add_profile_image now (trim image_url) p
  ok (record added { avatar_url = some (trim image_url); updated_at = now })
