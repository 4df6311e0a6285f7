-- ===== src/Professional/Images/Contents.antt =====
-- What the list of images holds after a call.
use api_v.Base.{
  ℕ, ◌≡◌, refl, true, false, ◌||◌, some, List, [], arith, inl, inr, Bool-cases, any-push, push,
  not_any_of_count, Text, same, same_iff, is_empty, trim, Result, ok, err, ◌>>=◌,
}
use api_v.Base.Strings.Trimming.{trim_idem}
use api_v.Professional.{Professional}
use api_v.Professional.Images.{
  contains, remove_first, add_url, add_profile_image, remove_profile_image, dedup_from, cleaned,
  set_profile_images, set_primary_image,
}
use api_v.Professional.Images.Laws.{IsImageList, contains-dedup_from, remove_first-count_self}

-- Replacing the list keeps every image that was asked for, and adds none: an address is in the new
-- list exactly if it is one of the given ones, trimmed and not empty.
pub contains-set_profile_images :
    (now : ℕ) (us : List Text) (p q : Professional) (w : Text)
    → set_profile_images now us p ≡ ok q
    → contains w q.profile_image_urls ≡ contains w (cleaned us)
unfolding set_profile_images
contains-set_profile_images now us p q w h =
    let urls : q.profile_image_urls ≡ dedup_from [] (cleaned us) = ground arith in
    rw (urls, contains-dedup_from w [] (cleaned us))

contains-add_url :
    (now : ℕ) (u w : Text) (p q : Professional)
    → add_url now u p ≡ ok q
    → contains w q.profile_image_urls ≡ (contains w p.profile_image_urls || same u w)
unfolding add_url
contains-add_url now u w p q h = elim (Bool-cases (contains u p.profile_image_urls)) [
  | inl old ↦
      let same_list : q.profile_image_urls ≡ p.profile_image_urls = ground arith in
      rw same_list (elim (Bool-cases (same u w)) [
        | inl eq ↦ let held = rw ((same_iff u w).0 eq) at old in rw held
        | inr ne ↦ rw ne (ground arith)
      ])
  | inr new ↦
      let urls : q.profile_image_urls ≡ push u p.profile_image_urls = ground arith in
      rw (urls, any-push (λ x. same x w) u p.profile_image_urls)
]

add_url_of_add :
    (now : ℕ) (u : Text) (p q : Professional)
    → add_profile_image now u p ≡ ok q
    → add_url now (trim u) p ≡ ok q
unfolding add_profile_image
add_url_of_add now u p q h = ground arith

-- Adding an image leaves the images that were there and the trimmed address, and no other.
pub contains-add_profile_image :
    (now : ℕ) (u w : Text) (p q : Professional)
    → add_profile_image now u p ≡ ok q
    → contains w q.profile_image_urls ≡ (contains w p.profile_image_urls || same (trim u) w)
contains-add_profile_image now u w p q h =
    contains-add_url now (trim u) w p q (add_url_of_add now u p q h)

primary_of_added :
    (now : ℕ) (url : Text) (m : Result Professional) (q : Professional)
    → (m >>= λ added. ok (record added { avatar_url = some url; updated_at = now })) ≡ ok q
    → (added : Professional) × (m ≡ ok added)
      × (q.avatar_url ≡ some url)
      × (q.profile_image_urls ≡ added.profile_image_urls)
primary_of_added now url (ok r) q h = (r, refl, ground arith, ground arith)
primary_of_added now url (err e) q h = cc

-- The primary image becomes the avatar and is one of the profile's images.
pub set_primary_image-listed :
    (now : ℕ) (u : Text) (p q : Professional)
    → set_primary_image now u p ≡ ok q
    → (q.avatar_url ≡ some (trim u)) × (contains (trim u) q.profile_image_urls ≡ true)
unfolding set_primary_image
set_primary_image-listed now u p q h = elim (Bool-cases (is_empty (trim u))) [
  | inl gone ↦ absurd (ground arith)
  | inr full ↦ elim (Bool-cases (contains (trim u) p.profile_image_urls)) [
    | inl old ↦
        let (r, e, avatar, urls) = primary_of_added now (trim u) (ok p) q (rw (full, old) at h) in
        (avatar, ground (arith, old))
    | inr new ↦
        let (r, e, avatar, urls) =
          primary_of_added now (trim u) (add_profile_image now (trim u) p) q
            (rw (full, new) at h) in
        let itself = (same_iff (trim (trim u)) (trim u)).1 (trim_idem u) in
        (
          avatar,
          rw (urls, contains-add_profile_image now (trim u) (trim u) p r e, itself) (ground arith),
        )
  ]
]

-- A removed image is gone, if the list held no image twice.
pub contains-remove_profile_image :
    (now : ℕ) (u : Text) (p q : Professional)
    → IsImageList p.profile_image_urls
    → remove_profile_image now u p ≡ ok q
    → contains u q.profile_image_urls ≡ false
unfolding remove_profile_image
contains-remove_profile_image now u p q v h =
    let urls : q.profile_image_urls ≡ remove_first u p.profile_image_urls = ground arith in
    let held : contains u p.profile_image_urls ≡ true = ground arith in
    rw urls (
      not_any_of_count _ (remove_first u p.profile_image_urls)
        (omega (arith, v.unique u, remove_first-count_self u p.profile_image_urls held)))
