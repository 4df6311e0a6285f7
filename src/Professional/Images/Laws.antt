-- ===== src/Professional/Images/Laws.antt =====
-- The images of the profile: what every method keeps, and what the lists hold afterwards.
use api_v.Base.{
  ℕ, ◌+◌, ◌≤◌, ◌≡◌, true, false, ◌||◌, some, List, [], ◌∷◌, arith, ltb, inl, inr, Bool-cases, Every,
  Every-push, push, length, length-push, leb, any-push, count, count-push_unique, Text, same,
  same_iff, is_empty, trim, Result, ok, err, ◌>>=◌,
}
use api_v.Professional.{Professional}
use api_v.Professional.Images.{
  max_profile_images, contains, remove_first, add_url, add_profile_image, remove_profile_image,
  dedup_from, cleaned, set_profile_images, set_primary_image,
}

-- A list of images: not above the cap, no image twice, no empty address.
pub record IsImageList (urls : List Text) : Type 0 where
  pub capped : length urls ≤ max_profile_images
  pub unique : (u : Text) → count (λ v. same v u) urls ≤ 1
  pub named : Every (λ u. is_empty u ≡ false) urls

-- What a call that began with such images leaves.
abbrev pub Keeps : Result Professional → Type 0
Keeps (ok q) = IsImageList q.profile_image_urls
Keeps (err _) = Unit

push-IsImageList :
    (u : Text) (urls : List Text)
    → IsImageList urls
    → is_empty u ≡ false
    → contains u urls ≡ false
    → length urls ≤ 4
    → IsImageList (push u urls)
push-IsImageList u urls v full new room = record {
  capped = omega (arith, length-push u urls);
  unique = λ w.
      count-push_unique (λ x. same x w) u urls (v.unique w) λ eq. rw ((same_iff u w).0 eq) at new;
  named = Every-push _ u urls v.named full;
}

add_url-Keeps :
    (now : ℕ) (u : Text) (p : Professional)
    → IsImageList p.profile_image_urls
    → is_empty u ≡ false
    → Keeps (add_url now u p)
unfolding add_url
add_url-Keeps now u p v full = elim (Bool-cases (contains u p.profile_image_urls)) [
  | inl old ↦ rw old v
  | inr new ↦ elim (Bool-cases (leb max_profile_images (length p.profile_image_urls))) [
    | inl crowded ↦ rw (new, crowded) tt
    | inr room ↦ rw (new, room) (push-IsImageList u p.profile_image_urls v full new (ground arith))
  ]
]

add_profile_image-Keeps :
    (now : ℕ) (u : Text) (p : Professional)
    → IsImageList p.profile_image_urls
    → Keeps (add_profile_image now u p)
unfolding add_profile_image
add_profile_image-Keeps now u p v = elim (Bool-cases (is_empty (trim u))) [
  | inl gone ↦ rw gone tt
  | inr full ↦ rw full (add_url-Keeps now (trim u) p v full)
]

-- The element that `splice` takes out is the first one that is equal.
module _ (u : Text) where
  remove_first-count :
      (w : Text) (urls : List Text)
      → count (λ v. same v w) (remove_first u urls) ≤ count (λ v. same v w) urls
  unfolding remove_first
  remove_first-count w [] = omega arith
  remove_first-count w (x ∷ urls) = ground (arith, remove_first-count w urls)

  remove_first-length : (urls : List Text) → length (remove_first u urls) ≤ length urls
  unfolding remove_first
  remove_first-length [] = omega arith
  remove_first-length (x ∷ urls) = ground (arith, remove_first-length urls)

  pub remove_first-count_self :
      (urls : List Text)
      → contains u urls ≡ true
      → count (λ v. same v u) (remove_first u urls) + 1 ≡ count (λ v. same v u) urls
  unfolding remove_first
  remove_first-count_self [] h = cc
  remove_first-count_self (x ∷ urls) h = ground (arith, remove_first-count_self urls)

  Every-remove_first {κ} :
      (P : Text → Type κ) (urls : List Text) → Every P urls → Every P (remove_first u urls)
  unfolding remove_first
  Every-remove_first P [] h = tt
  Every-remove_first P (x ∷ urls) h = elim (Bool-cases (same x u)) [
    | inl t ↦ rw t h.1
    | inr t ↦ rw t (h.0, Every-remove_first P urls h.1)
  ]

  remove_first-IsImageList :
      (urls : List Text) → IsImageList urls → IsImageList (remove_first u urls)
  remove_first-IsImageList urls v = record {
    capped = omega (arith, v.capped, remove_first-length urls);
    unique = λ w. omega (arith, v.unique w, remove_first-count w urls);
    named = Every-remove_first _ urls v.named;
  }

remove_profile_image-Keeps :
    (now : ℕ) (u : Text) (p : Professional)
    → IsImageList p.profile_image_urls
    → Keeps (remove_profile_image now u p)
unfolding remove_profile_image
remove_profile_image-Keeps now u p v = elim (Bool-cases (contains u p.profile_image_urls)) [
  | inl old ↦ rw old (remove_first-IsImageList u p.profile_image_urls v)
  | inr new ↦ rw new tt
]

abbrev IsDistinct : List Text → Type 0
IsDistinct urls = (w : Text) → count (λ v. same v w) urls ≤ 1

dedup_from-IsDistinct : (seen us : List Text) → IsDistinct seen → IsDistinct (dedup_from seen us)
unfolding dedup_from
dedup_from-IsDistinct seen [] h = h
dedup_from-IsDistinct seen (u ∷ us) h = elim (Bool-cases (contains u seen)) [
  | inl old ↦ rw old (dedup_from-IsDistinct seen us h)
  | inr new ↦ rw new (
      dedup_from-IsDistinct (push u seen) us
        λ w. count-push_unique (λ x. same x w) u seen (h w) λ eq. rw ((same_iff u w).0 eq) at new)
]

Every-dedup_from {κ} :
    (P : Text → Type κ) (seen us : List Text)
    → Every P seen
    → Every P us
    → Every P (dedup_from seen us)
unfolding dedup_from
Every-dedup_from P seen [] h k = h
Every-dedup_from P seen (u ∷ us) h k = elim (Bool-cases (contains u seen)) [
  | inl old ↦ rw old (Every-dedup_from P seen us h k.1)
  | inr new ↦ rw new (Every-dedup_from P (push u seen) us (Every-push P u seen h k.0) k.1)
]

pub contains-dedup_from :
    (w : Text) (seen us : List Text)
    → contains w (dedup_from seen us) ≡ (contains w seen || contains w us)
unfolding dedup_from
contains-dedup_from w seen [] = ground arith
contains-dedup_from w seen (u ∷ us) = elim (Bool-cases (contains u seen)) [
  | inl old ↦ rw (old, contains-dedup_from w seen us) (ground (arith, same_iff u w))
  | inr new ↦
      rw (new, contains-dedup_from w (push u seen) us, any-push (λ x. same x w) u seen)
        (ground arith)
]

cleaned-full : (us : List Text) → Every (λ u. is_empty u ≡ false) (cleaned us)
unfolding cleaned
cleaned-full [] = tt
cleaned-full (u ∷ us) = elim (Bool-cases (is_empty (trim u))) [
  | inl gone ↦ rw gone (cleaned-full us)
  | inr full ↦ rw full (full, cleaned-full us)
]

set_profile_images-Keeps :
    (now : ℕ) (us : List Text) (p : Professional) → Keeps (set_profile_images now us p)
unfolding set_profile_images
set_profile_images-Keeps now us p =
    elim (Bool-cases (ltb max_profile_images (length (dedup_from [] (cleaned us))))) [
      | inl crowded ↦ rw crowded tt
      | inr room ↦ rw room (record {
        capped = ground arith;
        unique = dedup_from-IsDistinct [] (cleaned us) (λ w. omega arith);
        named = Every-dedup_from _ [] (cleaned us) tt (cleaned-full us);
      })
    ]

set_primary_image-Keeps :
    (now : ℕ) (u : Text) (p : Professional)
    → IsImageList p.profile_image_urls
    → Keeps (set_primary_image now u p)
unfolding set_primary_image
set_primary_image-Keeps now u p v = elim (Bool-cases (is_empty (trim u))) [
  | inl gone ↦ rw gone tt
  | inr full ↦ elim (Bool-cases (contains (trim u) p.profile_image_urls)) [
    | inl old ↦ rw (full, old) v
    | inr new ↦
        rw (full, new)
          (kept (add_profile_image now (trim u) p) (add_profile_image-Keeps now (trim u) p v))
  ]
]
  where
    kept :
        (m : Result Professional)
        → Keeps m
        → Keeps (m >>= λ added. ok (record added { avatar_url = some (trim u); updated_at = now }))
    kept (ok q) k = k
    kept (err e) k = tt

-- The methods for profile images keep the list within the cap of five, without an image twice and
-- without an empty address: whatever the arguments, a call that returns leaves such a list, if it
-- began with one; replacing the whole list needs no such beginning.
pub images-Keeps :
    (now : ℕ) (u : Text) (us : List Text) (p : Professional)
    → Keeps (set_profile_images now us p)
      × (IsImageList p.profile_image_urls
          → Keeps (add_profile_image now u p)
            × Keeps (remove_profile_image now u p)
            × Keeps (set_primary_image now u p))
images-Keeps now u us p = (
  set_profile_images-Keeps now us p,
  λ v. (
    add_profile_image-Keeps now u p v,
    remove_profile_image-Keeps now u p v,
    set_primary_image-Keeps now u p v,
  ),
)
