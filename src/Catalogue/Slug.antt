-- ===== src/Catalogue/Slug.antt =====
-- `toCategorySlug` of service.handlers.ts, on code units.
use api_v.Base.{
  ℕ, Bool, true, false, not, ◌&&◌, ◌||◌, [], ◌∷◌, ◌++◌, Text, codes, filter, leb, ◌==◌,
  if◌then◌else◌,
}
use mathlib.Core.List.{reverse}

-- The combining marks U+0300 to U+036F.
abbrev pub is_mark : ℕ → Bool
is_mark c = leb 0x300 c && leb c 0x36f

-- `[a-z0-9]`
abbrev pub is_word : ℕ → Bool
is_word c = (leb 97 c && leb c 122) || (leb 48 c && leb c 57)

-- `.replace(/&/g, ' et ')`
abbrev pub spelled : Text → Text
spelled [] = []
spelled (c ∷ s) = let rest = spelled s in if c == 38 then codes " et " ++ rest else c ∷ rest

-- `.replace(/[^a-z0-9]+/g, '-')`: a run of other characters becomes one dash. The Boolean says
-- whether such a run has begun.
abbrev pub dashed : Bool → Text → Text
dashed in_run [] = []
dashed in_run (c ∷ s) =
    let word = dashed false s in
    let dash = dashed true s in if is_word c then c ∷ word else if in_run then dash else 45 ∷ dash

abbrev pub without_first_dashes : Text → Text
without_first_dashes [] = []
without_first_dashes (c ∷ s) = let rest = without_first_dashes s in if c == 45 then rest else c ∷ s

-- `.replace(/^-+|-+$/g, '')`
abbrev pub trimmed_dashes : Text → Text
trimmed_dashes s = reverse (without_first_dashes (reverse (without_first_dashes s)))

-- `.replace(/-{2,}/g, '-')`
abbrev pub single_dashes : Bool → Text → Text
single_dashes after_dash [] = []
single_dashes after_dash (c ∷ s) =
    let more = single_dashes true s in
    let other = single_dashes false s in
    if c == 45 then (if after_dash then more else c ∷ more) else c ∷ other

unfoldable pub to_category_slug : (Text → Text) → (Text → Text) → Text → Text
to_category_slug nfd lower value =
    single_dashes false
      (trimmed_dashes (dashed false (spelled (lower (filter (λ c. not (is_mark c)) (nfd value))))))
