-- ===== src/Catalogue/Tests.antt =====
-- The catalogue on a database in memory: one category and one request, and the theorems at what the
-- commands leave. Names are compared, and lowered, on the letters A to Z.
use api_v.Base.{
  ℕ, ◌≡◌, refl, ◌∙◌, ◌&&◌, ◌+◌, none, some, [], ◌∷◌, Text, codes, same, same_iff, leb, trim,
  if◌then◌else◌, ok, err, conflict, bad_request, arith,
}
use api_v.Database.Memory.{memory, memory-IsLawful}
use api_v.Catalogue.{Category, Request, OwnerRow, Client, Store, IsLawfulClient}
use api_v.Catalogue.Slug.{to_category_slug}
use api_v.Catalogue.Commands.{
  create_category, update_category, delete_category, create_request, approve_request,
  reject_request, new_category, new_request, renamed, as_rejected, as_approved,
}
use api_v.Catalogue.Steps.{Reach, here, next, step_create, step_update, IsUnique}
use api_v.Catalogue.Names.{Reach-IsUnique}
use api_v.Catalogue.Requests.{find_unique-Reach}
use api_v.Catalogue.Approval.{IsApproved, approve_request-IsApproved}

abbrev lower_letter : ℕ → ℕ
lower_letter c = if leb 65 c && leb c 90 then c + 32 else c

abbrev lowered : Text → Text
lowered [] = []
lowered (c ∷ s) = lower_letter c ∷ lowered s

lowered_empty : (a : Text) → lowered a ≡ [] → a ≡ []
lowered_empty [] e = refl
lowered_empty (c ∷ s) e = cc

abbrev server : Client
server = record {
  categories = memory (λ c. c.id);
  requests = memory (λ r. r.id);
  offers = memory (λ o. o.id);
  owners = memory (λ o. o.id);
  same_name = λ a b. same (lowered a) (lowered b);
  nfd = λ text. text;
  lower = lowered;
}

same_sym : (a b : Text) → same a b ≡ same b a
unfolding same
same_sym [] [] = refl
same_sym [] (d ∷ b) = refl
same_sym (c ∷ a) [] = refl
same_sym (c ∷ a) (d ∷ b) = ground (arith, same_sym a b)

server-IsLawfulClient : IsLawfulClient server
server-IsLawfulClient = record {
  categories = memory-IsLawful (λ c. c.id);
  requests = memory-IsLawful (λ r. r.id);
  offers = memory-IsLawful (λ o. o.id);
  owners = memory-IsLawful (λ o. o.id);
  same_name_refl = λ a. (same_iff (lowered a) (lowered a)).1 refl;
  same_name_empty = λ a e. lowered_empty a ((same_iff (lowered a) []).0 e);
  same_name_sym = λ a b. same_sym (lowered a) (lowered b);
  same_name_trans = λ a b c e f.
      (same_iff (lowered a) (lowered c)).1
        ((same_iff (lowered a) (lowered b)).0 e ∙ (same_iff (lowered b) (lowered c)).0 f);
}

abbrev hair : Category
hair = new_category (codes "Coiffure") (codes "coiffure") none 0

abbrev nails : Request
nails = new_request 7 (codes "Onglerie") none 0

abbrev salon : OwnerRow
salon = record { id = 7; user_id = 3; deleted_at = none }

abbrev database : Store server
database = record {
  categories = record { size = 1; slot = λ i. some hair };
  requests = record { size = 1; slot = λ i. some nails };
  offers = record { size = 0; slot = λ i. none };
  owners = record { size = 8; slot = λ i. some salon };
}

commands : Unit {0}
unfolding create_category update_category delete_category create_request approve_request
    reject_request to_category_slug same trim
commands = tt

to_category_slug-massage :
    to_category_slug (λ text. text) lowered (codes "  Soins & Massage (homme)")
    ≡ codes "soins-et-massage-homme"
unfolding commands
to_category_slug-massage = refl

create_category-hair :
    create_category server (codes " COIFFURE ") none database
    ≡ err (conflict "Cette categorie existe deja")
unfolding commands
create_category-hair = refl

-- The name of the one category is free again after its renaming.
abbrev renamed_hair : Store server
renamed_hair = record database {
  categories =
      server.categories.update 0
        (renamed (to_category_slug (λ t. t) lowered) (some (codes "Tresses")) none)
        database.categories;
}

abbrev with_hair_again : Category × Store server
with_hair_again =
    let made =
      server.categories.create
        (new_category (codes "Coiffure") (to_category_slug (λ t. t) lowered (codes "Coiffure"))
          none)
        renamed_hair.categories in
    (made.0, record renamed_hair { categories = made.1 })

two_commands : Reach server database with_hair_again.1
unfolding commands
two_commands =
    next (next here (step_update 0 (some (codes " Tresses")) none renamed_hair refl))
      (step_create (codes "Coiffure ") none with_hair_again.0 with_hair_again.1 refl)

database-IsUnique : IsUnique server database
unfolding IsUnique
database-IsUnique i j c d h k a b s = ground arith

Reach-IsUnique_example : IsUnique server with_hair_again.1
Reach-IsUnique_example = Reach-IsUnique server server-IsLawfulClient two_commands database-IsUnique

abbrev refused : Request
refused = as_rejected 500 1 (some (codes "existe")) nails

abbrev decided : Store server
decided = record database { requests = record { size = 1; slot = λ i. some refused } }

abbrev decided_later : Store server
decided_later = record decided { categories = renamed_hair.categories }

update_category-decided : Reach server decided decided_later
unfolding commands
update_category-decided = next here (step_update 0 (some (codes "Tresses")) none decided_later refl)

approve_request-decided :
    approve_request server 600 0 1 none none decided
    ≡ err (bad_request "Cette demande a deja ete traitee")
unfolding commands
approve_request-decided = refl

find_unique-Reach_example : server.requests.find_unique 0 decided_later.requests ≡ some refused
find_unique-Reach_example =
    find_unique-Reach server server-IsLawfulClient 0 refused update_category-decided refl refl

abbrev with_nails : Store server
with_nails =
    let made =
      server.categories.create
        (new_category (codes "Onglerie") (to_category_slug (λ t. t) lowered (codes "Onglerie"))
          none)
        database.categories in
    record database {
      categories = made.1;
      requests = server.requests.update 0 (as_approved 500 1 1) database.requests;
    }

approve_request-nails : approve_request server 500 0 1 none none database ≡ ok with_nails
unfolding commands
approve_request-nails = refl

approve_request-IsApproved_example : IsApproved server database with_nails 500 0 1 none
approve_request-IsApproved_example =
    approve_request-IsApproved server server-IsLawfulClient database 500 0 1 none none with_nails
      approve_request-nails
