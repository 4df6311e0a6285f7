-- ===== src/Catalogue.antt =====
-- The catalogue of service categories and the requests for new ones: the first six handlers of
-- src/modules/professional/interface/handlers/service.handlers.ts. Dates are milliseconds. The
-- metadata, which nothing reads, is not modelled.
pub mod Slug
pub mod Commands
pub mod Steps
pub mod Effects
pub mod Names
pub mod Requests
pub mod Approval
mod Tests
use api_v.Base.{ℕ, ◌≡◌, Bool, true, Option, Text, []}
use api_v.Database.{Table, IsLawful}

-- The enum `ServiceCategoryRequestStatus`.
pub data RequestStatus : Type 0 where
  pending approved rejected : RequestStatus

-- A row of `ServiceCategory`.
pub record Category : Type 0 where
  pub id : ℕ
  pub name : Text
  pub slug : Text
  pub description : Option Text
  pub is_active : Bool
  pub deleted_at : Option ℕ

-- A row of `ServiceCategoryRequest`.
pub record Request : Type 0 where
  pub id : ℕ
  pub professional_id : ℕ
  pub proposed_name : Text
  pub proposed_description : Option Text
  pub status : RequestStatus
  pub reviewed_by : Option ℕ
  pub reviewed_at : Option ℕ
  pub review_note : Option Text
  pub approved_category_id : Option ℕ
  pub deleted_at : Option ℕ

-- The columns of `ServiceOffering` and of `Professional` that these handlers read.
pub record OfferRow : Type 0 where
  pub id : ℕ
  pub category_id : ℕ
  pub deleted_at : Option ℕ

pub record OwnerRow : Type 0 where
  pub id : ℕ
  pub user_id : ℕ
  pub deleted_at : Option ℕ

-- The models of the database client; the comparison of names without regard to case, which the
-- database makes; and `normalize('NFD')` and `toLowerCase()` of JavaScript.
pub record Client : Type 1 where
  pub categories : Table Category
  pub requests : Table Request
  pub offers : Table OfferRow
  pub owners : Table OwnerRow
  pub same_name : Text → Text → Bool
  pub nfd : Text → Text
  pub lower : Text → Text

pub record Store (C : Client) : Type 0 where
  pub categories : C.categories.State
  pub requests : C.requests.State
  pub offers : C.offers.State
  pub owners : C.owners.State

-- The comparison of names is the equality of what the case leaves of them, which is nothing only for
-- the empty name.
pub record IsLawfulClient (C : Client) : Type 0 where
  pub categories : IsLawful (λ c. c.id) C.categories
  pub requests : IsLawful (λ r. r.id) C.requests
  pub offers : IsLawful (λ o. o.id) C.offers
  pub owners : IsLawful (λ o. o.id) C.owners
  pub same_name_refl : (a : Text) → C.same_name a a ≡ true
  pub same_name_empty : (a : Text) → C.same_name a [] ≡ true → a ≡ []
  pub same_name_sym : (a b : Text) → C.same_name a b ≡ C.same_name b a
  pub same_name_trans :
      (a b c : Text) → C.same_name a b ≡ true → C.same_name b c ≡ true → C.same_name a c ≡ true
