-- ===== src/Base/Errors.antt =====
-- libs/exceptions: the domain exceptions as values, and the monad of code that may throw.
use Prim.Native.Nat.{ℕ}
use Prim.Native.String.{String}
use mathlib.Core.Path.{◌≡◌, refl}
use mathlib.Core.Bool.{Bool, true, false}
use mathlib.Core.Option.{Option, none, some}
use api_v.Base.Tests.{if◌then◌else◌}

-- The subclasses of `DomainException`, with their message. Where the source builds the message
-- from values, the text here is its fixed beginning. `internal` is an error of another class, as
-- a `TypeError`, which the server answers with 500.
pub data Exception : Type 0 where
  not_found conflict bad_request unauthorized forbidden unprocessable internal : String → Exception

-- The field `statusCode` of each class.
abbrev pub status_code : Exception → ℕ
status_code (not_found _) = 404
status_code (conflict _) = 409
status_code (bad_request _) = 400
status_code (unauthorized _) = 401
status_code (forbidden _) = 403
status_code (unprocessable _) = 422
status_code (internal _) = 500

-- A call either throws or returns.
pub data Result {ℓ} (V : Type ℓ) : Type ℓ where
  err : Exception → Result V
  ok : V → Result V

-- A statement after one that may throw: it runs on the value, and an exception passes it by.
module _ {ℓ κ} {V : Type ℓ} {W : Type κ} where
  infixl 5 ◌>>=◌
  abbrev pub ◌>>=◌ : Result V → (V → Result W) → Result W
  err thrown >>= next = err thrown
  ok value >>= next = next value

  -- What returns after a first call that may throw: the first call returned.
  pub first_returns :
      {w : W} (first : Result V) (next : V → Result W)
      → (first >>= next) ≡ ok w
      → (value : V) × (first ≡ ok value) × (next value ≡ ok w)
  first_returns (err thrown) next h = cc
  first_returns (ok value) next h = (value, refl, h)

infixl 5 ◌>>◌
abbrev pub ◌>>◌ {ℓ} : {W : Type ℓ} → Result (Unit {0}) → Result W → Result W
err thrown >> rest = err thrown
ok tt >> rest = rest

-- `if (test) throw e;`
abbrev pub throw_if : Bool → Exception → Result (Unit {0})
throw_if test e = if test then err e else ok tt

-- `if (!value) throw e;`, for a value that may be missing
abbrev pub required {ℓ} : {V : Type ℓ} → Option V → Exception → Result V
required none e = err e
required (some v) e = ok v

-- What a handler that returns has passed: a value that was there.
pub given {ℓ κ} :
    {V : Type ℓ} {W : Type κ} {w : W} (o : Option V) (e : Exception) (next : V → Result W)
    → (required o e >>= next) ≡ ok w
    → (v : V) × (o ≡ some v) × (next v ≡ ok w)
given none e next h = cc
given (some v) e next h = (v, refl, h)

-- What it has passed: a check that did not throw.
pub passed {ℓ} :
    {W : Type ℓ} {w : W} (first : Result (Unit {0})) (rest : Result W)
    → (first >> rest) ≡ ok w
    → (first ≡ ok tt) × (rest ≡ ok w)
passed (err thrown) rest h = cc
passed (ok tt) rest h = (refl, h)

-- The same for a test that would have thrown.
pub passed_test {ℓ} :
    {W : Type ℓ} {w : W} (test : Bool) (e : Exception) (rest : Result W)
    → (throw_if test e >> rest) ≡ ok w
    → (test ≡ false) × (rest ≡ ok w)
passed_test false e rest h = (refl, h)
passed_test true e rest h = cc

pub ok_injective {ℓ} : {W : Type ℓ} {v w : W} → ok v ≡ ok w → v ≡ w
ok_injective h = cc
