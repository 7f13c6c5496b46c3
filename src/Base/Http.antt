-- ===== src/Base/Http.antt =====
-- The exceptions that the services throw, as values. The text of a message is kept where code
-- stores or compares it, and left out here.
use mathlib.Core.Path.{◌≡◌, refl}
use mathlib.Core.Bool.{Bool, true, false}
use mathlib.Core.Option.{Option, none, some}

pub data HttpError : Type 0 where
  bad_request forbidden not_found conflict unauthorized internal : HttpError

-- What a service method comes back with: an exception or its result.
pub data Result {ℓ} (A : Type ℓ) : Type ℓ where
  err : HttpError → Result A
  ok : A → Result A

module _ {ℓ κ} {A : Type ℓ} {B : Type κ} where
  infixl 5 ◌>>=◌
  abbrev pub ◌>>=◌ : Result A → (A → Result B) → Result B
  err thrown >>= next = err thrown
  ok value >>= next = next value

  -- What came of the first step where both have passed.
  pub >>=-eq-ok :
      (first : Result A) (next : A → Result B) {result : B}
      → (first >>= next) ≡ ok result
      → (value : A) × (first ≡ ok value) × (next value ≡ ok result)
  >>=-eq-ok (err thrown) next e = cc
  >>=-eq-ok (ok value) next e = (value, refl, e)

module _ {ℓ} {A : Type ℓ} where
  infixl 5 ◌>>◌
  abbrev pub ◌>>◌ : Result (Unit {0}) → Result A → Result A
  check >> rest = check >>= λ _. rest

  -- `if (!value) throw error`
  abbrev pub or_throw : Option A → HttpError → Result A
  or_throw none thrown = err thrown
  or_throw (some value) thrown = ok value

  pub ok_injective : {first second : A} → ok first ≡ ok second → first ≡ second
  ok_injective e = cc

-- `if (test) throw error`
abbrev pub throw_if : Bool → HttpError → Result (Unit {0})
throw_if false thrown = ok tt
throw_if true thrown = err thrown
