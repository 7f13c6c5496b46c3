-- ===== src/Base/Lists.antt =====
-- Lists with native lengths and Boolean predicates: `length`, `every`, `some`, `filter`, `find`.
use Prim.Native.Nat.{ℕ, zero, suc, ◌+◌, ◌≤◌}
use mathlib.Core.Path.{◌≡◌, refl, ap}
use mathlib.Core.Bool.{Bool, true, false, ◌&&◌, ◌||◌}
use mathlib.Core.Option.{Option, none, some}
use mathlib.Core.List.{List, [], ◌∷◌, ◌++◌, map}
use native.Mathlib.Omega.{arith}
use content_pool_next.Base.Tests.{if◌then◌else◌}

module _ {ℓ} {A : Type ℓ} where
  abbrev pub length : List A → ℕ
  length [] = 0
  length (x ∷ xs) = suc (length xs)

  abbrev pub take : ℕ → List A → List A
  take zero xs = []
  take (suc n) [] = []
  take (suc n) (x ∷ xs) = x ∷ take n xs

  abbrev pub is_empty : List A → Bool
  is_empty [] = true
  is_empty (x ∷ xs) = false

  abbrev pub every : (A → Bool) → List A → Bool
  every p [] = true
  every p (x ∷ xs) = p x && every p xs

  abbrev pub any : (A → Bool) → List A → Bool
  any p [] = false
  any p (x ∷ xs) = p x || any p xs

  -- `xs.filter(p)`
  abbrev pub filter : (A → Bool) → List A → List A
  filter p [] = []
  filter p (x ∷ xs) = if p x then x ∷ filter p xs else filter p xs

  -- `xs.find(p)`
  abbrev pub find : (A → Bool) → List A → Option A
  find p [] = none
  find p (x ∷ xs) = if p x then some x else find p xs

  pub length-filter-le : (p : A → Bool) (xs : List A) → length (filter p xs) ≤ length xs
  length-filter-le p [] = omega arith
  length-filter-le p (x ∷ xs) = ground (arith, length-filter-le p xs)

module _ {ℓ} {A : Type ℓ} where
  pub length-append : (front back : List A) → length (front ++ back) ≡ length front + length back
  length-append (a ∷ front) back = omega (arith, length-append front back)
  length-append [] back = omega arith

  -- A list within the limit is not cut.
  pub take_whole : (limit : ℕ) (list : List A) → length list ≤ limit → take limit list ≡ list
  take_whole (suc limit) (a ∷ list) fits = ap (◌∷◌ a) (take_whole limit list (omega arith))
  take_whole zero (a ∷ list) fits = absurd (omega arith)
  take_whole zero [] fits = refl
  take_whole (suc limit) [] fits = refl

  pub take_bound : (limit : ℕ) (list : List A) → length (take limit list) ≤ limit
  take_bound (suc limit) (a ∷ list) = omega (arith, take_bound limit list)
  take_bound (suc limit) [] = omega arith
  take_bound zero list = omega arith

module _ {ℓ κ} {A : Type ℓ} {B : Type κ} where
  -- Mapping keeps the length.
  pub length-map : (f : A → B) (list : List A) → length (map f list) ≡ length list
  length-map f (a ∷ list) = omega (arith, length-map f list)
  length-map f [] = refl

module _ {ℓ κ} {A : Type ℓ} (P : A → Type κ) where
  -- Every entry of the list has the property.
  abbrev pub All : List A → Type κ
  All [] = Unit
  All (x ∷ xs) = P x × All xs

  pub All-append : (xs ys : List A) → All xs → All ys → All (xs ++ ys)
  All-append [] ys _ k = k
  All-append (x ∷ xs) ys (p, h) k = (p, All-append xs ys h k)

  pub All-take : (n : ℕ) (xs : List A) → All xs → All (take n xs)
  All-take zero xs h = tt
  All-take (suc n) [] h = tt
  All-take (suc n) (x ∷ xs) (p, h) = (p, All-take n xs h)

  pub All-filter : (q : A → Bool) (xs : List A) → All xs → All (filter q xs)
  All-filter q [] h = tt
  All-filter q (x ∷ xs) (p, h) = ground (arith, All-filter q xs h)

  pub All-find : (q : A → Bool) (xs : List A) (a : A) → All xs → find q xs ≡ some a → P a
  All-find q [] a h e = absurd (ground arith)
  All-find q (x ∷ xs) a (p, h) e = ground (arith, All-find q xs a h)

pub find_sound {ℓ} :
    {A : Type ℓ} (q : A → Bool) (xs : List A) (a : A) → find q xs ≡ some a → q a ≡ true
find_sound q [] a e = absurd (ground arith)
find_sound q (x ∷ xs) a e = ground (arith, find_sound q xs a)

-- `find` fails exactly where no entry passes the test.
pub find-none {ℓ} : {A : Type ℓ} (q : A → Bool) (xs : List A) → find q xs ≡ none → any q xs ≡ false
find-none q [] e = refl
find-none q (x ∷ xs) e = ground (arith, find-none q xs)

pub find-some {ℓ} :
    {A : Type ℓ} (q : A → Bool) (xs : List A) (a : A) → find q xs ≡ some a → any q xs ≡ true
find-some q [] a e = absurd (ground arith)
find-some q (x ∷ xs) a e = ground (arith, find-some q xs a)

pub filter_comm {ℓ} :
    {A : Type ℓ} (p q : A → Bool) (xs : List A) → filter p (filter q xs) ≡ filter q (filter p xs)
filter_comm p q [] = refl
filter_comm p q (x ∷ xs) = ground (arith, filter_comm p q xs)

pub filter-append {ℓ} :
    {A : Type ℓ} (p : A → Bool) (xs ys : List A) → filter p (xs ++ ys) ≡ filter p xs ++ filter p ys
filter-append p [] ys = refl
filter-append p (x ∷ xs) ys = ground (arith, filter-append p xs ys)
