-- ===== src/Base/Keys.antt =====
-- Types with a decided equality, and what the source does with `includes`, `Set` and `Map`.
use Prim.Native.Nat.{ℕ, ◌≤◌}
use Prim.Native.String.{String}
use mathlib.Core.Path.{◌≡◌, refl}
use mathlib.Core.Logic.{◌↔◌}
use mathlib.Core.Bool.{Bool, true, false, not, ◌&&◌, ◌||◌}
use mathlib.Core.List.{List, [], ◌∷◌, ◌++◌, map}
use native.Mathlib.Omega.{arith}
use text.Mathlib.Text.{◌==◌ as str_eq}
use text.Mathlib.TextEquality.{eq_iff as str_eq_iff}
use content_pool_next.Base.Tests.{if◌then◌else◌, ◌==◌, ==_iff}
use content_pool_next.Base.Lists.{length, filter, All}

pub record Eq {ℓ} (A : Type ℓ) : Type ℓ where
  pub test : A → A → Bool
  pub decides : (a b : A) → (test a b ≡ true) ↔ (a ≡ b)

instance abbrev pub number_eq : Eq ℕ
number_eq = record { test = ◌==◌; decides = ==_iff }

instance abbrev pub string_eq : Eq String
string_eq = record { test = str_eq; decides = str_eq_iff }

module _ {ℓ} {A : Type ℓ} ⦃e : Eq A⦄ where
  -- `a === b`
  abbrev pub same : A → A → Bool
  same = e.test

  pub same_iff : (a b : A) → (same a b ≡ true) ↔ (a ≡ b)
  same_iff = e.decides

  pub same_refl : (a : A) → same a a ≡ true
  same_refl a = (e.decides a a).1 refl

  -- `xs.includes(a)`, and `set.has(a)` for a set kept as the list of its members
  abbrev pub contains : A → List A → Bool
  contains a [] = false
  contains a (x ∷ xs) = same x a || contains a xs

  -- `new Set(xs)` in insertion order, with the members already seen
  abbrev pub dedupe_from : List A → List A → List A
  dedupe_from seen [] = []
  dedupe_from seen (x ∷ xs) =
      let rest = dedupe_from (x ∷ seen) xs in if contains x seen then rest else x ∷ rest

  -- `[...new Set(xs)]`
  abbrev pub dedupe : List A → List A
  dedupe = dedupe_from []

  -- No entry twice.
  abbrev pub IsDistinct : List A → Type 0
  IsDistinct [] = Unit
  IsDistinct (x ∷ xs) = (contains x xs ≡ false) × IsDistinct xs

  pub contains-append :
      (a : A) (xs ys : List A) → contains a (xs ++ ys) ≡ (contains a xs || contains a ys)
  contains-append a [] ys = refl
  contains-append a (x ∷ xs) ys = ground (arith, contains-append a xs ys)

  pub contains-filter :
      (p : A → Bool) (a : A) (xs : List A) → contains a (filter p xs) ≡ (contains a xs && p a)
  contains-filter p a [] = refl
  contains-filter p a (x ∷ xs) = ground (arith, contains-filter p a xs, same_iff x a)

  pub filter-IsDistinct : (p : A → Bool) (xs : List A) → IsDistinct xs → IsDistinct (filter p xs)
  filter-IsDistinct p [] h = tt
  filter-IsDistinct p (x ∷ xs) h =
      ground (arith, filter-IsDistinct p xs h.1, contains-filter p x xs)

  pub contains-dedupe_from :
      (a : A) (seen xs : List A)
      → contains a (dedupe_from seen xs) ≡ (contains a xs && not (contains a seen))
  contains-dedupe_from a seen [] = refl
  contains-dedupe_from a seen (x ∷ xs) =
      ground
        (arith, contains-dedupe_from a seen xs, contains-dedupe_from a (x ∷ seen) xs, same_iff x a)

  -- `new Set` keeps exactly the members of the list.
  pub contains-dedupe : (a : A) (xs : List A) → contains a (dedupe xs) ≡ contains a xs
  contains-dedupe a xs = ground (arith, contains-dedupe_from a [] xs)

  pub dedupe_from-IsDistinct : (seen xs : List A) → IsDistinct (dedupe_from seen xs)
  dedupe_from-IsDistinct seen [] = tt
  dedupe_from-IsDistinct seen (x ∷ xs) = ground (
    arith,
    dedupe_from-IsDistinct (x ∷ seen) xs,
    contains-dedupe_from x (x ∷ seen) xs,
    same_refl x,
  )

  pub length-dedupe_from-le : (seen xs : List A) → length (dedupe_from seen xs) ≤ length xs
  length-dedupe_from-le seen [] = omega arith
  length-dedupe_from-le seen (x ∷ xs) = ground (arith, length-dedupe_from-le (x ∷ seen) xs)

  -- A property of every entry is a property of each member.
  pub All_of_contains {κ} :
      (P : A → Type κ) (a : A) (xs : List A) → All P xs → contains a xs ≡ true → P a
  All_of_contains P a [] h m = absurd (ground arith)
  All_of_contains P a (x ∷ xs) (p, h) m = ground (arith, All_of_contains P a xs h, same_iff x a)

  -- Lists that share no entry do so either way round.
  pub none_shared :
      (xs ys : List A) → All (λ x. contains x ys ≡ false) xs → All (λ y. contains y xs ≡ false) ys
  none_shared xs [] h = tt
  none_shared xs (y ∷ ys) h = (absent y ys xs h, none_shared xs ys (others y ys xs h))
    where
      absent :
          (y : A) (ys xs : List A)
          → All (λ x. contains x (y ∷ ys) ≡ false) xs
          → contains y xs ≡ false
      absent y ys [] h = refl
      absent y ys (x ∷ xs) h = ground (arith, absent y ys xs h.1, same_iff x y, same_iff y x)

      others :
          (y : A) (ys xs : List A)
          → All (λ x. contains x (y ∷ ys) ≡ false) xs
          → All (λ x. contains x ys ≡ false) xs
      others y ys [] h = tt
      others y ys (x ∷ xs) h = (ground (arith, h.0), others y ys xs h.1)

  pub append-IsDistinct :
      (xs ys : List A)
      → IsDistinct xs
      → IsDistinct ys
      → All (λ y. contains y xs ≡ false) ys
      → IsDistinct (xs ++ ys)
  append-IsDistinct [] ys h k fresh = k
  append-IsDistinct (x ∷ xs) ys h k fresh = (
    ground (arith, contains-append x xs ys, h.0, absent x xs ys fresh),
    append-IsDistinct xs ys h.1 k (later x xs ys fresh),
  )
    where
      absent :
          (x : A) (xs ys : List A)
          → All (λ y. contains y (x ∷ xs) ≡ false) ys
          → contains x ys ≡ false
      absent x xs [] f = refl
      absent x xs (y ∷ ys) f = ground (arith, absent x xs ys f.1, same_iff y x, same_refl x)

      later :
          (x : A) (xs ys : List A)
          → All (λ y. contains y (x ∷ xs) ≡ false) ys
          → All (λ y. contains y xs ≡ false) ys
      later x xs [] f = tt
      later x xs (y ∷ ys) f = ground (arith, later x xs ys f.1)

module _ {ℓ κ} {A : Type ℓ} {B : Type κ} ⦃e : Eq B⦄ (key : A → B) where
  pub contains-map-filter :
      (p : A → Bool) (b : B) (xs : List A)
      → contains b (map key xs) ≡ false
      → contains b (map key (filter p xs)) ≡ false
  contains-map-filter p b [] h = refl
  contains-map-filter p b (x ∷ xs) h = ground (arith, contains-map-filter p b xs)

  -- Distinct keys stay distinct when entries are dropped.
  pub map-filter-IsDistinct :
      (p : A → Bool) (xs : List A) → IsDistinct (map key xs) → IsDistinct (map key (filter p xs))
  map-filter-IsDistinct p [] h = tt
  map-filter-IsDistinct p (x ∷ xs) h =
      ground (arith, map-filter-IsDistinct p xs h.1, contains-map-filter p (key x) xs h.0)
