-- ===== src/Base/Membership.antt =====
-- The rows that a table holds, and what a lookup in it finds.
use mathlib.Core.Path.{◌≡◌, sym, ap}
use mathlib.Core.Logic.{inl, inr}
use mathlib.Core.Bool.{Bool, true}
use mathlib.Core.Option.{none, some}
use mathlib.Core.List.{List, [], ◌∷◌, map, Memᴰ}
use native.Mathlib.Omega.{arith}
use content_pool_next.Base.Tests.{Bool-cases}
use content_pool_next.Base.Lists.{find}
use content_pool_next.Base.Keys.{Eq, same, same_iff, same_refl, contains, IsDistinct}

pub find-Memᴰ {ℓ} :
    {A : Type ℓ} (q : A → Bool) (xs : List A) (a : A) → find q xs ≡ some a → Memᴰ a xs
find-Memᴰ q [] a e = absurd (ground arith)
find-Memᴰ q (x ∷ xs) a e = elim (Bool-cases (q x)) [
  | inl here ↦ let first : x ≡ a = ground (arith, here, e) in Memᴰ.head (sym first)
  | inr there ↦ Memᴰ.tail (find-Memᴰ q xs a (rw there at e))
]

-- A lookup finds something where a row passes its test.
pub Memᴰ-find {ℓ} :
    {A : Type ℓ} (q : A → Bool) (xs : List A) (a : A)
    → Memᴰ a xs
    → q a ≡ true
    → ¬ (find q xs ≡ none)
Memᴰ-find q [] a m h missing = elim m [ ]
Memᴰ-find q (x ∷ xs) a (Memᴰ.head e) h missing = let hit : q x ≡ true = rw (← e) h in ground arith
Memᴰ-find q (x ∷ xs) a (Memᴰ.tail m) h missing = elim (Bool-cases (q x)) [
  | inl here ↦ absurd (ground (arith, here, missing))
  | inr there ↦ Memᴰ-find q xs a m h (rw there at missing)
]

module _ {ℓ} {A : Type ℓ} {K : Type 0} ⦃eq : Eq K⦄ (key : A → K) where
  Memᴰ-contains : (xs : List A) (a : A) → Memᴰ a xs → contains (key a) (map key xs) ≡ true
  Memᴰ-contains [] a m = elim m [ ]
  Memᴰ-contains (x ∷ xs) a (Memᴰ.head e) = rw (← e) (rw (same_refl (key a)))
  Memᴰ-contains (x ∷ xs) a (Memᴰ.tail m) = ground (arith, Memᴰ-contains xs a m)

  -- With distinct keys the row of a key is the one that a lookup by the key finds.
  pub find-key :
      (xs : List A) (a : A) (k : K)
      → IsDistinct (map key xs)
      → Memᴰ a xs
      → key a ≡ k
      → find (λ x. same (key x) k) xs ≡ some a
  find-key [] a k h m named = elim m [ ]
  find-key (x ∷ xs) a k h (Memᴰ.head e) named =
      let own : key x ≡ k = rw (← e) named in rw (own, same_refl k) (ap some (sym e))
  find-key (x ∷ xs) a k h (Memᴰ.tail m) named = elim (Bool-cases (same (key x) k)) [
    | inl here ↦
        let twice : contains (key x) (map key xs) ≡ true =
          rw ((same_iff (key x) k).0 here) (rw (← named) (Memᴰ-contains xs a m)) in
        absurd (ground (arith, h.0, twice))
    | inr there ↦ rw there (find-key xs a k h.1 m named)
  ]
