-- ===== src/Base/Text/Laws.antt =====
-- `trim` leaves nothing to trim.
use mathlib.Core.Path.{◌≡◌, refl, ap, ◌∙◌}
use mathlib.Core.Bool.{◌&&◌}
use mathlib.Core.Logic.{inl, inr}
use mathlib.Core.List.{[], ◌∷◌}
use native.Mathlib.Omega.{arith}
use content_pool_next.Base.Tests.{Bool-cases}
use content_pool_next.Base.Lists.{is_empty}
use content_pool_next.Base.Text.{Text, is_space, trim_start, trim_end, trim}

trim_end_idem : (s : Text) → trim_end (trim_end s) ≡ trim_end s
unfolding trim_end
trim_end_idem [] = refl
trim_end_idem (c ∷ s) = elim (Bool-cases (is_space c && is_empty (trim_end s))) [
  | inl blank ↦ rw blank
  | inr kept ↦ rw kept (rw (trim_end_idem s, kept))
]

trim_end-tail : (c : _) (s : Text) → trim_end (c ∷ s) ≡ c ∷ s → trim_end s ≡ s
unfolding trim_end
trim_end-tail c s h = elim (Bool-cases (is_space c && is_empty (trim_end s))) [
  | inl blank ↦ absurd (ground arith)
  | inr kept ↦ ground arith
]

trim_end-trim_start : (s : Text) → trim_end s ≡ s → trim_end (trim_start s) ≡ trim_start s
unfolding trim_start
trim_end-trim_start [] h = h
trim_end-trim_start (c ∷ s) h = elim (Bool-cases (is_space c)) [
  | inl space ↦ rw space (trim_end-trim_start s (trim_end-tail c s h))
  | inr kept ↦ rw kept h
]

trim_start_idem : (s : Text) → trim_start (trim_start s) ≡ trim_start s
unfolding trim_start
trim_start_idem [] = refl
trim_start_idem (c ∷ s) = elim (Bool-cases (is_space c)) [
  | inl space ↦ rw space (trim_start_idem s)
  | inr kept ↦ rw kept (rw kept)
]

pub trim_idem : (s : Text) → trim (trim s) ≡ trim s
unfolding trim
trim_idem s =
    ap trim_start (trim_end-trim_start (trim_end s) (trim_end_idem s))
    ∙ trim_start_idem (trim_end s)

pub trim-nil : trim [] ≡ []
unfolding trim
trim-nil = refl
