-- ===== src/Collections/KeyLaws.antt =====
-- What `normalizeRowKeys` accepts, and that it keeps what it has accepted.
use content_pool_next.Base.{
  ℕ, false, ◌≤◌, Option, none, some, List, [], ◌∷◌, map, contains, length, ltb, All, IsDistinct,
  suc, length-map, ◌≡◌, refl, arith, Bool-cases, inl, inr, if◌then◌else◌,
}
use content_pool_next.Base.Text.{Text, text_eq, trim, text_beq_iff}
use content_pool_next.Base.Text.Laws.{trim_idem}
use content_pool_next.Base.Http.{ok, bad_request, throw_if, >>=-eq-ok}
use content_pool_next.Collections.{RawKeys, max_collection_rows}
use content_pool_next.Collections.Normalize.{is_bad_key, collect_row_keys, normalize_row_keys}

-- A row key as it is stored: trimmed, not empty, and of at most 500 code units.
abbrev pub IsRowKey : Text → Type 0
IsRowKey key = (trim key ≡ key) × (is_bad_key key ≡ false)

-- The row keys of a collection: at most 10,000, all of them row keys, none twice.
pub record AreRowKeys (keys : List Text) : Type 0 where
  pub valid : All IsRowKey keys
  pub distinct : IsDistinct keys
  pub bounded : length keys ≤ max_collection_rows

-- what the loop returns, and that it keeps nothing seen before
pub record Collected (seen keys : List Text) (count : ℕ) : Type 0 where
  pub valid : All IsRowKey keys
  pub distinct : IsDistinct keys
  pub fresh : All (λ k. contains k seen ≡ false) keys
  pub bounded : length keys ≤ count

pub fresh-weaken :
    (key : Text) (seen keys : List Text)
    → All (λ k. contains k (key ∷ seen) ≡ false) keys
    → All (λ k. contains k seen ≡ false) keys × (contains key keys ≡ false)
fresh-weaken key seen [] h = (tt, refl)
fresh-weaken key seen (k ∷ keys) h =
    ground (arith, fresh-weaken key seen keys h.1, text_beq_iff k key, text_beq_iff key k)

-- one more key in front
Collected-cons :
    (key : Text) (seen keys : List Text) (count : ℕ)
    → IsRowKey key
    → Collected (key ∷ seen) keys count
    → Collected seen (if contains key seen then keys else key ∷ keys) (suc count)
Collected-cons key seen keys count h c =
    let (fresh, absent) = fresh-weaken key seen keys c.fresh in
    elim (Bool-cases (contains key seen)) [
      | inl old ↦ rw old (record {
        valid = c.valid;
        distinct = c.distinct;
        fresh = fresh;
        bounded = omega (arith, c.bounded);
      })
      | inr new ↦ rw new (record {
        valid = (h, c.valid);
        distinct = (absent, c.distinct);
        fresh = (new, fresh);
        bounded = omega (arith, c.bounded);
      })
    ]

collect_row_keys-Collected :
    (seen : List Text) (raws : List (Option Text)) (keys : List Text)
    → collect_row_keys seen raws ≡ ok keys
    → Collected seen keys (length raws)
unfolding collect_row_keys
collect_row_keys-Collected seen [] keys e =
    let none_left : [] ≡ keys = ground arith in
    rw (← none_left) (record { valid = tt; distinct = tt; fresh = tt; bounded = omega arith })
collect_row_keys-Collected seen (none ∷ raws) keys e = absurd (ground arith)
collect_row_keys-Collected seen (some raw ∷ raws) keys e =
    let (_, good, rest) = >>=-eq-ok (throw_if (is_bad_key (trim raw)) bad_request) _ e in
    let (tail, collected, final) = >>=-eq-ok (collect_row_keys (trim raw ∷ seen) raws) _ rest in
    let kept : (if contains (trim raw) seen then tail else trim raw ∷ tail) ≡ keys = ground arith in
    rw (← kept) (
      Collected-cons (trim raw) seen tail (length raws) (trim_idem raw, ground arith)
        (collect_row_keys-Collected (trim raw ∷ seen) raws tail collected))

-- Row keys that are accepted are trimmed, not empty, short enough, distinct and not too many.
pub normalize_row_keys-AreRowKeys :
    (raw : RawKeys) (keys : List Text) → normalize_row_keys raw ≡ ok keys → AreRowKeys keys
unfolding normalize_row_keys
normalize_row_keys-AreRowKeys none keys e = absurd (ground arith)
normalize_row_keys-AreRowKeys (some raws) keys e =
    elim (Bool-cases (ltb max_collection_rows (length raws))) [
      | inl long ↦ absurd (ground arith)
      | inr short ↦
          let c = collect_row_keys-Collected [] raws keys (rw short at e) in
          record { valid = c.valid; distinct = c.distinct; bounded = ground (arith, c.bounded) }
    ]

pub fresh-strengthen :
    (key : Text) (seen keys : List Text)
    → contains key keys ≡ false
    → All (λ k. contains k seen ≡ false) keys
    → All (λ k. contains k (key ∷ seen) ≡ false) keys
fresh-strengthen key seen [] absent h = tt
fresh-strengthen key seen (k ∷ keys) absent h =
    ground (arith, fresh-strengthen key seen keys, text_beq_iff k key, text_beq_iff key k)

pub fresh-nil : (keys : List Text) → All (λ k. contains k [] ≡ false) keys
fresh-nil [] = tt
fresh-nil (k ∷ keys) = (refl, fresh-nil keys)

collect_row_keys-stored :
    (seen keys : List Text)
    → All IsRowKey keys
    → IsDistinct keys
    → All (λ k. contains k seen ≡ false) keys
    → collect_row_keys seen (map some keys) ≡ ok keys
unfolding collect_row_keys
collect_row_keys-stored seen [] v d f = refl
collect_row_keys-stored seen (k ∷ keys) v d f =
    rw (v.0.0, v.0.1)
      (rw (collect_row_keys-stored (k ∷ seen) keys v.1 d.1 (fresh-strengthen k seen keys d.0 f.1))
        (rw f.0))

-- Row keys that were accepted once are read back as they are.
pub normalize_row_keys-stored :
    (keys : List Text) → AreRowKeys keys → normalize_row_keys (some (map some keys)) ≡ ok keys
unfolding normalize_row_keys
normalize_row_keys-stored keys h = ground (
  arith,
  h.bounded,
  length-map {B = Option Text} some keys,
  collect_row_keys-stored [] keys h.valid h.distinct (fresh-nil keys),
)
