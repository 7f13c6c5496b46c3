-- ===== src/Numbering/Counting.antt =====
-- Counting up: distinct numbers without gaps, behind the numbers that are there.
use content_pool_next.Base.{
  ℕ, zero, suc, ◌≤◌, max, String, string_eq, number_eq, false, List, [], ◌∷◌, ◌++◌, map, contains,
  length, same, All, IsDistinct, ◌≡◌, refl, arith, Bool-cases, inl, inr, str_eq_iff,
}
use content_pool_next.Base.Text.{Text, text_eq}
use content_pool_next.Numbering.{
  ItemRow, RowNumber, Numbers, keys, count_up, max_number, of_acp, entries_of,
}
use content_pool_next.Numbering.Sorting.{row_keys}

abbrev pub values : Numbers → List ℕ
values = map (λ n. n.1)

-- `n` numbers from `first` on
unfoldable pub numbers_from : ℕ → ℕ → List ℕ
numbers_from first zero = []
numbers_from first (suc n) = first ∷ numbers_from (suc first) n

pub keys-count_up : (last : ℕ) (rows : List ItemRow) → keys (count_up last rows) ≡ row_keys rows
unfolding count_up
keys-count_up last [] = refl
keys-count_up last (r ∷ rows) = rw (keys-count_up (suc last) rows)

pub length-count_up : (last : ℕ) (rows : List ItemRow) → length (count_up last rows) ≡ length rows
unfolding count_up
length-count_up last [] = refl
length-count_up last (r ∷ rows) = rw (length-count_up (suc last) rows)

pub values-count_up :
    (last : ℕ) (rows : List ItemRow)
    → values (count_up last rows) ≡ numbers_from (suc last) (length rows)
unfolding count_up numbers_from
values-count_up last [] = refl
values-count_up last (r ∷ rows) = rw (values-count_up (suc last) rows)

pub numbers_from-le : (first n : ℕ) → All (λ v. first ≤ v) (numbers_from first n)
unfolding numbers_from
numbers_from-le first zero = tt
numbers_from-le first (suc n) =
    (omega arith, weaker (numbers_from (suc first) n) (numbers_from-le (suc first) n))
  where
    weaker : (vs : List ℕ) → All (λ v. suc first ≤ v) vs → All (λ v. first ≤ v) vs
    weaker [] h = tt
    weaker (v ∷ vs) h = (omega arith, weaker vs h.1)

above_not_in : (k : ℕ) (vs : List ℕ) → All (λ v. suc k ≤ v) vs → contains k vs ≡ false
above_not_in k [] h = refl
above_not_in k (v ∷ vs) h = ground (arith, above_not_in k vs h.1)

pub numbers_from-IsDistinct : (first n : ℕ) → IsDistinct (numbers_from first n)
unfolding numbers_from
numbers_from-IsDistinct first zero = tt
numbers_from-IsDistinct first (suc n) = (
  above_not_in first (numbers_from (suc first) n) (numbers_from-le (suc first) n),
  numbers_from-IsDistinct (suc first) n,
)

abbrev pub row_numbers : List RowNumber → List ℕ
row_numbers = map (λ e. e.row_number)

pub max_number-le :
    (acp_id : String) (table : List RowNumber)
    → All (λ v. v ≤ max_number acp_id table) (row_numbers (of_acp acp_id table))
unfolding max_number
max_number-le acp_id [] = tt
max_number-le acp_id (e ∷ table) = elim (Bool-cases (same e.acp_id acp_id)) [
  | inl own ↦
      rw own (omega arith, wider (row_numbers (of_acp acp_id table)) (max_number-le acp_id table))
  | inr foreign ↦ rw foreign (max_number-le acp_id table)
]
  where
    wider :
        (vs : List ℕ)
        → All (λ v. v ≤ max_number acp_id table) vs
        → All (λ v. v ≤ max e.row_number (max_number acp_id table)) vs
    wider [] h = tt
    wider (v ∷ vs) h = (omega arith, wider vs h.1)

-- Numbers behind the maximum are new.
pub fresh_numbers :
    (top : ℕ) (old new : List ℕ)
    → All (λ v. v ≤ top) old
    → All (λ v. suc top ≤ v) new
    → All (λ v. contains v old ≡ false) new
fresh_numbers top old [] h k = tt
fresh_numbers top old (v ∷ new) h k = (below v old h k.0, fresh_numbers top old new h k.1)
  where
    below : (v : ℕ) (old : List ℕ) → All (λ v. v ≤ top) old → suc top ≤ v → contains v old ≡ false
    below v [] h k = refl
    below v (w ∷ old) h k = ground (arith, below v old h.1 k)

pub of_acp-append :
    (acp_id : String) (s t : List RowNumber)
    → of_acp acp_id (s ++ t) ≡ of_acp acp_id s ++ of_acp acp_id t
of_acp-append acp_id [] t = refl
of_acp-append acp_id (e ∷ s) t = elim (Bool-cases (same e.acp_id acp_id)) [
  | inl own ↦ rw (own, of_acp-append acp_id s t)
  | inr foreign ↦ rw (foreign, of_acp-append acp_id s t)
]

module _ (hash : Text → Text) where
  pub of_acp-entries_of :
      (acp_id : String) (numbers : Numbers)
      → of_acp acp_id (entries_of hash acp_id numbers) ≡ entries_of hash acp_id numbers
  unfolding entries_of
  of_acp-entries_of acp_id [] = refl
  of_acp-entries_of acp_id (n ∷ numbers) =
      rw (((str_eq_iff acp_id acp_id).1 refl), of_acp-entries_of acp_id numbers)

  pub of_other-entries_of :
      (acp_id other : String) (numbers : Numbers)
      → same acp_id other ≡ false
      → of_acp other (entries_of hash acp_id numbers) ≡ []
  unfolding entries_of
  of_other-entries_of acp_id other [] h = refl
  of_other-entries_of acp_id other (n ∷ numbers) h =
      rw (h, of_other-entries_of acp_id other numbers h)

  pub row_numbers-entries_of :
      (acp_id : String) (numbers : Numbers)
      → row_numbers (entries_of hash acp_id numbers) ≡ values numbers
  unfolding entries_of
  row_numbers-entries_of acp_id [] = refl
  row_numbers-entries_of acp_id (n ∷ numbers) = rw (row_numbers-entries_of acp_id numbers)
