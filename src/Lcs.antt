-- ===== src/Lcs.antt =====
-- vxsig/longest_common_subsequence.h and .cc: the algorithm of Hirschberg.
-- A pair of iterators is the list of the items between them, a pair of reverse iterators the
-- reversed list. Row entries are natural numbers: they never exceed the length of a sequence, so
-- the `int32_t` of the source holds them for sequences of fewer than 2^31 items.
pub mod Length
pub mod Row
pub mod Split
pub mod Optimal
use vxsig.Prelude.{
  ℕ, zero, suc, ◌+◌, ◌-◌, ◌/◌, max, Bool, true, false, List, [], ◌∷◌, ◌++◌, reverse, Option, none,
  some, Eq, ◌=?◌, ltb, length, get_or, take, drop, replicate, if◌then◌else◌, ◌>>=◌,
}

module _ {ℓ} {A : Type ℓ} ⦃e : Eq A⦄ where
  -- The inner loop of `ComputeSingleLcsRow` for the item `x` of the first sequence, from position
  -- `i` on: `left` is `(*result)[i]`, `prev` the entries of `prev` from `i` on, `ys` the items from
  -- `it2` on. Returns the entries of `result` from `i + 1` on.
  pub row_from : A → ℕ → List ℕ → List A → List ℕ
  row_from x left (p ∷ q ∷ prev) (y ∷ ys) =
      let entry = if x =? y then p + 1 else max left q in entry ∷ row_from x entry (q ∷ prev) ys
  row_from x left prev ys = []

  -- One round of the outer loop; `(*result)[0]` is not written.
  pub next_row : List A → List ℕ → A → List ℕ
  next_row ys [] x = []
  next_row ys (first ∷ prev) x = first ∷ row_from x first (first ∷ prev) ys

  pub rows_from : List A → List A → List ℕ → List ℕ
  rows_from [] ys result = result
  rows_from (x ∷ xs) ys result = rows_from xs ys (next_row ys result x)

  pub compute_single_lcs_row : List A → List A → List ℕ
  unfolding rows_from next_row row_from
  compute_single_lcs_row xs ys = rows_from xs ys (replicate (length ys + 1) 0)

  -- The loop over a common prefix: what is copied, and what is left of both sequences. The loop
  -- over a common suffix is the same on the reversed sequences.
  pub common_prefix : List A → List A → List A × List A × List A
  common_prefix (x ∷ xs) (y ∷ ys) = elim (x =? y) [
    | true ↦ let rest = common_prefix xs ys in (x ∷ rest.0, rest.1, rest.2)
    | false ↦ ([], x ∷ xs, y ∷ ys)
  ]
  common_prefix xs ys = ([], xs, ys)

  -- `std::find(first2, nlast2, *first1) != nlast2`.
  unfoldable pub contains : List A → A → Bool
  contains [] x = false
  contains (y ∷ ys) x = if y =? x then true else contains ys x

-- The test `ll_max < ll_cur`, where `none` is the initial -1.
pub below : Option ℕ → ℕ → Bool
below none n = true
below (some m) n = ltb m n

-- The loop over the split positions, `rounds` of them from `i` on.
pub pivot_from : (rounds i : ℕ) → List ℕ → List ℕ → ℕ → Option ℕ → ℕ → ℕ
pivot_from zero i left right size2 ll_max pivot = pivot
pivot_from (suc rounds) i left right size2 ll_max pivot =
    let ll_cur : ℕ = get_or left i 0 + get_or right (size2 - i) 0 in
    let better = below ll_max ll_cur in
    pivot_from rounds (i + 1) left right size2 (if better then some ll_cur else ll_max)
      (if better then i else pivot)

module _ {ℓ} {A : Type ℓ} ⦃e : Eq A⦄ where
  -- `size2 + 1` rounds. Both branches of the test on `size1 + size2` compute the rows alike.
  pub split_position : List A → List A → List A → ℕ
  unfolding compute_single_lcs_row pivot_from below
  split_position left right ys =
      let ll_left = compute_single_lcs_row left ys in
      let ll_right = compute_single_lcs_row (reverse right) (reverse ys) in
      pivot_from (length ys + 1) 0 ll_left ll_right (length ys) none 0

  -- The body behind the two loops, with the recursive call passed in.
  pub divide : (List A → List A → Option (List A)) → List A → List A → Option (List A)
  unfolding split_position contains
  divide recur [] ys = some []
  divide recur (x ∷ []) ys = if contains ys x then some (x ∷ []) else some []
  divide recur (x ∷ x' ∷ xs) ys =
      let size1 = length (x ∷ x' ∷ xs) in
      let left = take (size1 / 2) (x ∷ x' ∷ xs) in
      let right = drop (size1 / 2) (x ∷ x' ∷ xs) in
      let pivot = split_position left right ys in
      do r1 ← recur left (take pivot ys); r2 ← recur right (drop pivot ys); some (r1 ++ r2)

  -- What follows the loop over the common prefix: the test for empty sequences, the loop over the
  -- common suffix, the divided problem, and the copy of the suffix.
  pub behind_prefix :
      (List A → List A → Option (List A)) → List A → List A → List A → Option (List A)
  unfolding divide common_prefix
  behind_prefix recur prefix [] ys = some prefix
  behind_prefix recur prefix (x ∷ xs) [] = some prefix
  behind_prefix recur prefix (x ∷ xs) (y ∷ ys) =
      let (suffix, xs', ys') = common_prefix (reverse (x ∷ xs)) (reverse (y ∷ ys)) in
      do r ← divide recur (reverse xs') (reverse ys'); some (prefix ++ (r ++ reverse suffix))

  -- `detail::LongestCommonSubsequence`. The fuel bounds the depth of the recursion.
  pub lcs : ℕ → List A → List A → Option (List A)
  unfolding behind_prefix common_prefix
  lcs zero xs ys = none
  lcs (suc fuel) xs ys =
      let (prefix, xs', ys') = common_prefix xs ys in behind_prefix (lcs fuel) prefix xs' ys'

  unfoldable pub longest_common_subsequence : List A → List A → Option (List A)
  unfolding lcs
  longest_common_subsequence xs ys = lcs (length xs + 1) xs ys
