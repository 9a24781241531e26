-- ===== src/CommonSubsequence.antt =====
-- vxsig/common_subsequence.h: `PruneSequence` and `CommonSubsequence`.
-- A `std::set<int>` is its items in ascending order. Indices are natural numbers: the `int`s of the
-- source count sequences.
pub mod Removals
pub mod Scan
pub mod Cover
pub mod Correct
use vxsig.Prelude.{
  ℕ, zero, suc, ◌+◌, ◌-◌, List, [], ◌∷◌, ◌++◌, map, Option, none, some, Eq, ltb, ◌==◌, length,
  get_or, if◌then◌else◌, ◌>>=◌,
}
use vxsig.Hamming.{hamming_distance}
use vxsig.Lcs.{contains, longest_common_subsequence}

-- `std::set::insert`.
pub set_insert : ℕ → List ℕ → List ℕ
set_insert i [] = i ∷ []
set_insert i (r ∷ rs) =
    let rest = set_insert i rs in
    if i == r then r ∷ rs else if ltb i r then i ∷ r ∷ rs else r ∷ rest

-- The variables of the loop over the pairs.
pub record PairScan : Type 0 where
  pub max_dist : ℕ
  pub shd : ℕ × ℕ
  pub removals : List ℕ

module _ {ℓ} {A : Type ℓ} where
  -- `sub_seqs.erase(sub_seqs.begin() + i)`.
  pub erase_at : List A → ℕ → List A
  erase_at [] i = []
  erase_at (x ∷ xs) zero = xs
  erase_at (x ∷ xs) (suc i) = x ∷ erase_at xs i

  -- The traversal of the removal set from `crbegin` to `crend`: the last index is erased first.
  pub erase_all : List A → List ℕ → List A
  unfolding erase_at
  erase_all xs [] = xs
  erase_all xs (r ∷ rs) = erase_at (erase_all xs rs) r

-- A round of the loop either copies a sequence to the result and returns, or goes on.
pub data Round {ℓ} (A : Type ℓ) : Type ℓ where
  returned : List A → Round A
  replaced : List (List A) → Round A

module _ {ℓ} {A : Type ℓ} ⦃e : Eq A⦄ where
  -- The items that `std::find` finds in the range to keep, moved to the front.
  pub prune_sequence : List A → List A → List A
  unfolding contains
  prune_sequence [] kept = []
  prune_sequence (x ∷ xs) kept =
      let rest = prune_sequence xs kept in if contains kept x then x ∷ rest else rest

  -- The body of the inner loop for the pair `i`, `j`.
  pub compare_pair : List (List A) → ℕ → ℕ → PairScan → PairScan
  unfolding hamming_distance set_insert
  compare_pair sub_seqs i j s =
      let cur_dist = hamming_distance (get_or sub_seqs i []) (get_or sub_seqs j []) in
      if cur_dist == 0
      then record s { removals = set_insert i s.removals }
      else if ltb s.max_dist cur_dist
      then record s { max_dist = cur_dist; shd = (i, j) }
      else s

  -- `for (int j = 0; j < i; ++j)`, with `rounds` rounds left.
  pub scan_row : List (List A) → (rounds i j : ℕ) → PairScan → PairScan
  unfolding compare_pair
  scan_row sub_seqs zero i j s = s
  scan_row sub_seqs (suc rounds) i j s =
      scan_row sub_seqs rounds i (j + 1) (compare_pair sub_seqs i j s)

  -- `for (int i = 0; i < sub_seqs.size(); ++i)`, with `rounds` rounds left.
  pub scan_pairs : List (List A) → (rounds i : ℕ) → PairScan → PairScan
  unfolding scan_row
  scan_pairs sub_seqs zero i s = s
  scan_pairs sub_seqs (suc rounds) i s =
      scan_pairs sub_seqs rounds (i + 1) (scan_row sub_seqs i i 0 s)

  pub scan : List (List A) → PairScan
  unfolding scan_pairs
  scan sub_seqs =
      scan_pairs sub_seqs (length sub_seqs) 0 (record { max_dist = 0; shd = (0, 0); removals = [] })

  -- The body of the `while` loop.
  pub fold_pair : List (List A) → Option (Round A)
  unfolding scan erase_all prune_sequence longest_common_subsequence set_insert
  fold_pair sub_seqs =
      let s = scan sub_seqs in
      let removals = set_insert s.shd.1 (set_insert s.shd.0 s.removals) in
      let rest = do
        max_dist_lcs ←
            longest_common_subsequence (get_or sub_seqs s.shd.1 []) (get_or sub_seqs s.shd.0 [])
        some (
            replaced (
              map (λ sequence. prune_sequence sequence max_dist_lcs) (erase_all sub_seqs removals)
              ++ (max_dist_lcs ∷ [])))
      in if length s.removals == length sub_seqs - 1
        then some (returned (get_or sub_seqs 0 []))
        else rest

  -- What follows the loop, for one or two sequences; the last case is the second ABSL_RAW_LOG(FATAL).
  pub finish : List (List A) → Option (List A)
  unfolding longest_common_subsequence
  finish (xs ∷ []) = some xs
  finish (xs ∷ ys ∷ []) = longest_common_subsequence xs ys
  finish sub_seqs = none

  -- The `while` loop, on fuel.
  pub fold_pairs : ℕ → List (List A) → Option (List A)
  unfolding fold_pair finish
  fold_pairs zero sub_seqs = none
  fold_pairs (suc fuel) sub_seqs =
      let more = fold_pair sub_seqs >>= λ round. elim round [
        | returned r ↦ some r
        | replaced sub_seqs' ↦ fold_pairs fuel sub_seqs'
      ] in
      if ltb 2 (length sub_seqs) then more else finish sub_seqs

  unfoldable pub common_subsequence : List (List A) → Option (List A)
  unfolding fold_pairs
  common_subsequence sequences =
      let result = fold_pairs (length sequences) sequences in
      if ltb (length sequences) 2 then none else result
