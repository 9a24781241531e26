-- ===== src/Tests/Sequences.antt =====
-- The sequence algorithms on lists of numbers.
use vxsig.Prelude.{
  ℕ, ◌+◌, ◌-◌, ◌≤◌, max, ◌≡◌, ◌↔◌, refl, List, [], ◌∷◌, ◌++◌, map, some, arith, false, length, take,
  get_or, get_elem?, nat_eq,
}
use vxsig.Subsequence.{Subsequence, done, skip, keep}
use vxsig.Hamming.{hamming_distance}
use vxsig.Hamming.Metric.{hamming_distance-IsMetric, Same}
use vxsig.Lcs.{compute_single_lcs_row, split_position, longest_common_subsequence}
use vxsig.Lcs.Length.{lcs_length}
use vxsig.Lcs.Row.{compute_single_lcs_row_lem}
use vxsig.Lcs.Split.{split_length, split_position-IsBest}
use vxsig.Lcs.Optimal.{IsLcs, longest_common_subsequence-IsLongest}
use vxsig.CommonSubsequence.{fold_pair, common_subsequence}
use vxsig.CommonSubsequence.Cover.{Progress, fold_pair-Progress}
use vxsig.CommonSubsequence.Correct.{common_subsequence-Subsequence}
use vxsig.Regex.{Gap, initial_gap, find_behind, advance_all, regex_from_subsequence}
use vxsig.Regex.Find.{IsMoved, advance_all-IsMoved}
use vxsig.Regex.Total.{regex_from_subsequence-total}
use vxsig.Regex.Matching.{
  Item, literal, Occurs, first, item, end, unbounded, regex_from_subsequence-Occurs,
}
use vxsig.Regex.Last.{
  stop, more, regex_from_subsequence-Occurs_last, regex_from_subsequence-literal,
}

abbrev short : List ℕ
short = 1 ∷ 3 ∷ []

abbrev gapped : List ℕ
gapped = 1 ∷ 2 ∷ 3 ∷ []

abbrev late : List ℕ
late = 0 ∷ 1 ∷ 3 ∷ []

abbrev mixed : List ℕ
mixed = 2 ∷ 1 ∷ 3 ∷ 1 ∷ []

abbrev other : List ℕ
other = 2 ∷ 3 ∷ []

abbrev three : List (List ℕ)
three = gapped ∷ late ∷ mixed ∷ []

longest_common_subsequence-IsLongest_example :
    (r : List ℕ) × (longest_common_subsequence gapped mixed ≡ some r)
    × IsLcs gapped mixed r
    × (length other ≤ length r)
longest_common_subsequence-IsLongest_example =
    longest_common_subsequence-IsLongest gapped mixed other (skip (keep refl (keep refl done)))
      (keep refl (skip (keep refl (skip done))))

common_subsequence-Subsequence_example :
    (r : List ℕ) × (common_subsequence three ≡ some r)
    × ((k : ℕ) (t : List ℕ) → get_elem? three k ≡ some t → Subsequence r t)
common_subsequence-Subsequence_example = common_subsequence-Subsequence three (omega arith)

short-gapped : Subsequence short gapped
short-gapped = keep refl (skip (keep refl done))

short-late : Subsequence short late
short-late = skip (keep refl (keep refl done))

regex_from_subsequence-Occurs_last_example :
    (items : List (Item ℕ)) × (regex_from_subsequence literal unbounded short
        ((gapped ∷ []) ++ (late ∷ []))
      ≡ some items)
    × Occurs items late
regex_from_subsequence-Occurs_last_example =
    regex_from_subsequence-Occurs_last short (gapped ∷ []) late (short-gapped, tt) short-late

regex_from_subsequence-Occurs_example : Occurs (literal 1 ∷ literal 3 ∷ []) mixed
unfolding regex_from_subsequence find_behind
regex_from_subsequence-Occurs_example =
    regex_from_subsequence-Occurs short (mixed ∷ []) mixed late 0 (literal 1 ∷ literal 3 ∷ []) refl
      refl (first refl refl (item refl refl (λ z. refl) end))

regex_from_subsequence-literal_example : literal 1 ∷ literal 3 ∷ [] ≡ map literal short
unfolding regex_from_subsequence find_behind
regex_from_subsequence-literal_example =
    regex_from_subsequence-literal 1 (3 ∷ []) (gapped ∷ []) late (3 ∷ []) 1
      (literal 1 ∷ literal 3 ∷ []) refl (more refl stop) refl

regex_from_subsequence-total_example :
    (items : List (Item ℕ)) × (regex_from_subsequence literal unbounded short (gapped ∷ late ∷ [])
      ≡ some items)
regex_from_subsequence-total_example =
    regex_from_subsequence-total literal unbounded short (gapped ∷ late ∷ [])
      (short-gapped, (short-late, tt))

abbrev moved_gap : Gap
moved_gap = record { min_cont = 0; max_cont = 1; insert_wildcard = false }

advance_all-IsMoved_example : IsMoved 1 ((2 ∷ 3 ∷ []) ∷ (3 ∷ []) ∷ []) moved_gap 1 late
unfolding advance_all
advance_all-IsMoved_example =
    advance_all-IsMoved (gapped ∷ late ∷ []) 1 (some 3) (initial_gap 2) refl 1 late refl

compute_single_lcs_row_lem_example :
    get_or (compute_single_lcs_row gapped mixed) 3 0 ≡ lcs_length gapped (take 3 mixed)
compute_single_lcs_row_lem_example = compute_single_lcs_row_lem gapped mixed 3 (omega arith)

split_position-IsBest_example :
    (split_position gapped short mixed ≤ 4)
    × ((i : ℕ)
        → i ≤ 4
        → split_length gapped short mixed i
          ≤ split_length gapped short mixed (split_position gapped short mixed))
split_position-IsBest_example = split_position-IsBest gapped short mixed

fold_pair-Progress_example : Progress three (fold_pair three)
fold_pair-Progress_example = fold_pair-Progress three

hamming_distance-IsMetric_example :
    (hamming_distance gapped late ≡ hamming_distance late gapped)
    × ((hamming_distance gapped late ≡ 0) ↔ Same gapped late)
    × (hamming_distance gapped mixed ≤ hamming_distance gapped late + hamming_distance late mixed)
    × (length gapped - length late ≤ hamming_distance gapped late)
    × (length late - length gapped ≤ hamming_distance gapped late)
    × (hamming_distance gapped late ≤ max (length gapped) (length late))
hamming_distance-IsMetric_example = hamming_distance-IsMetric gapped late mixed
