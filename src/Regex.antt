-- ===== src/Regex.antt =====
-- vxsig/subsequence_regex.h: `RegexFromSubsequence`.
-- An iterator into a sequence is the list of the items from it on. `none` is a failed CHECK, or the
-- read of `cur_seq_index[0]` at the end of a sequence, which that CHECK would refuse a round later.
pub mod Find
pub mod Total
pub mod Matching
pub mod Last
use vxsig.Prelude.{
  ℕ, suc, ◌-◌, ◌^◌, min, max, Bool, true, false, not, List, [], ◌∷◌, ◌++◌, Option, none, some, Eq,
  ◌=?◌, length, if◌then◌else◌, ◌>>=◌,
}

-- The variables that a round of the outer loop collects over the sequences.
pub record Gap : Type 0 where
  pub min_cont : ℕ
  pub max_cont : ℕ
  pub insert_wildcard : Bool

-- The initial `min_cont` is `std::distance(last, first)`, minus the length of the common
-- subsequence, which becomes a `size_t`.
abbrev pub initial_gap : ℕ → Gap
initial_gap size = record { min_cont = 2 ^ 64 - size; max_cont = 0; insert_wildcard = false }

abbrev pub collect : Gap → ℕ → Bool → Gap
collect gap skipped insert_wildcard = record {
  min_cont = min gap.min_cont skipped;
  max_cont = max gap.max_cont skipped;
  insert_wildcard = insert_wildcard;
}

module _ {ℓ} {A : Type ℓ} ⦃e : Eq A⦄ where
  -- `std::find(search_start, it->end(), *cs_it)`, then `++cur_seq_index`: the number of skipped
  -- items, `cont_count - 1`, and what is behind the item.
  unfoldable pub find_behind : List A → A → Option (ℕ × List A)
  find_behind [] x = none
  find_behind (y ∷ ys) x =
      let later = find_behind ys x >>= λ (n, rest). some (suc n, rest) in
      if y =? x then some (0, ys) else later

  -- Whether the sequence goes on with something else than the common subsequence does. `next` is
  -- `cs_it[1]`, or `none` where `std::distance(cs_it, last)` is 1.
  pub is_interrupted : Option A → List A → Bool → Option Bool
  is_interrupted none rest insert_wildcard = some insert_wildcard
  is_interrupted (some y) [] insert_wildcard = none
  is_interrupted (some y) (z ∷ rest) insert_wildcard = some (not (z =? y))

  -- The inner loop, over the sequences.
  unfoldable pub advance_all : A → Option A → List (List A) → Gap → Option (List (List A) × Gap)
  unfolding find_behind is_interrupted
  advance_all x next [] gap = some ([], gap)
  advance_all x next (s ∷ starts) gap = find_behind s x >>= λ (skipped, rest).
      is_interrupted next rest gap.insert_wildcard >>= λ insert_wildcard.
      advance_all x next starts (collect gap skipped insert_wildcard) >>= λ (starts', gap').
      some (rest ∷ starts', gap')

pub first? {ℓ} : {A : Type ℓ} → List A → Option A
first? [] = none
first? (x ∷ xs) = some x

-- `copy` is the assignment of an item through the output iterator, `wildcard_inserter` what the
-- callback appends to it.
module _ {ℓ κ} {A : Type ℓ} {B : Type κ} ⦃e : Eq A⦄ (copy : A → B)
    (wildcard_inserter : ℕ → ℕ → List B) where
  -- The outer loop. `size` is the length of the whole common subsequence, and `defer_wildcard` what
  -- the previous round left in `insert_wildcard`.
  pub regex_from : ℕ → Bool → List (List A) → List A → Option (List B)
  unfolding advance_all first?
  regex_from size defer_wildcard starts [] = some []
  regex_from size defer_wildcard starts (x ∷ cs) =
      advance_all x (first? cs) starts (initial_gap size) >>= λ (starts', gap).
      regex_from size gap.insert_wildcard starts' cs >>= λ rest. some (
        (if defer_wildcard then wildcard_inserter gap.min_cont gap.max_cont else [])
        ++ (copy x ∷ rest))

  unfoldable pub regex_from_subsequence : List A → List (List A) → Option (List B)
  unfolding regex_from
  regex_from_subsequence cs sequences = regex_from (length cs) false sequences cs
