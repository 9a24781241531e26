-- ===== src/Candidates/Common.antt =====
-- The candidates occur in every column, in their order there.
use vxsig.Prelude.{
  ℕ, suc, not, ◌&&◌, ◌≤◌, ◌≡◌, ◌≢◌, refl, subst, sym, true, false, Bool-cases, inl, inr, List, [],
  ◌∷◌, map, some, arith, get_elem?, length, length-map, nat_eq, get_elem?-map, All,
}
use vxsig.SortedMap.{Map}
use vxsig.Subsequence.{Subsequence}
use vxsig.MatchChain.{normal, library, imported, thunk, invalid, MatchedFunction, MatchChainColumn}
use vxsig.CommonSubsequence.Correct.{common_subsequence-Subsequence}
use vxsig.Generic.{is_empty}
use vxsig.Candidates.{is_normal, is_candidate_function, function_ids, compute_function_candidates}

-- A normal function with basic blocks.
abbrev pub IsCandidate : MatchedFunction → Type 0
IsCandidate func = (func.vertex_type ≡ normal) × (func.basic_blocks ≢ [])

-- `Candidates functions names`: the ids of those of the functions that are candidates, in order.
pub data Candidates : Map MatchedFunction → List ℕ → Type 0 where
  none_left : Candidates [] []
  named :
      {item : ℕ × MatchedFunction} {items : Map MatchedFunction} {names : List ℕ}
      → IsCandidate item.1
      → Candidates items names
      → Candidates (item ∷ items) (item.1.matched.id ∷ names)
  passed :
      {item : ℕ × MatchedFunction} {items : Map MatchedFunction} {names : List ℕ}
      → ¬ IsCandidate item.1
      → Candidates items names
      → Candidates (item ∷ items) names

is_candidate_function-IsCandidate :
    (func : MatchedFunction) → is_candidate_function func ≡ true → IsCandidate func
unfolding is_candidate_function
is_candidate_function-IsCandidate func h = by_type func.vertex_type func.basic_blocks h
  where
    by_type :
        (t : _) (blocks : List ℕ)
        → is_normal t && not (is_empty blocks) ≡ true
        → (t ≡ normal) × (blocks ≢ [])
    by_type normal [] h = absurd (ground arith)
    by_type normal (b ∷ bs) h = (refl, λ e. absurd (ground arith))
    by_type library bs h = absurd (ground arith)
    by_type imported bs h = absurd (ground arith)
    by_type thunk bs h = absurd (ground arith)
    by_type invalid bs h = absurd (ground arith)

is_candidate_function-false :
    (func : MatchedFunction) → is_candidate_function func ≡ false → ¬ IsCandidate func
unfolding is_candidate_function
is_candidate_function-false func h (at_normal, some_blocks) = by_blocks func.basic_blocks refl
  where
    by_blocks : (blocks : List ℕ) → func.basic_blocks ≡ blocks → ⊥
    by_blocks [] e = some_blocks e
    by_blocks (b ∷ bs) e = ground arith

function_ids-Candidates : (items : Map MatchedFunction) → Candidates items (function_ids items)
unfolding function_ids
function_ids-Candidates [] = none_left
function_ids-Candidates (item ∷ items) = elim (Bool-cases (is_candidate_function item.1)) [
  | inl is ↦
      rw is (named (is_candidate_function-IsCandidate item.1 is) (function_ids-Candidates items))
  | inr is_not ↦
      rw is_not (passed (is_candidate_function-false item.1 is_not) (function_ids-Candidates items))
]

-- The ids occur among those of the column's candidates.
abbrev pub OccursIn : List ℕ → MatchChainColumn → Type 0
OccursIn ids column =
    (names : List ℕ) × Candidates column.functions_by_address names × Subsequence ids names

get_elem?-All :
    {P : MatchChainColumn → Type 0} (table : List MatchChainColumn)
    → ((k : ℕ) (column : MatchChainColumn) → get_elem? table k ≡ some column → P column)
    → All P table
get_elem?-All [] h = tt
get_elem?-All (column ∷ columns) h =
    (h 0 column refl, get_elem?-All columns (λ k c at. h (suc k) c at))

-- For a table of two or more columns, candidates are computed. Their ids occur in this order among
-- the ids of the functions of each column, by address, that are normal and have basic blocks.
pub compute_function_candidates-OccursIn :
    (table : List MatchChainColumn)
    → 2 ≤ length table
    → (ids : List ℕ) × (compute_function_candidates table ≡ some ids) × All (OccursIn ids) table
unfolding compute_function_candidates
compute_function_candidates-OccursIn table two =
    let names = λ (column : MatchChainColumn). function_ids column.functions_by_address in
    let (ids, e, occurs) =
      common_subsequence-Subsequence (map names table)
        (subst (λ n. 2 ≤ n) (sym (length-map table names)) two) in
    (
      ids,
      e,
      get_elem?-All {P = OccursIn ids} table λ k column at. (
        names column,
        function_ids-Candidates column.functions_by_address,
        occurs k (names column) (get_elem?-map table names k at),
      ),
    )
