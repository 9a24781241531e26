-- ===== src/Candidates.antt =====
-- vxsig/candidates.cc: the functions and basic blocks of which a signature is made.
pub mod Common
pub mod Overlaps
use vxsig.Prelude.{
  ℕ, Bool, true, false, not, ◌&&◌, ◌||◌, List, [], ◌∷◌, ◌++◌, Option, none, some, ◌>>=◌, ltb, leb,
  ◌==◌, if◌then◌else◌, map, nat_eq,
}
use vxsig.SortedMap.{Map, find}
use vxsig.MatchChain.{
  VertexType, normal, MatchedInstruction, MatchedBasicBlock, MatchedFunction, MatchChainColumn,
  find_function_by_id, find_basic_block_by_id,
}
use vxsig.CommonSubsequence.{common_subsequence}
use vxsig.Generic.{is_empty}

abbrev pub is_normal : VertexType → Bool
is_normal normal = true
is_normal _ = false

unfoldable pub is_candidate_function : MatchedFunction → Bool
is_candidate_function func = is_normal func.vertex_type && not (is_empty func.basic_blocks)

-- `none`: the process stops where the block has no instructions.
pub is_candidate_basic_block : MatchedBasicBlock → Option Bool
is_candidate_basic_block bb =
    if is_empty bb.instructions then none else some (not (bb.matched.id == 0))

-- The ids of a column's candidate functions, by address.
pub function_ids : Map MatchedFunction → List ℕ
unfolding is_candidate_function
function_ids [] = []
function_ids (item ∷ items) =
    let rest = function_ids items in
    if is_candidate_function item.1 then item.1.matched.id ∷ rest else rest

-- What is appended to `func_candidate_ids`.
unfoldable pub compute_function_candidates : List MatchChainColumn → Option (List ℕ)
unfolding function_ids
compute_function_candidates match_chain_table =
    common_subsequence (map (λ column. function_ids column.functions_by_address) match_chain_table)

-- `bb_word`: the pointers of the candidate functions' basic blocks.
pub block_word : MatchChainColumn → List ℕ → Option (List ℕ)
block_word column [] = some []
block_word column (func_candidate ∷ func_candidates) =
    find_function_by_id column func_candidate >>= λ func.
    block_word column func_candidates >>= λ rest. some (func.basic_blocks ++ rest)

-- The ids of the candidates among the sorted pointers.
pub block_ids : MatchChainColumn → List ℕ → Option (List ℕ)
unfolding is_candidate_basic_block
block_ids column [] = some []
block_ids column (pointer ∷ pointers) = find column.basic_blocks_by_address pointer >>= λ bb.
    is_candidate_basic_block bb >>= λ keep.
    block_ids column pointers >>= λ rest. some (if keep then bb.matched.id ∷ rest else rest)

-- The loop over the columns. `sort` is `std::sort`, by address.
pub column_block_ids : (List ℕ → List ℕ) → List ℕ → List MatchChainColumn → Option (List (List ℕ))
unfolding block_word block_ids
column_block_ids sort func_candidate_ids [] = some []
column_block_ids sort func_candidate_ids (column ∷ columns) =
    block_word column func_candidate_ids >>= λ bb_word. block_ids column (sort bb_word) >>= λ ids.
    column_block_ids sort func_candidate_ids columns >>= λ rest. some (ids ∷ rest)

unfoldable pub compute_basic_block_candidates :
    (List ℕ → List ℕ) → List MatchChainColumn → List ℕ → Option (List ℕ)
unfolding column_block_ids
compute_basic_block_candidates sort match_chain_table func_candidate_ids =
    column_block_ids sort func_candidate_ids match_chain_table >>= common_subsequence

-- The loop over the instructions of a block: `skip_bb` and `last_addr` behind it.
pub scan_instructions : MatchChainColumn → List ℕ → ℕ → Option (Bool × ℕ)
scan_instructions column [] last_addr = some (false, last_addr)
scan_instructions column (pointer ∷ pointers) last_addr =
    find column.instructions_by_address pointer >>= λ instr.
    let rest = scan_instructions column pointers instr.matched.address in
    if leb instr.matched.address last_addr then some (true, last_addr) else rest

-- The candidates of a column that do not overlap.
pub filter_column : MatchChainColumn → List ℕ → ℕ → Option (List ℕ)
unfolding scan_instructions
filter_column column [] last_addr = some []
filter_column column (bb_id ∷ bb_ids) last_addr = find_basic_block_by_id column bb_id >>= λ bb.
    scan_instructions column bb.instructions last_addr >>= λ scanned.
    filter_column column bb_ids scanned.1 >>= λ rest.
    some (if scanned.0 then rest else bb_id ∷ rest)

unfoldable pub filter_basic_block_overlaps : List MatchChainColumn → List ℕ → Option (List ℕ)
unfolding filter_column
filter_basic_block_overlaps [] bb_candidate_ids = some bb_candidate_ids
filter_basic_block_overlaps (column ∷ columns) bb_candidate_ids =
    filter_column column bb_candidate_ids 0 >>= filter_basic_block_overlaps columns
