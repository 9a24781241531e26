-- ===== src/MatchChain/Insert/Stale.antt =====
-- What `MatchChainInserter` does with the matches of a function that the filter leaves out.
use vxsig.Prelude.{ℕ, ◌≡◌, refl, none, some, true}
use vxsig.SortedMap.{is_member}
use vxsig.MatchChain.Insert.{
  is_filtered, insert_function_match, insert_instruction_match, MatchChainInserter,
  add_function_match, add_basic_block_match, add_instruction_match,
}

-- The inserter behind a function that is filtered out.
abbrev forgotten : MatchChainInserter → MatchChainInserter
forgotten inserter = record inserter { current_function = none }

add_function_match-filtered :
    (inserter : MatchChainInserter) (function : ℕ × ℕ)
    → is_filtered inserter.column.function_filter
        (is_member function.0 inserter.column.filtered_functions)
      ≡ true
    → add_function_match inserter function ≡ forgotten inserter
unfolding add_function_match insert_function_match
add_function_match-filtered inserter function filtered =
    rw (filtered, add_function_match, insert_function_match) refl

stale :
    (location : ℕ) (inserter : MatchChainInserter) (block : ℕ) (basic_block instruction : ℕ × ℕ)
    → inserter.current_basic_block ≡ some block
    → (add_instruction_match location
        (add_basic_block_match (forgotten inserter) basic_block)
        instruction).column
      ≡ insert_instruction_match inserter.column location block instruction
unfolding add_basic_block_match add_instruction_match
stale location inserter block basic_block instruction current = rw current refl

-- When a function is filtered out, its basic blocks are not inserted, but the inserter still points
-- to the last basic block before: the instructions of the filtered function are inserted into it.
pub add_instruction_match-stale :
    (location : ℕ) (inserter : MatchChainInserter) (block : ℕ)
    (function basic_block instruction : ℕ × ℕ)
    → inserter.current_basic_block ≡ some block
    → is_filtered inserter.column.function_filter
        (is_member function.0 inserter.column.filtered_functions)
      ≡ true
    → (let after = add_basic_block_match (add_function_match inserter function) basic_block in
        (add_instruction_match location after instruction).column
        ≡ insert_instruction_match inserter.column location block instruction)
add_instruction_match-stale location inserter block function basic_block instruction current
      filtered =
    rw (add_function_match-filtered inserter function filtered)
      (stale location inserter block basic_block instruction current)
