-- ===== src/MatchChain/Insert.antt =====
-- Insertion of matches: the `Insert...Match` functions, `MatchChainInserter` and `FinishChain`.
pub mod Stale
pub mod Linked
pub mod Recorded
pub mod Finish
pub mod Filename
use vxsig.Prelude.{
  ℕ, Bool, true, false, not, List, [], ◌∷◌, Option, none, some, if◌then◌else◌, ◌>>=◌,
}
use vxsig.SortedMap.{Map, find, emplace, modify, insert, is_member}
use vxsig.Signature.{FunctionFilterMode, filter_none, filter_exclude, filter_include}
use vxsig.MatchChain.{
  MatchedFunction, MatchedBasicBlock, MatchedInstruction, MatchChainColumn, new_function,
  new_basic_block, new_instruction, with_functions, with_basic_blocks, with_instructions,
}

-- The function is left out by the filter.
unfoldable pub is_filtered : FunctionFilterMode → Bool → Bool
is_filtered filter_none address_in_filter = false
is_filtered filter_include address_in_filter = not address_in_filter
is_filtered filter_exclude address_in_filter = address_in_filter

-- A column and the pointer that an insertion returns, `none` where it is null.
pub data Inserted : Type 0 where
  inserted : MatchChainColumn → Option ℕ → Inserted

pub insert_function_match : MatchChainColumn → ℕ × ℕ → Inserted
unfolding is_filtered
insert_function_match column match_ =
    if is_filtered column.function_filter (is_member match_.0 column.filtered_functions)
    then inserted column none
    else inserted
        (with_functions column (emplace match_.0 (new_function match_) column.functions_by_address))
        (some match_.0)

pub add_basic_block : ℕ → MatchedFunction → MatchedFunction
add_basic_block block function = record function {
  basic_blocks = insert block function.basic_blocks;
}

-- `function` is not null: the callers have checked it.
pub insert_basic_block_match : MatchChainColumn → ℕ → ℕ × ℕ → MatchChainColumn
unfolding add_basic_block
insert_basic_block_match column function match_ =
    let blocks = emplace match_.0 (new_basic_block match_) column.basic_blocks_by_address in
    let functions = modify function (add_basic_block match_.0) column.functions_by_address in
    with_functions (with_basic_blocks column blocks) functions

pub add_instruction : ℕ → MatchedBasicBlock → MatchedBasicBlock
add_instruction instruction block = record block {
  instructions = insert instruction block.instructions;
}

-- `location` stands for the address of the object that may be allocated.
pub insert_instruction_match : MatchChainColumn → ℕ → ℕ → ℕ × ℕ → MatchChainColumn
unfolding add_instruction
insert_instruction_match column location block match_ =
    let instructions =
      emplace match_.0 (new_instruction location match_) column.instructions_by_address in
    let blocks = modify block (add_instruction match_.0) column.basic_blocks_by_address in
    with_basic_blocks (with_instructions column instructions) blocks

-- `MatchChainInserter`.
pub record MatchChainInserter : Type 0 where
  pub column : MatchChainColumn
  pub current_function : Option ℕ
  pub current_basic_block : Option ℕ

unfoldable pub add_function_match : MatchChainInserter → ℕ × ℕ → MatchChainInserter
unfolding insert_function_match
add_function_match inserter match_ = elim (insert_function_match inserter.column match_) [
  | inserted column function ↦ record {
    column = column;
    current_function = function;
    current_basic_block = inserter.current_basic_block;
  }
]

unfoldable pub add_basic_block_match : MatchChainInserter → ℕ × ℕ → MatchChainInserter
unfolding insert_basic_block_match
add_basic_block_match inserter match_ = elim inserter.current_function [
  | none ↦ inserter
  | some function ↦ record {
    column = insert_basic_block_match inserter.column function match_;
    current_function = some function;
    current_basic_block = some match_.0;
  }
]

unfoldable pub add_instruction_match : ℕ → MatchChainInserter → ℕ × ℕ → MatchChainInserter
unfolding insert_instruction_match
add_instruction_match location inserter match_ = elim inserter.current_basic_block [
  | none ↦ inserter
  | some block ↦ record {
    column = insert_instruction_match inserter.column location block match_;
    current_function = inserter.current_function;
    current_basic_block = some block;
  }
]

-- The innermost loop of `FinishChain`. A pointer of a set leads to an object.
pub finish_instructions :
    (ℕ → ℕ) → MatchChainColumn → ℕ → List ℕ → MatchChainColumn → Option MatchChainColumn
unfolding insert_instruction_match
finish_instructions allocate prev block [] column = some column
finish_instructions allocate prev block (instruction ∷ instructions) column =
    find prev.instructions_by_address instruction >>= λ instr.
    finish_instructions allocate prev block instructions (
      insert_instruction_match column (allocate instr.matched.address_in_next) block
        (instr.matched.address_in_next, 0))

pub finish_basic_blocks :
    (ℕ → ℕ) → MatchChainColumn → ℕ → List ℕ → MatchChainColumn → Option MatchChainColumn
unfolding insert_basic_block_match finish_instructions
finish_basic_blocks allocate prev function [] column = some column
finish_basic_blocks allocate prev function (block ∷ blocks) column =
    find prev.basic_blocks_by_address block >>= λ bb.
    finish_instructions allocate prev bb.matched.address_in_next bb.instructions
      (insert_basic_block_match column function (bb.matched.address_in_next, 0))
    >>= finish_basic_blocks allocate prev function blocks

-- The loop over the functions; `none` is the CHECK that fails for a function that is filtered.
pub finish_functions :
    (ℕ → ℕ) → MatchChainColumn → Map MatchedFunction → MatchChainColumn → Option MatchChainColumn
unfolding insert_function_match finish_basic_blocks
finish_functions allocate prev [] column = some column
finish_functions allocate prev (item ∷ items) column =
    elim (insert_function_match column (item.1.matched.address_in_next, 0)) [
      | inserted column' pointer ↦ pointer >>= λ function.
          finish_basic_blocks allocate prev function item.1.basic_blocks column'
          >>= finish_functions allocate prev items
    ]

-- `FinishChain`.
unfoldable pub finish_chain :
    (ℕ → ℕ) → MatchChainColumn → MatchChainColumn → Option MatchChainColumn
unfolding finish_functions
finish_chain allocate prev column = finish_functions allocate prev prev.functions_by_address column
