-- ===== src/MatchChain/Insert/Linked.antt =====
-- The pointers between the objects of a column, and `FinishChain`.
use vxsig.Prelude.{ℕ, Option, none, some, Bool-cases, inl, inr, All, All-map, Option-cases, subst}
use vxsig.SortedMap.{Map, emplace, modify, is_member}
use vxsig.SortedMap.Keys.{
  Has, Has-emplace, Has-emplace_other, Has-modify, AllItems, AllItems-emplace, AllItems-modify,
  All-insert,
}
use vxsig.MatchChain.{
  MatchedFunction, MatchedBasicBlock, MatchedInstruction, MatchChainColumn, new_function,
  new_basic_block, new_instruction, with_functions,
}
use vxsig.MatchChain.Insert.{
  is_filtered, insert_function_match, add_basic_block, insert_basic_block_match, add_instruction,
  insert_instruction_match, MatchChainInserter, add_function_match, add_basic_block_match,
  add_instruction_match,
}

-- The pointers of a function lead to basic blocks, those of a basic block to instructions.
abbrev pub PointsTo : Map MatchedBasicBlock → MatchedFunction → Type 0
PointsTo blocks function = All (Has blocks) function.basic_blocks

abbrev pub PointsToInstructions : Map MatchedInstruction → MatchedBasicBlock → Type 0
PointsToInstructions instructions block = All (Has instructions) block.instructions

-- No pointer of a column dangles.
pub record IsLinked (column : MatchChainColumn) : Type 0 where
  pub functions : AllItems (PointsTo column.basic_blocks_by_address) column.functions_by_address
  pub blocks :
      AllItems (PointsToInstructions column.instructions_by_address) column.basic_blocks_by_address

-- A pointer that may be null.
abbrev pub HasOption : {A : Type 0} → Map A → Option ℕ → Type 0
HasOption items none = Unit
HasOption items (some key) = Has items key

-- Nor do those of an inserter.
pub record IsLinkedInserter (inserter : MatchChainInserter) : Type 0 where
  pub column : IsLinked inserter.column
  pub current_function : HasOption inserter.column.functions_by_address inserter.current_function
  pub current_basic_block :
      HasOption inserter.column.basic_blocks_by_address inserter.current_basic_block

pub insert_basic_block_match-IsLinked :
    (column : MatchChainColumn) (function : ℕ) (match_ : ℕ × ℕ)
    → IsLinked column
    → IsLinked (insert_basic_block_match column function match_)
unfolding insert_basic_block_match add_basic_block
insert_basic_block_match-IsLinked column function match_ linked =
    let old = column.basic_blocks_by_address in
    let blocks = emplace match_.0 (new_basic_block match_) old in
    record {
      functions =
          AllItems-modify (PointsTo blocks) function (add_basic_block match_.0)
            column.functions_by_address
            (λ f h.
              All-insert (Has blocks) match_.0 f.basic_blocks
                (Has-emplace match_.0 (new_basic_block match_) old) h)
            (All-map column.functions_by_address
              (λ item h.
                All-map item.1.basic_blocks
                  (λ k. Has-emplace_other k match_.0 (new_basic_block match_) old) h)
              linked.functions);
      blocks =
          AllItems-emplace (PointsToInstructions column.instructions_by_address) match_.0
            (new_basic_block match_) old tt linked.blocks;
    }

pub insert_instruction_match-IsLinked :
    (column : MatchChainColumn) (location block : ℕ) (match_ : ℕ × ℕ)
    → IsLinked column
    → IsLinked (insert_instruction_match column location block match_)
unfolding insert_instruction_match add_instruction
insert_instruction_match-IsLinked column location block match_ linked =
    let old = column.instructions_by_address in
    let instructions = emplace match_.0 (new_instruction location match_) old in
    let blocks = modify block (add_instruction match_.0) column.basic_blocks_by_address in
    record {
      functions =
          All-map column.functions_by_address
            (λ item h.
              All-map item.1.basic_blocks
                (λ k. Has-modify k block (add_instruction match_.0) column.basic_blocks_by_address)
                h)
            linked.functions;
      blocks =
          AllItems-modify (PointsToInstructions instructions) block (add_instruction match_.0)
            column.basic_blocks_by_address
            (λ b h.
              All-insert (Has instructions) match_.0 b.instructions
                (Has-emplace match_.0 (new_instruction location match_) old) h)
            (All-map column.basic_blocks_by_address
              (λ item h.
                All-map item.1.instructions
                  (λ k. Has-emplace_other k match_.0 (new_instruction location match_) old) h)
              linked.blocks);
    }

-- The column with another function, which has no pointers yet.
pub emplace-IsLinked :
    (column : MatchChainColumn) (match_ : ℕ × ℕ)
    → IsLinked column
    → IsLinked
        (with_functions column (emplace match_.0 (new_function match_) column.functions_by_address))
emplace-IsLinked column match_ linked = record {
  functions =
      AllItems-emplace (PointsTo column.basic_blocks_by_address) match_.0 (new_function match_)
        column.functions_by_address tt linked.functions;
  blocks = linked.blocks;
}

add_function_match-IsLinked :
    (inserter : MatchChainInserter) (match_ : ℕ × ℕ)
    → IsLinkedInserter inserter
    → IsLinkedInserter (add_function_match inserter match_)
unfolding add_function_match insert_function_match
add_function_match-IsLinked inserter match_ linked =
    elim (Bool-cases (
      is_filtered inserter.column.function_filter
        (is_member match_.0 inserter.column.filtered_functions))) [
          | inl out ↦
              rw (out, add_function_match, insert_function_match)
                (record {
                  column = linked.column;
                  current_function = tt;
                  current_basic_block = linked.current_basic_block;
                })
          | inr in_ ↦
              rw (in_, add_function_match, insert_function_match)
                (record {
                  column = emplace-IsLinked inserter.column match_ linked.column;
                  current_function =
                      Has-emplace match_.0 (new_function match_)
                        inserter.column.functions_by_address;
                  current_basic_block = linked.current_basic_block;
                })
        ]

add_basic_block_match-IsLinked :
    (inserter : MatchChainInserter) (match_ : ℕ × ℕ)
    → IsLinkedInserter inserter
    → IsLinkedInserter (add_basic_block_match inserter match_)
unfolding add_basic_block_match insert_basic_block_match
add_basic_block_match-IsLinked inserter match_ linked =
    elim (Option-cases inserter.current_function) [
      | inl null ↦ rw (null, add_basic_block_match) linked
      | inr (function, there) ↦
          let current : HasOption inserter.column.functions_by_address (some function) =
            subst (HasOption inserter.column.functions_by_address) there linked.current_function in
          rw (there, add_basic_block_match)
            (record {
              column =
                  insert_basic_block_match-IsLinked inserter.column function match_ linked.column;
              current_function =
                  Has-modify function function (add_basic_block match_.0)
                    inserter.column.functions_by_address current;
              current_basic_block =
                  Has-emplace match_.0 (new_basic_block match_)
                    inserter.column.basic_blocks_by_address;
            })
    ]

add_instruction_match-IsLinked :
    (location : ℕ) (inserter : MatchChainInserter) (match_ : ℕ × ℕ)
    → IsLinkedInserter inserter
    → IsLinkedInserter (add_instruction_match location inserter match_)
unfolding add_instruction_match insert_instruction_match
add_instruction_match-IsLinked location inserter match_ linked =
    elim (Option-cases inserter.current_basic_block) [
      | inl null ↦ rw (null, add_instruction_match) linked
      | inr (block, there) ↦
          let current : HasOption inserter.column.basic_blocks_by_address (some block) =
            subst (HasOption inserter.column.basic_blocks_by_address) there
              linked.current_basic_block in
          rw (there, add_instruction_match)
            (record {
              column =
                  insert_instruction_match-IsLinked inserter.column location block match_
                    linked.column;
              current_function = linked.current_function;
              current_basic_block =
                  Has-modify block block (add_instruction match_.0)
                    inserter.column.basic_blocks_by_address current;
            })
    ]

-- The three callbacks of `MatchChainInserter` leave no pointer dangling: neither those of the
-- column's objects nor the two of the inserter, whatever the order of the calls.
pub inserter-IsLinked :
    (location : ℕ) (inserter : MatchChainInserter) (match_ : ℕ × ℕ)
    → IsLinkedInserter inserter
    → IsLinkedInserter (add_function_match inserter match_)
      × IsLinkedInserter (add_basic_block_match inserter match_)
      × IsLinkedInserter (add_instruction_match location inserter match_)
inserter-IsLinked location inserter match_ linked = (
  add_function_match-IsLinked inserter match_ linked,
  add_basic_block_match-IsLinked inserter match_ linked,
  add_instruction_match-IsLinked location inserter match_ linked,
)
