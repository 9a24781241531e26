-- ===== src/MatchChain/Insert/Recorded.antt =====
-- The objects that `MatchChainInserter` records in a column without a filter.
use vxsig.Prelude.{
  ℕ, ◌≡◌, refl, Bool, true, false, List, [], ◌∷◌, Option, none, some, Option-cases, inl, inr, arith,
}
use vxsig.SortedMap.{emplace, is_member}
use vxsig.SortedMap.Keys.{Has, Has-emplace, Has-emplace_other, Has-modify}
use vxsig.Signature.{filter_none}
use vxsig.MatchChain.{
  MatchChainColumn, new_function, new_basic_block, new_instruction, with_functions,
}
use vxsig.DiffReader.Rows.{Call, function_match, basic_block_match, instruction_match}
use vxsig.MatchChain.Insert.{
  is_filtered, insert_function_match, insert_basic_block_match, insert_instruction_match,
  add_basic_block, add_instruction, MatchChainInserter, add_function_match, add_basic_block_match,
  add_instruction_match,
}

-- The object of a call is in the column.
abbrev pub IsRecorded : MatchChainColumn → Call → Type 0
IsRecorded column (function_match m) = Has column.functions_by_address m.0
IsRecorded column (basic_block_match m) = Has column.basic_blocks_by_address m.0
IsRecorded column (instruction_match m) = Has column.instructions_by_address m.0

-- A basic block comes behind a function, an instruction behind a basic block.
abbrev pub IsOrdered : Bool → Bool → List Call → Type 0
IsOrdered in_function in_block [] = Unit
IsOrdered in_function in_block (function_match m ∷ cs) = IsOrdered true in_block cs
IsOrdered in_function in_block (basic_block_match m ∷ cs) =
    (in_function ≡ true) × IsOrdered in_function true cs
IsOrdered in_function in_block (instruction_match m ∷ cs) =
    (in_block ≡ true) × IsOrdered in_function in_block cs

abbrev pub is_set : Option ℕ → Bool
is_set none = false
is_set (some pointer) = true

-- What is recorded stays so.
abbrev pub Grows : MatchChainInserter → MatchChainInserter → Type 0
Grows inserter inserter' = (c : Call) → IsRecorded inserter.column c → IsRecorded inserter'.column c

-- The state behind a call: the call is recorded, and what was recorded before.
pub record IsAfter (inserter : MatchChainInserter) (c : Call) (in_function in_block : Bool)
    (after : MatchChainInserter) : Type 0 where
  pub recorded : IsRecorded after.column c
  pub grows : Grows inserter after
  pub unfiltered : after.column.function_filter ≡ filter_none
  pub function_set : is_set after.current_function ≡ in_function
  pub block_set : is_set after.current_basic_block ≡ in_block

-- The columns behind an insertion have what they had.
function-grows :
    (column : MatchChainColumn) (m : ℕ × ℕ) (c : Call)
    → IsRecorded column c
    → IsRecorded
        (with_functions column (emplace m.0 (new_function m) column.functions_by_address))
        c
function-grows column m (function_match n) h =
    Has-emplace_other n.0 m.0 (new_function m) column.functions_by_address h
function-grows column m (basic_block_match n) h = h
function-grows column m (instruction_match n) h = h

basic_block-grows :
    (column : MatchChainColumn) (function : ℕ) (m : ℕ × ℕ) (c : Call)
    → IsRecorded column c
    → IsRecorded (insert_basic_block_match column function m) c
unfolding insert_basic_block_match
basic_block-grows column function m (function_match n) h =
    Has-modify n.0 function (add_basic_block m.0) column.functions_by_address h
basic_block-grows column function m (basic_block_match n) h =
    Has-emplace_other n.0 m.0 (new_basic_block m) column.basic_blocks_by_address h
basic_block-grows column function m (instruction_match n) h = h

instruction-grows :
    (column : MatchChainColumn) (location block : ℕ) (m : ℕ × ℕ) (c : Call)
    → IsRecorded column c
    → IsRecorded (insert_instruction_match column location block m) c
unfolding insert_instruction_match
instruction-grows column location block m (function_match n) h = h
instruction-grows column location block m (basic_block_match n) h =
    Has-modify n.0 block (add_instruction m.0) column.basic_blocks_by_address h
instruction-grows column location block m (instruction_match n) h =
    Has-emplace_other n.0 m.0 (new_instruction location m) column.instructions_by_address h

pub add_function_match-IsAfter :
    (inserter : MatchChainInserter) (m : ℕ × ℕ)
    → inserter.column.function_filter ≡ filter_none
    → IsAfter inserter
        (function_match m)
        true
        (is_set inserter.current_basic_block)
        (add_function_match inserter m)
unfolding add_function_match insert_function_match is_filtered
add_function_match-IsAfter inserter m none_ =
    let kept : is_filtered inserter.column.function_filter
          (is_member m.0 inserter.column.filtered_functions)
        ≡ false =
      rw none_ refl in
    rw (kept, add_function_match, insert_function_match)
      (record {
        recorded = Has-emplace m.0 (new_function m) inserter.column.functions_by_address;
        grows = function-grows inserter.column m;
        unfiltered = none_;
        function_set = refl;
        block_set = refl;
      })

pub add_basic_block_match-IsAfter :
    (inserter : MatchChainInserter) (m : ℕ × ℕ)
    → inserter.column.function_filter ≡ filter_none
    → is_set inserter.current_function ≡ true
    → IsAfter inserter (basic_block_match m) true true (add_basic_block_match inserter m)
unfolding add_basic_block_match insert_basic_block_match
add_basic_block_match-IsAfter inserter m none_ there =
    elim (Option-cases inserter.current_function) [
      | inl null ↦ absurd (ground arith)
      | inr (function, some_) ↦
          rw (some_, add_basic_block_match)
            (record {
              recorded =
                  Has-emplace m.0 (new_basic_block m) inserter.column.basic_blocks_by_address;
              grows = basic_block-grows inserter.column function m;
              unfiltered = none_;
              function_set = refl;
              block_set = refl;
            })
    ]

pub add_instruction_match-IsAfter :
    (location : ℕ) (inserter : MatchChainInserter) (m : ℕ × ℕ)
    → inserter.column.function_filter ≡ filter_none
    → is_set inserter.current_basic_block ≡ true
    → IsAfter inserter
        (instruction_match m)
        (is_set inserter.current_function)
        true
        (add_instruction_match location inserter m)
unfolding add_instruction_match insert_instruction_match
add_instruction_match-IsAfter location inserter m none_ there =
    elim (Option-cases inserter.current_basic_block) [
      | inl null ↦ absurd (ground arith)
      | inr (block, some_) ↦
          rw (some_, add_instruction_match)
            (record {
              recorded =
                  Has-emplace m.0 (new_instruction location m)
                    inserter.column.instructions_by_address;
              grows = instruction-grows inserter.column location block m;
              unfiltered = none_;
              function_set = refl;
              block_set = refl;
            })
    ]
