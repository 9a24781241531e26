-- ===== src/MatchChain/Insert/Finish.antt =====
-- `FinishChain` returns, and leaves in the last column what the column before it points to.
use vxsig.Prelude.{ℕ, ◌≡◌, refl, false, List, [], ◌∷◌, Option, some, ◌>>=◌, All}
use vxsig.SortedMap.{Map, emplace, is_member}
use vxsig.SortedMap.Keys.{Has, Has-emplace, Has-emplace_other, Has-modify, AllItems, AllItems-find}
use vxsig.Signature.{filter_none}
use vxsig.MatchChain.{MatchedFunction, MatchChainColumn, new_function, with_functions}
use vxsig.MatchChain.Insert.{
  is_filtered, inserted, insert_function_match, add_basic_block, insert_basic_block_match,
  insert_instruction_match, finish_instructions, finish_basic_blocks, finish_functions,
  finish_chain,
}
use vxsig.MatchChain.Insert.Linked.{
  IsLinked, PointsTo, PointsToInstructions, insert_basic_block_match-IsLinked,
  insert_instruction_match-IsLinked, emplace-IsLinked,
}

-- A column that `FinishChain` can go on with.
pub record IsReady (column : MatchChainColumn) : Type 0 where
  pub linked : IsLinked column
  pub unfiltered : column.function_filter ≡ filter_none

-- A result that is there: such a column, which has the functions of the column before.
record IsFinished (column : MatchChainColumn) (result : Option MatchChainColumn) : Type 0 where
  pub column' : MatchChainColumn
  pub returned : result ≡ some column'
  pub ready : IsReady column'
  pub grows : (k : ℕ) → Has column.functions_by_address k → Has column'.functions_by_address k

IsFinished-refl : (column : MatchChainColumn) → IsReady column → IsFinished column (some column)
IsFinished-refl column ready = record {
  column' = column;
  returned = refl;
  ready = ready;
  grows = λ k h. h;
}

IsFinished-bind :
    (column : MatchChainColumn) (result : Option MatchChainColumn)
    (f : MatchChainColumn → Option MatchChainColumn)
    → IsFinished column result
    → ((c : MatchChainColumn) → IsReady c → IsFinished c (f c))
    → IsFinished column (result >>= f)
IsFinished-bind column result f first next =
    let then_ = next first.column' first.ready in
    record {
      column' = then_.column';
      returned = rw (first.returned) (then_.returned);
      ready = then_.ready;
      grows = λ k h. then_.grows k (first.grows k h);
    }

-- A result from a column that has the functions of another one.
IsFinished-from :
    (column c : MatchChainColumn) (result : Option MatchChainColumn)
    → ((k : ℕ) → Has column.functions_by_address k → Has c.functions_by_address k)
    → IsFinished c result
    → IsFinished column result
IsFinished-from column c result more f = record {
  column' = f.column';
  returned = f.returned;
  ready = f.ready;
  grows = λ k h. f.grows k (more k h);
}

insert_function_match-unfiltered :
    (column : MatchChainColumn) (match_ : ℕ × ℕ)
    → column.function_filter ≡ filter_none
    → insert_function_match column match_
      ≡ inserted
          (with_functions column
            (emplace match_.0 (new_function match_) column.functions_by_address))
          (some match_.0)
unfolding insert_function_match is_filtered
insert_function_match-unfiltered column match_ none_ =
    let kept : is_filtered column.function_filter (is_member match_.0 column.filtered_functions)
        ≡ false =
      rw none_ refl in
    rw (insert_function_match, kept) refl

module _ (allocate : ℕ → ℕ) (prev : MatchChainColumn) where
  finish_instructions-IsFinished :
      (block : ℕ) (instructions : List ℕ) (column : MatchChainColumn)
      → All (Has prev.instructions_by_address) instructions
      → IsReady column
      → IsFinished column (finish_instructions allocate prev block instructions column)
  unfolding finish_instructions insert_instruction_match
  finish_instructions-IsFinished block [] column h ready = IsFinished-refl column ready
  finish_instructions-IsFinished block (pointer ∷ instructions) column ((instr, there), h) ready =
      let match_ : ℕ × ℕ = (instr.matched.address_in_next, 0) in
      let column' =
        insert_instruction_match column (allocate instr.matched.address_in_next) block match_ in
      rw (there, finish_instructions)
        (IsFinished-from column column' _ (λ k has. has)
          (finish_instructions-IsFinished block instructions column' h (record {
            linked =
                insert_instruction_match-IsLinked column (allocate instr.matched.address_in_next)
                  block match_ ready.linked;
            unfiltered = ready.unfiltered;
          })))

  finish_basic_blocks-IsFinished :
      (function : ℕ) (blocks : List ℕ) (column : MatchChainColumn)
      → IsLinked prev
      → All (Has prev.basic_blocks_by_address) blocks
      → IsReady column
      → IsFinished column (finish_basic_blocks allocate prev function blocks column)
  unfolding finish_basic_blocks insert_basic_block_match
  finish_basic_blocks-IsFinished function [] column linked h ready = IsFinished-refl column ready
  finish_basic_blocks-IsFinished function (pointer ∷ blocks) column linked ((bb, there), h) ready =
      let match_ : ℕ × ℕ = (bb.matched.address_in_next, 0) in
      let column' = insert_basic_block_match column function match_ in
      let instructions =
        AllItems-find (PointsToInstructions prev.instructions_by_address)
          prev.basic_blocks_by_address pointer bb linked.blocks there in
      rw (there, finish_basic_blocks)
        (IsFinished-from column column' _
          (λ k. Has-modify k function (add_basic_block match_.0) column.functions_by_address)
          (IsFinished-bind column' _ (finish_basic_blocks allocate prev function blocks)
            (finish_instructions-IsFinished bb.matched.address_in_next bb.instructions column'
              instructions
              (record {
                linked = insert_basic_block_match-IsLinked column function match_ ready.linked;
                unfiltered = ready.unfiltered;
              }))
            (λ c r. finish_basic_blocks-IsFinished function blocks c linked h r)))

  -- The functions that the items point to.
  abbrev pub HasNext : MatchChainColumn → Map MatchedFunction → Type 0
  HasNext column items =
      All (λ item. Has column.functions_by_address item.1.matched.address_in_next) items

  finish_functions-IsFinished :
      (items : Map MatchedFunction) (column : MatchChainColumn)
      → IsLinked prev
      → AllItems (PointsTo prev.basic_blocks_by_address) items
      → IsReady column
      → (f : IsFinished column (finish_functions allocate prev items column)) × HasNext f.column'
          items
  unfolding finish_functions
  finish_functions-IsFinished [] column linked h ready = (IsFinished-refl column ready, tt)
  finish_functions-IsFinished (item ∷ items) column linked (blocks, h) ready =
      let match_ : ℕ × ℕ = (item.1.matched.address_in_next, 0) in
      let functions = emplace match_.0 (new_function match_) column.functions_by_address in
      let column' = with_functions column functions in
      let ready' : IsReady column' = record {
        linked = emplace-IsLinked column match_ ready.linked;
        unfiltered = ready.unfiltered;
      } in
      let first : IsFinished column'
          (finish_basic_blocks allocate prev match_.0 item.1.basic_blocks column') =
        finish_basic_blocks-IsFinished match_.0 item.1.basic_blocks column' linked blocks ready' in
      let (rest, has) = finish_functions-IsFinished items first.column' linked h first.ready in
      let inserted_ = Has-emplace match_.0 (new_function match_) column.functions_by_address in
      (
        record {
          column' = rest.column';
          returned =
              rw
                (
                  insert_function_match-unfiltered column match_ ready.unfiltered,
                  finish_functions,
                  first.returned,
                )
                rest.returned;
          ready = rest.ready;
          grows = λ k old. rest.grows k (
              first.grows k (
                Has-emplace_other k match_.0 (new_function match_) column.functions_by_address
                  old));
        },
        (rest.grows match_.0 (first.grows match_.0 inserted_), has),
      )

  -- Where no pointer of the two columns dangles and the last one has no filter, `FinishChain` returns:
  -- its CHECK does not fail. No pointer of the last column dangles, it still has no filter, and it has the
  -- functions that the functions of the column before it point to.
  pub finish_chain-IsReady :
      (column : MatchChainColumn)
      → IsLinked prev
      → IsReady column
      → (column' : MatchChainColumn) × (finish_chain allocate prev column ≡ some column')
        × IsReady column'
        × HasNext column' prev.functions_by_address
  unfolding finish_chain
  finish_chain-IsReady column linked ready =
      let (f, has) =
        finish_functions-IsFinished prev.functions_by_address column linked linked.functions
          ready in
      (f.column', f.returned, f.ready, has)
