-- ===== src/MatchChain/Insert/Filename.antt =====
-- `FinishChain` leaves the name of the column's file.
use vxsig.Prelude.{
  ℕ, ◌≡◌, refl, ◌∙◌, List, [], ◌∷◌, Option, none, some, ◌>>=◌, Bool-cases, Option-cases, inl, inr,
}
use vxsig.SortedMap.{Map, find, emplace, is_member}
use vxsig.MatchChain.{MatchedFunction, MatchChainColumn, new_function, with_functions}
use vxsig.MatchChain.Insert.{
  is_filtered, insert_function_match, insert_basic_block_match, insert_instruction_match,
  finish_instructions, finish_basic_blocks, finish_functions, finish_chain,
}

-- A column that is there has the name of this one.
abbrev pub KeepsFilename : MatchChainColumn → Option MatchChainColumn → Type 0
KeepsFilename column none = Unit
KeepsFilename column (some c) = c.filename ≡ column.filename

KeepsFilename-bind :
    (column : MatchChainColumn) (m : Option MatchChainColumn)
    (f : MatchChainColumn → Option MatchChainColumn)
    → KeepsFilename column m
    → ((c : MatchChainColumn) → KeepsFilename c (f c))
    → KeepsFilename column (m >>= f)
KeepsFilename-bind column none f h k = tt
KeepsFilename-bind column (some c) f h k = behind (f c) (k c)
  where
    behind : (r : Option MatchChainColumn) → KeepsFilename c r → KeepsFilename column r
    behind none e = tt
    behind (some d) e = e ∙ h

module _ (allocate : ℕ → ℕ) (prev : MatchChainColumn) where
  finish_instructions-KeepsFilename :
      (block : ℕ) (instructions : List ℕ) (column : MatchChainColumn)
      → KeepsFilename column (finish_instructions allocate prev block instructions column)
  unfolding finish_instructions insert_instruction_match
  finish_instructions-KeepsFilename block [] column = refl
  finish_instructions-KeepsFilename block (pointer ∷ instructions) column =
      elim (Option-cases (find prev.instructions_by_address pointer)) [
        | inl none_ ↦ rw (none_, finish_instructions) tt
        | inr (instr, there) ↦
            rw (there, finish_instructions)
              (finish_instructions-KeepsFilename block instructions (
                insert_instruction_match column (allocate instr.matched.address_in_next) block
                  (instr.matched.address_in_next, 0)))
      ]

  finish_basic_blocks-KeepsFilename :
      (function : ℕ) (blocks : List ℕ) (column : MatchChainColumn)
      → KeepsFilename column (finish_basic_blocks allocate prev function blocks column)
  unfolding finish_basic_blocks insert_basic_block_match
  finish_basic_blocks-KeepsFilename function [] column = refl
  finish_basic_blocks-KeepsFilename function (pointer ∷ blocks) column =
      elim (Option-cases (find prev.basic_blocks_by_address pointer)) [
        | inl none_ ↦ rw (none_, finish_basic_blocks) tt
        | inr (bb, there) ↦
            let column' =
              insert_basic_block_match column function (bb.matched.address_in_next, 0) in
            rw (there, finish_basic_blocks)
              (KeepsFilename-bind column'
                (finish_instructions allocate prev bb.matched.address_in_next bb.instructions
                  column')
                (finish_basic_blocks allocate prev function blocks)
                (finish_instructions-KeepsFilename bb.matched.address_in_next bb.instructions
                  column')
                (finish_basic_blocks-KeepsFilename function blocks))
      ]

  finish_functions-KeepsFilename :
      (items : Map MatchedFunction) (column : MatchChainColumn)
      → KeepsFilename column (finish_functions allocate prev items column)
  unfolding finish_functions insert_function_match
  finish_functions-KeepsFilename [] column = refl
  finish_functions-KeepsFilename (item ∷ items) column =
      elim (Bool-cases (
        is_filtered column.function_filter
          (is_member item.1.matched.address_in_next column.filtered_functions))) [
            | inl out ↦ rw (out, finish_functions, insert_function_match) tt
            | inr kept ↦
                let match_ : ℕ × ℕ = (item.1.matched.address_in_next, 0) in
                let column' =
                  with_functions column
                    (emplace match_.0 (new_function match_) column.functions_by_address) in
                rw (kept, finish_functions, insert_function_match)
                  (KeepsFilename-bind column'
                    (finish_basic_blocks allocate prev match_.0 item.1.basic_blocks column')
                    (finish_functions allocate prev items)
                    (finish_basic_blocks-KeepsFilename match_.0 item.1.basic_blocks column')
                    (finish_functions-KeepsFilename items))
          ]

  pub finish_chain-KeepsFilename :
      (column : MatchChainColumn) → KeepsFilename column (finish_chain allocate prev column)
  unfolding finish_chain
  finish_chain-KeepsFilename column =
      finish_functions-KeepsFilename prev.functions_by_address column
