-- ===== src/Tests/Columns.antt =====
-- Columns of the match chain table with one function of one basic block.
use vxsig.Prelude.{
  ℕ, ◌+◌, ◌≡◌, ◌∙◌, refl, sym, List, [], ◌∷◌, none, some, false, arith, pos, All, Bool-cases, inl,
  inr, ◌==◌, nat_eq,
}
use vxsig.SortedMap.{Map, find}
use vxsig.Subsequence.{Subsequence}
use vxsig.MatchChain.{
  MatchedFunction, MatchedBasicBlock, MatchedInstruction, MatchChainColumn, empty_column, normal,
}
use vxsig.MatchChain.Insert.{
  MatchChainInserter, add_function_match, add_basic_block_match, add_instruction_match,
  finish_chain,
}
use vxsig.MatchChain.Insert.Linked.{IsLinked, IsLinkedInserter, inserter-IsLinked}
use vxsig.MatchChain.Insert.Finish.{IsReady, HasNext, finish_chain-IsReady}
use vxsig.MatchChain.Ids.{propagate_ids_in, build_id_index_from, function_entity}
use vxsig.MatchChain.Ids.Lookup.{build_id_index_from-propagate_ids_in}
use vxsig.MatchChain.Ids.Follow.{IsInjective}
use vxsig.MatchChain.Ids.Chains.{HaveIds, propagate_ids_in-HaveIds}
use vxsig.Signature.{Piece, ok}
use vxsig.Generic.Pieces.{IsRawPiece}
use vxsig.Generic.Matches.{generic_signature_from_matches}
use vxsig.Generic.Matches.Returns.{IsLoadedBlock, generic_signature_from_matches-Returns}
use vxsig.Tests.Instances.{hex_address}
use vxsig.Candidates.{filter_basic_block_overlaps}
use vxsig.Candidates.Overlaps.{IsClear, filter_basic_block_overlaps-IsClear}

abbrev function_at : ℕ → ℕ → ℕ → MatchedFunction
function_at address address_in_next id = record {
  matched = record { address = address; address_in_next = address_in_next; id = id };
  basic_blocks = 10 ∷ [];
  vertex_type = normal;
}

abbrev block : MatchedBasicBlock
block = record {
  matched = record { address = 10; address_in_next = 20; id = 1 };
  instructions = 10 ∷ 12 ∷ [];
  weight = pos 0;
}

abbrev instruction_at : ℕ → MatchedInstruction
instruction_at address = record {
  location = address;
  matched = record { address = address; address_in_next = address + 10; id = 0 };
  raw_instruction_bytes = 85 ∷ [];
  disassembly = [];
  immediates = [];
}

abbrev column : MatchChainColumn
column = record empty_column {
  functions_by_address = (10, function_at 10 20 1) ∷ [];
  basic_blocks_by_address = (10, block) ∷ [];
  instructions_by_address = (10, instruction_at 10) ∷ (12, instruction_at 12) ∷ [];
  basic_blocks_by_id = (1, 10) ∷ [];
}

column-IsLinked : IsLinked column
column-IsLinked = record {
  functions = (((_, refl), tt), tt);
  blocks = (((_, refl), ((_, refl), tt)), tt);
}

inserter : MatchChainInserter
inserter = record { column = column; current_function = some 10; current_basic_block = some 10 }

inserter-IsLinkedInserter : IsLinkedInserter inserter
unfolding inserter
inserter-IsLinkedInserter = record {
  column = column-IsLinked;
  current_function = (_, refl);
  current_basic_block = (_, refl);
}

inserter-IsLinked_example :
    IsLinkedInserter (add_function_match inserter (30, 40))
    × IsLinkedInserter (add_basic_block_match inserter (30, 40))
    × IsLinkedInserter (add_instruction_match 5 inserter (30, 40))
inserter-IsLinked_example = inserter-IsLinked 5 inserter (30, 40) inserter-IsLinkedInserter

empty_column-IsReady : IsReady empty_column
empty_column-IsReady = record { linked = record { functions = tt; blocks = tt }; unfiltered = refl }

finish_chain-IsReady_example :
    (column' : MatchChainColumn) × (finish_chain (λ address. address) column empty_column
      ≡ some column')
    × IsReady column'
    × HasNext (λ address. address) column column' column.functions_by_address
finish_chain-IsReady_example =
    finish_chain-IsReady (λ address. address) column empty_column column-IsLinked
      empty_column-IsReady

filter_basic_block_overlaps-IsClear_example :
    (kept : List ℕ) × (filter_basic_block_overlaps (column ∷ []) (1 ∷ 1 ∷ []) ≡ some kept)
    × All (λ c. IsClear c 0 kept) (column ∷ [])
    × Subsequence kept (1 ∷ 1 ∷ [])
filter_basic_block_overlaps-IsClear_example =
    filter_basic_block_overlaps-IsClear (column ∷ []) (1 ∷ 1 ∷ [])
      (((_, refl, ((_, refl), ((_, refl), tt))), ((_, refl, ((_, refl), ((_, refl), tt))), tt)), tt)

abbrev first : Map MatchedFunction
first = (10, function_at 10 20 0) ∷ (11, function_at 11 21 0) ∷ []

abbrev numbered_first : Map MatchedFunction
numbered_first = (10, function_at 10 20 1) ∷ (11, function_at 11 21 2) ∷ []

abbrev second : Map MatchedFunction
second = (20, function_at 20 30 0) ∷ []

abbrev numbered_second : Map MatchedFunction
numbered_second = (20, function_at 20 30 1) ∷ []

build_id_index_from-propagate_ids_in_example :
    find (build_id_index_from numbered_first []) 2 ≡ some 11
unfolding propagate_ids_in
build_id_index_from-propagate_ids_in_example =
    build_id_index_from-propagate_ids_in first numbered_first (second ∷ []) (numbered_second ∷ [])
      11 (function_at 11 21 2) (omega arith) refl refl

at_20 : (address : ℕ) (f : MatchedFunction) → find second address ≡ some f → address ≡ 20
at_20 address f h = elim (Bool-cases (20 == address)) [
  | inl same ↦ ground arith
  | inr other ↦ absurd (missing (rw other at h))
]
  where
    missing : none ≡ some f → ⊥
    missing e = ground arith

second-IsInjective : IsInjective second
second-IsInjective address address' f f' h h' same = at_20 address f h ∙ sym (at_20 address' f' h')

propagate_ids_in-HaveIds_example :
    (index : Map MatchedFunction) × (others : List (Map MatchedFunction)) × (propagate_ids_in
        (first ∷ second ∷ [])
      ≡ index ∷ others)
    × HaveIds index others
propagate_ids_in-HaveIds_example =
    propagate_ids_in-HaveIds first (second ∷ []) (((λ e. absurd (omega arith)), tt), (tt, tt))
      (second-IsInjective, tt)

block_1-IsLoaded : IsLoadedBlock column 1
block_1-IsLoaded = (_, refl, ((_, refl, refl), ((_, refl, refl), tt)))

generic_signature_from_matches-Returns_example :
    (raw : List Piece) × (generic_signature_from_matches hex_address
        (column ∷ column ∷ [])
        (1 ∷ [])
        false
        (pos 4)
      ≡ some (ok raw))
    × All IsRawPiece raw
generic_signature_from_matches-Returns_example =
    generic_signature_from_matches-Returns hex_address (column ∷ column ∷ []) (1 ∷ []) false (pos 4)
      (omega arith) refl refl ((block_1-IsLoaded, (block_1-IsLoaded, tt)), tt)
