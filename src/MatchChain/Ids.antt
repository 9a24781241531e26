-- ===== src/MatchChain/Ids.antt =====
-- `PropagateIds`, `BuildIdIndices` and the two ways to read an object's match.
pub mod Numbering
pub mod Lookup
pub mod Follow
pub mod Chains
use vxsig.Prelude.{ℕ, ◌+◌, ◌%◌, ◌^◌, ◌≡◌, refl, List, [], ◌∷◌, Option, none, some, map}
use vxsig.SortedMap.{Map, find, emplace, modify}
use vxsig.MatchChain.{
  MatchedMemoryAddress, MatchedFunction, MatchedBasicBlock, MatchChainColumn, with_functions,
  with_basic_blocks,
}

-- What the template `PropagateIds` uses of a matched object.
pub record Entity (A : Type 0) : Type 0 where
  pub matched_of : A → MatchedMemoryAddress
  pub with_matched : A → MatchedMemoryAddress → A
  pub matched_of-with_matched :
      (a : A) (m : MatchedMemoryAddress) → matched_of (with_matched a m) ≡ m

instance abbrev pub function_entity : Entity MatchedFunction
function_entity = record {
  matched_of = λ function. function.matched;
  with_matched = λ function m. record function { matched = m };
  matched_of-with_matched = λ a m. refl;
}

instance abbrev pub basic_block_entity : Entity MatchedBasicBlock
basic_block_entity = record {
  matched_of = λ block. block.matched;
  with_matched = λ block m. record block { matched = m };
  matched_of-with_matched = λ a m. refl;
}

-- What `number` leaves of the first index and of the others.
pub data Numbered (A : Type 0) : Type 0 where
  numbered : Map A → List (Map A) → Numbered A

module _ {A : Type 0} ⦃e : Entity A⦄ where
  abbrev pub set_id : ℕ → A → A
  set_id id a = e.with_matched a (record (e.matched_of a) { id = id })

  -- The inner loop: the chain through the other columns, until it breaks.
  unfoldable pub follow : ℕ → ℕ → List (Map A) → List (Map A)
  follow match_address_in_next chain_id [] = []
  follow match_address_in_next chain_id (index ∷ columns) =
      elim (find index match_address_in_next) [
        | none ↦ index ∷ columns
        | some found ↦
            modify match_address_in_next (set_id chain_id) index
            ∷ follow ((e.matched_of found).address_in_next) chain_id columns
      ]

  -- The outer loop; an `Ident` has 32 bits.
  unfoldable pub number : ℕ → Map A → List (Map A) → Numbered A
  unfolding follow
  number chain_id [] columns = numbered [] columns
  number chain_id (item ∷ items) columns =
      elim (number ((chain_id + 1) % 2 ^ 32) items
        (follow ((e.matched_of item.1).address_in_next) chain_id columns)) [
          | numbered rest others ↦ numbered ((item.0, set_id chain_id item.1) ∷ rest) others
        ]

  -- `PropagateIds` on the indices of the columns; the table is not empty.
  unfoldable pub propagate_ids_in : List (Map A) → List (Map A)
  unfolding number
  propagate_ids_in [] = []
  propagate_ids_in (first ∷ columns) = elim (number 1 first columns) [
    | numbered index others ↦ index ∷ others
  ]

-- The columns with the indices written back.
zip_columns :
    {A : Type 0}
    → (MatchChainColumn → Map A → MatchChainColumn)
    → List MatchChainColumn
    → List (Map A)
    → List MatchChainColumn
zip_columns write [] indices = []
zip_columns write (column ∷ columns) [] = column ∷ columns
zip_columns write (column ∷ columns) (index ∷ indices) =
    write column index ∷ zip_columns write columns indices

unfoldable pub propagate_ids : List MatchChainColumn → List MatchChainColumn
unfolding propagate_ids_in zip_columns
propagate_ids table =
    let with_function_ids =
      zip_columns with_functions table
        (propagate_ids_in (map (λ column. column.functions_by_address) table)) in
    zip_columns with_basic_blocks with_function_ids
      (propagate_ids_in (map (λ column. column.basic_blocks_by_address) with_function_ids))

-- `BuildIdIndexFromAddressIndex`: an id that is there keeps its pointer.
unfoldable pub build_id_index_from : {A : Type 0} ⦃e : Entity A⦄ → Map A → Map ℕ → Map ℕ
build_id_index_from [] id_index = id_index
build_id_index_from ⦃e⦄ (item ∷ items) id_index =
    build_id_index_from items (emplace (e.matched_of item.1).id item.0 id_index)

-- `BuildIdIndices`, of a column and of the table.
abbrev build_column_id_indices : MatchChainColumn → MatchChainColumn
build_column_id_indices column = record column {
  functions_by_id = build_id_index_from column.functions_by_address column.functions_by_id;
  basic_blocks_by_id = build_id_index_from column.basic_blocks_by_address column.basic_blocks_by_id;
}

abbrev pub build_id_indices : List MatchChainColumn → List MatchChainColumn
build_id_indices table = map build_column_id_indices table
