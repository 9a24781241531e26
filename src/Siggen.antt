-- ===== src/Siggen.antt =====
-- vxsig/siggen.cc and vxsig/siggen.h: `AvSignatureGenerator`; of vxsig/match_chain_table.cc, the
-- functions that fill a column from the files. What is printed is not modelled, nor what an error
-- leaves in the generator.
pub mod Generate
pub mod Chain
pub mod Recorded
pub mod Names
use vxsig.Prelude.{
  ℕ, zero, suc, ◌+◌, Bool, true, false, not, ◌&&◌, List, [], ◌∷◌, ◌++◌, Option, none, some, ◌==◌,
  if◌then◌else◌, replicate, ℤ, pos,
}
use vxsig.Signature.{
  Bytes, same_bytes, Piece, Meta, string_value, SignatureDefinition, Signature, Status,
  failed_precondition, invalid_argument, Result, ok, failed, undefined, and_then,
}
use vxsig.MatchChain.{
  MatchChainColumn, empty_column, set_filename, set_function_filter, add_filtered_function,
}
use vxsig.MatchChain.Insert.{
  MatchChainInserter, add_function_match, add_basic_block_match, add_instruction_match,
  finish_chain,
}
use vxsig.MatchChain.Ids.{propagate_ids, build_id_indices}
use vxsig.MatchChain.Metadata.{add_metadata, add_instruction_data}
use vxsig.DiffReader
use vxsig.DiffReader.{Sqlite, FileMetaData, Parsed, parsed, parse_bin_diff}
use vxsig.BinExport.Parse
use vxsig.BinExport.Parse.{BinExportFiles, parse_bin_export}
use vxsig.Candidates.{
  compute_function_candidates, compute_basic_block_candidates, filter_basic_block_overlaps,
}
use vxsig.Generic.{is_empty}
use vxsig.Generic.Matches.{generic_signature_from_matches}

-- What the functions call: `rows` bounds the rows of a result, `allocate` is the address of the
-- object for an instruction, by the number of its column and its own address.
pub record Environment : Type 1 where
  pub sqlite : Sqlite
  pub rows : ℕ
  pub bin_export : BinExportFiles
  pub hex : ℕ → Bytes
  pub to_string : ℤ → Bytes
  pub dirname : Bytes → Bytes
  pub join_path : Bytes → Bytes → Bytes
  pub allocate : ℕ → ℕ → ℕ
  pub sort : List ℕ → List ℕ
  pub build_date : Bytes

-- The members of the generator, and those of them that are kept from one call to the next.
pub record AvSignatureGenerator : Type 0 where
  pub diff_results : List Bytes
  pub match_chain_table : List MatchChainColumn
  pub bb_candidate_ids : List ℕ
  pub debug_match_chain : Bool

abbrev pub new_generator : AvSignatureGenerator
new_generator = record {
  diff_results = [];
  match_chain_table = [];
  bb_candidate_ids = [];
  debug_match_chain = false;
}

-- `set_debug_match_chain`; the flag is only for what is printed.
abbrev pub set_debug_match_chain : Bool → AvSignatureGenerator → AvSignatureGenerator
set_debug_match_chain value generator = record generator { debug_match_chain = value }

-- `AddDiffResults`.
abbrev pub add_diff_results : List Bytes → AvSignatureGenerator → AvSignatureGenerator
add_diff_results files generator = record generator { diff_results = files }

-- The three callbacks of `AddDiffResult`.
abbrev pub match_receivers : (ℕ → ℕ) → DiffReader.Receivers MatchChainInserter
match_receivers allocate = record {
  function_match_receiver = add_function_match;
  basic_block_match_receiver = add_basic_block_match;
  instruction_match_receiver =
      some (λ inserter match_. add_instruction_match (allocate match_.0) inserter match_);
}

-- The inserter of a column; its pointers are null.
abbrev pub new_inserter : MatchChainColumn → MatchChainInserter
new_inserter column = record {
  column = column;
  current_function = none;
  current_basic_block = none;
}

-- The names of the two files; default objects where they have not been read.
abbrev pub filenames : Option (FileMetaData × FileMetaData) → Bytes × Bytes
filenames none = ([], [])
filenames (some metadata) = (metadata.0.filename, metadata.1.filename)

-- What `AddDiffResult` leaves in `*column` and `*next`, and what it appends to `*diffs`.
pub record Added : Type 0 where
  pub column : MatchChainColumn
  pub next : MatchChainColumn
  pub diff : Bytes × Bytes

-- What `ParseDiffResults` leaves in the table, and `diff_file_pairs`.
pub record Chained : Type 0 where
  pub table : List MatchChainColumn
  pub diffs : List (Bytes × Bytes)

-- The second file's names and the rest of the chain, for the last diff.
unfoldable pub finish_last :
    (ℕ → ℕ)
    → Bool
    → Bytes × Bytes
    → Bytes
    → MatchChainColumn
    → MatchChainColumn
    → Option (Result Added)
finish_last allocate last names diff_directory column next =
    let column = set_filename names.0 diff_directory column in
    let finished : Option (Result Added) =
      elim (finish_chain allocate column (set_filename names.1 diff_directory next))
        as (λ _. Option (Result Added)) [
          | none ↦ none
          | some next' ↦ some (ok (record { column = column; next = next'; diff = names }))
        ] in
    if last then finished else some (ok (record { column = column; next = next; diff = names }))

-- The test on a pair of columns and the names of their files.
unfoldable pub forms_chain : List (Bytes × Bytes) → List MatchChainColumn → Bool
forms_chain [] table = true
forms_chain (diff ∷ diffs) [] = false
forms_chain (diff ∷ diffs) (column ∷ []) = false
forms_chain (diff ∷ diffs) (column ∷ next ∷ columns) =
    same_bytes column.filename diff.0
    && same_bytes next.filename diff.1
    && forms_chain diffs (next ∷ columns)

-- The first column, with the filter.
abbrev pub add_filtered_functions : List ℕ → MatchChainColumn → MatchChainColumn
add_filtered_functions [] column = column
add_filtered_functions (address ∷ addresses) column =
    add_filtered_functions addresses (add_filtered_function address column)

abbrev pub filtered_column : SignatureDefinition → MatchChainColumn
filtered_column definition =
    add_filtered_functions definition.filtered_function_address
      (set_function_filter definition.function_filter empty_column)

module _ (env : Environment) where
  -- `AddDiffResult`.
  unfoldable pub add_diff_result :
      ℕ → Bytes → Bool → MatchChainColumn → MatchChainColumn → Option (Result Added)
  unfolding parse_bin_diff finish_last
  add_diff_result i filename last column next =
      and_then
        (parse_bin_diff env.sqlite (match_receivers (env.allocate i)) env.rows filename true
          (new_inserter column))
        λ result. elim result as (λ _. Option (Result Added)) [
          | parsed inserter metadata ↦
              finish_last (env.allocate (i + 1)) last (filenames metadata) (env.dirname filename)
                inserter.column next
        ]

  -- The first loop of `ParseDiffResults`, from the column `i` on.
  unfoldable pub add_diff_results_from :
      ℕ → List Bytes → List MatchChainColumn → Option (Result Chained)
  unfolding add_diff_result
  add_diff_results_from i [] table = some (ok (record { table = table; diffs = [] }))
  add_diff_results_from i (file ∷ files) [] = some undefined
  add_diff_results_from i (file ∷ files) (column ∷ []) = some undefined
  add_diff_results_from i (file ∷ files) (column ∷ next ∷ columns) =
      and_then (add_diff_result i file (is_empty files) column next) λ added.
        and_then (add_diff_results_from (i + 1) files (added.next ∷ columns)) λ rest.
          some (ok (record { table = added.column ∷ rest.table; diffs = added.diff ∷ rest.diffs }))

  -- `ParseDiffResults`.
  unfoldable pub parse_diff_results :
      List Bytes → List MatchChainColumn → Option (Result (List MatchChainColumn))
  unfolding add_diff_results_from
  parse_diff_results files table = and_then (add_diff_results_from 0 files table) λ chained.
      if forms_chain chained.diffs chained.table
      then some (ok chained.table)
      else some (failed failed_precondition)

  -- The callbacks of `AddFunctionData`.
  abbrev pub column_receivers : Parse.Receivers MatchChainColumn
  column_receivers = record {
    function_receiver =
        λ column sha256 address vertex_type. add_metadata sha256 address vertex_type column;
    instruction_receiver = λ column bb_address instr_address instr_bytes disassembly immediates.
        add_instruction_data instr_address instr_bytes disassembly immediates column;
  }

  unfoldable pub add_function_data : Bytes → MatchChainColumn → Option (Result MatchChainColumn)
  unfolding parse_bin_export
  add_function_data filename column =
      parse_bin_export env.hex env.bin_export column_receivers filename column
