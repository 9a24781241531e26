-- ===== src/Siggen/Generate.antt =====
-- The stages of `Generate` behind the files of the diffs, and `Generate`. `SetFunctionWeights` has
-- no occurrence counts, and returns at once.
pub mod Main
pub mod Formatted
use vxsig.Prelude.{
  ℕ, suc, ◌+◌, List, [], ◌∷◌, ◌++◌, Option, none, some, if◌then◌else◌, ℤ, pos, length,
}
use vxsig.Signature.{
  Bytes, Piece, Meta, MetaValue, string_value, SignatureDefinition, Signature, Status,
  failed_precondition, Result, ok, failed, and_then,
}
use vxsig.MatchChain.{MatchChainColumn, empty_column}
use vxsig.MatchChain.Ids.{propagate_ids, build_id_indices}
use vxsig.Candidates.{
  compute_function_candidates, compute_basic_block_candidates, filter_basic_block_overlaps,
}
use vxsig.Generic.{is_empty}
use vxsig.Generic.Matches.{generic_signature_from_matches}
use vxsig.Siggen.{
  Environment, AvSignatureGenerator, filtered_column, parse_diff_results, add_function_data,
}

-- "vxsig_build", "vxsig_taskid", "rs" and ".BinExport".
abbrev build_key : Bytes
build_key = b'v' ∷ b'x' ∷ b's' ∷ b'i' ∷ b'g' ∷ b'_' ∷ b'b' ∷ b'u' ∷ b'i' ∷ b'l' ∷ b'd' ∷ []

abbrev task_key : Bytes
task_key = b'v' ∷ b'x' ∷ b's' ∷ b'i' ∷ b'g' ∷ b'_' ∷ b't' ∷ b'a' ∷ b's' ∷ b'k' ∷ b'i' ∷ b'd' ∷ []

abbrev bin_export_suffix : Bytes
bin_export_suffix = b'.' ∷ b'B' ∷ b'i' ∷ b'n' ∷ b'E' ∷ b'x' ∷ b'p' ∷ b'o' ∷ b'r' ∷ b't' ∷ []

abbrev pub text_meta : Bytes → Bytes → Meta
text_meta key value = record { key = key; value = string_value value }

-- The entries for the samples, "rs1" on.
pub sample_meta : (ℤ → Bytes) → ℕ → List Bytes → List Meta
sample_meta to_string i [] = []
sample_meta to_string i (item ∷ items) =
    text_meta (b'r' ∷ b's' ∷ to_string (pos (i + 1))) item ∷ sample_meta to_string (i + 1) items

pub task_meta : Bytes → List Meta
task_meta [] = []
task_meta (c ∷ cs) = text_meta task_key (c ∷ cs) ∷ []

-- `FillSignatureMetadata`.
unfoldable pub fill_signature_metadata :
    (ℤ → Bytes) → Bytes → SignatureDefinition → SignatureDefinition
unfolding sample_meta task_meta
fill_signature_metadata to_string build_date definition = record definition {
  meta =
      definition.meta
      ++ text_meta build_key build_date ∷ task_meta definition.unique_signature_id
      ++ sample_meta to_string 0 definition.item_id;
}

-- The columns of the table, all but the first without a filter.
abbrev pub empty_columns : List Bytes → List MatchChainColumn
empty_columns [] = []
empty_columns (file ∷ files) = empty_column ∷ empty_columns files

abbrev pub new_table : SignatureDefinition → List Bytes → List MatchChainColumn
new_table definition files = filtered_column definition ∷ empty_columns files

-- What `ComputeCandidates` leaves in the table, and the ids that it appends.
pub record Computed : Type 0 where
  pub table : List MatchChainColumn
  pub bb_candidate_ids : List ℕ

-- What `Generate` leaves in the generator and in the signature.
pub record Generated : Type 0 where
  pub generator : AvSignatureGenerator
  pub signature : Signature

-- An empty list is an error.
abbrev pub non_empty : List ℕ → Option (Result (List ℕ))
non_empty [] = some (failed failed_precondition)
non_empty (i ∷ is) = some (ok (i ∷ is))

-- The process stops, or goes on without an error.
abbrev pub or_stop : Option (List ℕ) → Option (Result (List ℕ))
or_stop none = none
or_stop (some l) = some (ok l)

module _ (env : Environment) where
  -- `LoadColumnData`.
  unfoldable pub load_column_data : List MatchChainColumn → Option (Result (List MatchChainColumn))
  unfolding add_function_data
  load_column_data [] = some (ok [])
  load_column_data (column ∷ columns) =
      and_then
        (add_function_data env
          (env.join_path column.diff_directory column.filename ++ bin_export_suffix) column)
        λ column'. and_then (load_column_data columns) λ columns'. some (ok (column' ∷ columns'))

  -- `ComputeCandidates`: the ids of the basic blocks go behind those of `bb_candidate_ids_`.
  unfoldable pub compute_candidates : List ℕ → List MatchChainColumn → Option (Result Computed)
  unfolding compute_function_candidates compute_basic_block_candidates
  compute_candidates bb_candidate_ids loaded =
      let table = build_id_indices (propagate_ids loaded) in
      and_then (or_stop (compute_function_candidates table)) λ func_ids.
        and_then (non_empty func_ids) λ func_candidate_ids.
          and_then (or_stop (compute_basic_block_candidates env.sort table func_candidate_ids))
            λ bb_ids.
              and_then (non_empty (bb_candidate_ids ++ bb_ids))
                λ ids. some (ok (record { table = table; bb_candidate_ids = ids }))

  -- The signature with the pieces, the data of the engines cleared.
  unfoldable pub finish_signature : Signature → List Piece → Signature
  unfolding fill_signature_metadata
  finish_signature signature raw_signature = record {
    raw_signature = raw_signature;
    clam_av_data = [];
    yara_data = [];
    definition = fill_signature_metadata env.to_string env.build_date signature.definition;
  }

  -- The last stage, for the candidates that are left.
  unfoldable pub generate_with :
      AvSignatureGenerator → Signature → List MatchChainColumn → List ℕ → Option (Result Generated)
  unfolding finish_signature generic_signature_from_matches
  generate_with generator signature table ids =
      and_then
        (generic_signature_from_matches env.hex table ids
          signature.definition.disable_nibble_masking signature.definition.min_piece_length)
        λ raw_signature. some (
          ok (record {
            generator = record generator { match_chain_table = table; bb_candidate_ids = ids };
            signature = finish_signature signature raw_signature;
          }))

  -- The stages from the overlaps on.
  unfoldable pub generate_without_overlaps :
      AvSignatureGenerator → Signature → Computed → Option (Result Generated)
  unfolding generate_with
  generate_without_overlaps generator signature computed =
      and_then (or_stop (filter_basic_block_overlaps computed.table computed.bb_candidate_ids))
        λ left. and_then (non_empty left) (generate_with generator signature computed.table)

  -- The stages from the candidates on.
  unfoldable pub generate_from :
      AvSignatureGenerator → Signature → List MatchChainColumn → Option (Result Generated)
  unfolding compute_candidates generate_without_overlaps
  generate_from generator signature loaded =
      and_then (compute_candidates generator.bb_candidate_ids loaded)
        (generate_without_overlaps generator signature)

  -- The stages from the instruction data on.
  unfoldable pub generate_loaded :
      AvSignatureGenerator → Signature → List MatchChainColumn → Option (Result Generated)
  unfolding load_column_data generate_from
  generate_loaded generator signature table =
      and_then (load_column_data table) (generate_from generator signature)

  -- `Generate`, for a signature that is there.
  unfoldable pub generate : AvSignatureGenerator → Signature → Option (Result Generated)
  unfolding parse_diff_results generate_loaded
  generate generator signature =
      let generated =
        and_then
          (parse_diff_results env generator.diff_results
            (new_table signature.definition generator.diff_results))
          (generate_loaded generator signature) in
      if is_empty generator.diff_results then some (failed failed_precondition) else generated
