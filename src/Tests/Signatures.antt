-- ===== src/Tests/Signatures.antt =====
-- Signatures, formatters and the match chain table on small inputs.
use mathlib.Core.List.{Permᴰ}
use vxsig.Prelude.{
  true, ℕ, ◌≤◌, ◌≡◌, refl, List, [], ◌∷◌, ◌++◌, map, none, some, pos, arith, false, All, length,
  nat_eq,
}
use vxsig.Subsequence.{Subsequence}
use vxsig.Signature.{
  bool_value, FunctionFilterMode, filter_include, filter_none, Bytes, Piece, SignatureDefinition,
  trim_last, ok,
}
use vxsig.Signature.Subset.{keep_front, get_relevant_signature_subset}
use vxsig.Signature.Subset.Selected.{get_relevant_signature_subset-Outcome}
use vxsig.Signature.Subset.Selected
use vxsig.Signature.Subset.Trim.{total, EndsAt, keep_front-IsLongest}
use vxsig.SortedMap.{Map}
use vxsig.MatchChain.{
  MatchedFunction, MatchedInstruction, MatchChainColumn, k_d_word, new_function, new_basic_block,
  new_instruction,
}
use vxsig.MatchChain.Insert.{
  is_filtered, insert_instruction_match, MatchChainInserter, add_function_match,
  add_basic_block_match, add_instruction_match,
}
use vxsig.MatchChain.Insert.Stale.{add_instruction_match-stale}
use vxsig.MatchChain.Ids.{function_entity, propagate_ids_in}
use vxsig.MatchChain.Ids.Numbering.{ids, addresses, count_from, propagate_ids_in-IsEnumerated}
use vxsig.Generic.{
  ByteType, regular_byte, single_wildcard, ByteWithExtra, wildcard_byte, to_raw_signature_proto,
}
use vxsig.Generic.Pieces.{IsRawPiece, to_raw_signature_proto-IsRawPiece}
use vxsig.Generic.Chunks.{bytes_of, runs, to_raw_signature_proto-runs}
use vxsig.Generic.Instructions.{add_instruction_bytes}
use vxsig.Generic.Instructions.Copied.{values, add_instruction_bytes-values}
use vxsig.Generic.Penalty.{penalize_short_atoms}
use vxsig.Generic.Penalty.Zeroed.{Zeroed, penalize_short_atoms-Zeroed}
use vxsig.Generic.Matches.{byte_eq, copy_byte, insert_wildcard, block_regex}
use vxsig.Generic.Matches.Total.{block_regex-total}
use vxsig.CommonSubsequence.{common_subsequence}
use vxsig.Regex.{regex_from_subsequence}
use vxsig.Candidates.{compute_function_candidates}
use vxsig.Candidates.Common.{OccursIn, compute_function_candidates-OccursIn}
use vxsig.SignatureId.{
  HashedDefinition, of_group, get_item_ids_hash, get_signature_id_prefix_up_to_group,
  get_signature_id_prefix_up_to_item_ids_hash, get_signature_id_prefix_up_to_variant,
  get_signature_id_prefix_up_to_params_hash, get_signature_id,
}
use vxsig.SignatureId.Prefixes.{get_item_ids_hash-perm, get_signature_id-IsPrefixed}
use vxsig.Format.{MasksFit}
use vxsig.ClamAv
use vxsig.ClamAv.Bounds
use vxsig.Yara
use vxsig.Yara.Lines
use vxsig.Yara.Tokens
use vxsig.Tests.Instances.{no_flags, std, printer, hashing, no_text, hex_address}

abbrev masked_piece : Piece
masked_piece = record {
  bytes = 1 ∷ 2 ∷ 3 ∷ [];
  weight = some (pos 4);
  origin_disassembly = [];
  masked_nibble = 2 ∷ 3 ∷ [];
}

abbrev plain_piece : Piece
plain_piece = record {
  bytes = 5 ∷ 6 ∷ [];
  weight = none;
  origin_disassembly = [];
  masked_nibble = [];
}

abbrev pieces : List Piece
pieces = masked_piece ∷ plain_piece ∷ []

abbrev definition : SignatureDefinition
definition = record {
  unique_signature_id = [];
  detection_name = b'n' ∷ [];
  trim_length = pos 4;
  trim_algorithm = trim_last;
  variant = pos 0;
  min_piece_length = pos 2;
  tag = [];
  meta = [];
  item_id = [];
  disable_nibble_masking = false;
  filtered_function_address = [];
  function_filter = filter_none;
}

pieces-fit : All MasksFit pieces
pieces-fit = ((omega arith, (omega arith, tt)), (tt, tt))

get_relevant_signature_subset-Outcome_example :
    Selected.Outcome pieces std definition 2 (get_relevant_signature_subset pieces std definition 2)
get_relevant_signature_subset-Outcome_example =
    get_relevant_signature_subset-Outcome pieces std definition 2

keep_front-IsLongest_example :
    (rest : List ℕ) × (0 ∷ 1 ∷ [] ≡ keep_front pieces 4 (0 ∷ 1 ∷ []) ++ rest)
    × (total pieces (keep_front pieces 4 (0 ∷ 1 ∷ [])) ≤ 4)
    × EndsAt pieces 4 (total pieces (keep_front pieces 4 (0 ∷ 1 ∷ []))) rest
keep_front-IsLongest_example = keep_front-IsLongest pieces 4 (0 ∷ 1 ∷ [])

do_format-Outcome_example :
    Bounds.Outcome printer std definition pieces (ClamAv.do_format printer std definition pieces)
do_format-Outcome_example =
    Bounds.do_format-Outcome printer std definition pieces pieces-fit (omega arith)

abbrev tagged : SignatureDefinition
tagged = record definition {
  tag = (b'a' ∷ b'-' ∷ []) ∷ (b'b' ∷ []) ∷ [];
  meta = (record { key = b'k' ∷ []; value = bool_value true }) ∷ [];
}

abbrev empty_string : Yara.HexString
empty_string = record { data_ = []; num_hex_string_tokens = 4996; needs_wildcard = false }

append_pieces-IsWithin_example :
    (t : Yara.HexString) × (Yara.append_pieces printer no_text no_flags pieces empty_string ≡ ok t)
    × Lines.IsWithin printer no_text no_flags pieces empty_string t
append_pieces-IsWithin_example =
    Tokens.append_pieces-IsWithin printer no_text no_flags pieces empty_string pieces-fit
      (omega arith)

abbrev digits : Bytes
digits = 48 ∷ 49 ∷ 48 ∷ 50 ∷ []

abbrev byte_of : ByteType → ℕ → ByteWithExtra
byte_of t value = record { value = value; type_of = t; weight = pos 1; origin = none }

abbrev regex : List ByteWithExtra
regex =
    byte_of regular_byte 1
    ∷ byte_of single_wildcard 2
    ∷ wildcard_byte
    ∷ byte_of single_wildcard 3
    ∷ byte_of regular_byte 4
    ∷ []

to_raw_signature_proto-IsRawPiece_example :
    All IsRawPiece (to_raw_signature_proto hex_address regex)
to_raw_signature_proto-IsRawPiece_example = to_raw_signature_proto-IsRawPiece hex_address regex

to_raw_signature_proto-runs_example :
    bytes_of (to_raw_signature_proto hex_address regex) ≡ runs [] regex
to_raw_signature_proto-runs_example = to_raw_signature_proto-runs hex_address regex

abbrev call : MatchedInstruction
call = record (new_instruction 0 (8, 8)) {
  raw_instruction_bytes = 232 ∷ 1 ∷ 0 ∷ 0 ∷ 0 ∷ [];
  immediates = (1, k_d_word) ∷ [];
}

add_instruction_bytes-values_example :
    (bytes : List ByteWithExtra) × (add_instruction_bytes (new_basic_block (8, 8)) call false
      ≡ some bytes)
    × (values (new_basic_block (8, 8)) call bytes ≡ call.raw_instruction_bytes)
add_instruction_bytes-values_example =
    add_instruction_bytes-values (new_basic_block (8, 8)) call false

penalize_short_atoms-Zeroed_example :
    (out : List ByteWithExtra) × (penalize_short_atoms (pos 2) regex ≡ some out) × Zeroed regex out
penalize_short_atoms-Zeroed_example = penalize_short_atoms-Zeroed (pos 2) regex refl

block_regex-total_example :
    (cs : List ByteWithExtra) × (per_bb : List ByteWithExtra) × (common_subsequence
        (regex ∷ regex ∷ [])
      ≡ some cs)
    × All (Subsequence cs) (regex ∷ regex ∷ [])
    × (regex_from_subsequence copy_byte insert_wildcard cs (regex ∷ regex ∷ []) ≡ some per_bb)
    × (block_regex (regex ∷ regex ∷ []) ≡ some per_bb)
block_regex-total_example = block_regex-total (regex ∷ regex ∷ []) (omega arith)

abbrev functions : Map MatchedFunction
functions = (1, new_function (1, 5)) ∷ (2, new_function (2, 4)) ∷ []

abbrev functions_in_next : Map MatchedFunction
functions_in_next = (4, new_function (4, 0)) ∷ (5, new_function (5, 0)) ∷ []

propagate_ids_in-IsEnumerated_example :
    (index : Map MatchedFunction) × (others : List (Map MatchedFunction)) × (propagate_ids_in
        (functions ∷ functions_in_next ∷ [])
      ≡ index ∷ others)
    × (ids index ≡ count_from 1 2)
    × (addresses index ≡ addresses functions)
    × (map addresses others ≡ map addresses (functions_in_next ∷ []))
propagate_ids_in-IsEnumerated_example =
    propagate_ids_in-IsEnumerated functions (functions_in_next ∷ []) (omega arith)

abbrev column_of : FunctionFilterMode → MatchChainColumn
column_of filter = record {
  function_filter = filter;
  filtered_functions = 1 ∷ [];
  functions_by_address = functions;
  basic_blocks_by_address = (1, new_basic_block (1, 5)) ∷ [];
  instructions_by_address = [];
  functions_by_id = [];
  basic_blocks_by_id = [];
  filename = [];
  sha256 = [];
  diff_directory = [];
}

abbrev inserter : MatchChainInserter
inserter = record {
  column = column_of filter_include;
  current_function = some 1;
  current_basic_block = some 1;
}

add_instruction_match-stale_example :
    (add_instruction_match 0
      (add_basic_block_match (add_function_match inserter (2, 4)) (2, 4))
      (2, 4)).column
    ≡ insert_instruction_match (column_of filter_include) 0 1 (2, 4)
unfolding is_filtered
add_instruction_match-stale_example =
    add_instruction_match-stale 0 inserter 1 (2, 4) (2, 4) (2, 4) refl refl

-- The first function has a block, the second one has none.
abbrev with_block : MatchChainColumn
with_block = record (column_of filter_none) {
  functions_by_address =
      (1, record (new_function (1, 5)) { basic_blocks = 1 ∷ [] }) ∷ (2, new_function (2, 4)) ∷ [];
}

compute_function_candidates-OccursIn_example :
    (candidates : List ℕ) × (compute_function_candidates (with_block ∷ with_block ∷ [])
      ≡ some candidates)
    × All (OccursIn candidates) (with_block ∷ with_block ∷ [])
compute_function_candidates-OccursIn_example =
    compute_function_candidates-OccursIn (with_block ∷ with_block ∷ []) (omega arith)

abbrev two_items : HashedDefinition
two_items = record (of_group (b'g' ∷ []) (pos 3)) { item_id = (1 ∷ []) ∷ (2 ∷ 2 ∷ []) ∷ [] }

get_item_ids_hash-perm_example :
    get_item_ids_hash hashing (record two_items { item_id = (2 ∷ 2 ∷ []) ∷ (1 ∷ []) ∷ [] })
    ≡ get_item_ids_hash hashing two_items
get_item_ids_hash-perm_example =
    get_item_ids_hash-perm hashing two_items ((2 ∷ 2 ∷ []) ∷ (1 ∷ []) ∷ []) (Permᴰ.swap refl refl)

get_signature_id-IsPrefixed_example :
    (items variant params last : Bytes) × (get_signature_id_prefix_up_to_item_ids_hash hashing
        two_items
      ≡ get_signature_id_prefix_up_to_group hashing two_items ++ items)
    × (get_signature_id_prefix_up_to_variant hashing two_items
        ≡ get_signature_id_prefix_up_to_item_ids_hash hashing two_items ++ variant)
    × (get_signature_id_prefix_up_to_params_hash hashing two_items
        ≡ get_signature_id_prefix_up_to_variant hashing two_items ++ params)
    × (get_signature_id hashing two_items (pos 7)
        ≡ get_signature_id_prefix_up_to_params_hash hashing two_items ++ last)
    × (length (get_signature_id_prefix_up_to_group hashing two_items) ≡ 8)
    × (length items ≡ 4)
    × (length variant ≡ 4)
    × (length params ≡ 5)
    × (length last ≡ 4)
get_signature_id-IsPrefixed_example = get_signature_id-IsPrefixed hashing two_items (pos 7)
