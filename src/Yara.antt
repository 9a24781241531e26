-- ===== src/Yara.antt =====
-- vxsig/yara_signature_formatter.cc: `YaraSignatureFormatter`. `std::to_string` is a parameter.
pub mod Text
pub mod Head
pub mod Lines
pub mod Tokens
use vxsig.Prelude.{
  ℕ, ◌+◌, ◌-◌, ◌==◌, Bool, true, false, ◌||◌, List, [], ◌∷◌, ◌++◌, map, Option, none, some, ℤ, ltb,
  if◌then◌else◌, length, take,
}
use vxsig.Signature.{
  Signature, weight_of, Bytes, Piece, Meta, MetaValue, string_value, int_value, bool_value,
  value_not_set, SignatureDefinition, Result, ok, failed, undefined, ◌>>=ᵣ◌,
}
use vxsig.Signature.Subset.{Algorithms, get_relevant_signature_subset}
use vxsig.Format.{HexPrinter, mask, format_signatures}
use vxsig.Yara.Text.{
  rule_text, open_text, meta_text, true_text, false_text, equals_text, strings_text, indent_text,
  wildcard_text, no_wildcard_text, comment_text, masking_text, weight_text, condition_text,
}

-- The limits.
abbrev pub yara_max_ident_len : ℕ
yara_max_ident_len = 128

abbrev pub yara_min_tokens : ℕ
yara_min_tokens = 2

abbrev pub yara_max_hex_string_tokens : ℕ
yara_max_hex_string_tokens = 5000

-- `MakeValidIdentifier`: every "-" becomes "_".
pub make_valid_identifier : Bytes → Bytes
make_valid_identifier identifier =
    map (λ c. if c == b'-' then b'_' else c) (take yara_max_ident_len identifier)

-- The tags of the rule.
pub tags_text : Bool → List Bytes → Bytes
unfolding make_valid_identifier
tags_text first [] = []
tags_text first (tag ∷ tags) =
    (if first then b' ' ∷ b':' ∷ b' ' ∷ [] else b' ' ∷ [])
    ++ (make_valid_identifier tag ++ tags_text false tags)

-- `data`, `num_hex_string_tokens` and `needs_wildcard`.
pub record HexString : Type 0 where
  pub data_ : Bytes
  pub num_hex_string_tokens : ℕ
  pub needs_wildcard : Bool

module _ (to_string : ℤ → Bytes) where
  -- The value of an entry, unless it is not set.
  pub meta_value : MetaValue → Option Bytes
  unfolding make_valid_identifier
  meta_value (string_value text) = some (b'"' ∷ make_valid_identifier text ++ b'"' ∷ [])
  meta_value (int_value i) = some (to_string i)
  meta_value (bool_value b) = some (if b then true_text else false_text)
  meta_value value_not_set = none

  pub meta_lines : List Meta → Bytes
  unfolding meta_value
  meta_lines [] = []
  meta_lines (entry ∷ entries) = elim (meta_value entry.value) as (λ _. Bytes) [
    | none ↦ meta_lines entries
    | some value ↦
        b' ' ∷ b' ' ∷ b' ' ∷ b' ' ∷ entry.key ++ (equals_text ++ (value ++ 10 ∷ meta_lines entries))
  ]

  -- What stands before the hexadecimal string.
  pub rule_head : SignatureDefinition → Bytes
  unfolding make_valid_identifier tags_text meta_lines
  rule_head definition =
      let name = elim definition.detection_name as (λ _. Bytes) [
        | [] ↦ definition.unique_signature_id
        | ◌∷◌ c cs ↦ c ∷ cs
      ] in
      let meta = elim definition.meta as (λ _. Bytes) [
        | [] ↦ []
        | ◌∷◌ entry entries ↦ meta_text ++ meta_lines (entry ∷ entries)
      ] in
      rule_text
      ++ (make_valid_identifier name
          ++ (tags_text true definition.tag ++ (open_text ++ (meta ++ strings_text))))

-- The disassembly as comments.
pub comments : List Bytes → Bytes
comments [] = []
comments (line ∷ lines) = comment_text ++ (line ++ 10 ∷ comments lines)

-- `max_copy_bytes`: 0 where the `int` of the source is negative, which ends the loop too.
pub copy_budget : ℕ → Bool → ℕ
copy_budget num_tokens needs_wildcard =
    yara_max_hex_string_tokens - num_tokens - (if needs_wildcard then 1 else 0)

-- The two tests that end the loop.
pub is_exhausted : ℕ → Bool → Bool
unfolding copy_budget
is_exhausted num_tokens needs_wildcard =
    ltb yara_max_hex_string_tokens num_tokens
    || ltb (copy_budget num_tokens needs_wildcard) yara_min_tokens

-- --siggen_yara_debug_masking and --siggen_yara_debug_weights.
pub record DebugFlags : Type 0 where
  pub masking : Bool
  pub weights : Bool

-- The variables behind a piece, whose masked digits end `text`, and the lines for debugging.
abbrev pub after_piece : Piece → HexString → Bytes → Bytes → HexString
after_piece piece s text debug =
    let max_copy_bytes = copy_budget s.num_hex_string_tokens s.needs_wildcard in
    record {
      data_ = text ++ (debug ++ comments piece.origin_disassembly);
      num_hex_string_tokens =
          s.num_hex_string_tokens
          + (if s.needs_wildcard then 1 else 0)
          + length (take max_copy_bytes piece.bytes);
      needs_wildcard = true;
    }

module _ (hex : HexPrinter) (to_string : ℤ → Bytes) (flags : DebugFlags) where
  -- The lines that the two flags ask for.
  pub debug_lines : Piece → Bytes → Bytes
  debug_lines piece piece_bytes =
      (if flags.masking then masking_text ++ (hex.bytes_to_hex piece_bytes ++ 10 ∷ []) else [])
      ++ (if flags.weights then weight_text ++ (to_string (weight_of piece) ++ 10 ∷ []) else [])

  -- The lines of a piece.
  pub append_piece : Piece → HexString → Result HexString
  unfolding copy_budget comments debug_lines
  append_piece piece s =
      let max_copy_bytes = copy_budget s.num_hex_string_tokens s.needs_wildcard in
      let front =
        s.data_
        ++ (indent_text ++ (if s.needs_wildcard then wildcard_text else no_wildcard_text)) in
      let piece_bytes = take max_copy_bytes piece.bytes in
      mask (length front) max_copy_bytes piece.masked_nibble
        (front ++ (hex.bytes_to_hex piece_bytes ++ 10 ∷ []))
      >>=ᵣ λ text. ok (after_piece piece s text (debug_lines piece piece_bytes))

  -- The loop over the pieces.
  pub append_pieces : List Piece → HexString → Result HexString
  unfolding append_piece is_exhausted
  append_pieces [] s = ok s
  append_pieces (piece ∷ pieces) s =
      let rest = append_piece piece s >>=ᵣ append_pieces pieces in
      if is_exhausted s.num_hex_string_tokens s.needs_wildcard then ok s else rest

  unfoldable pub do_format : Algorithms → SignatureDefinition → List Piece → Result Bytes
  unfolding append_pieces rule_head
  do_format std definition raw =
      get_relevant_signature_subset raw std definition yara_min_tokens >>=ᵣ λ subset.
      append_pieces subset (record {
        data_ = rule_head to_string definition;
        num_hex_string_tokens = 0;
        needs_wildcard = false;
      })
      >>=ᵣ λ s. ok (s.data_ ++ condition_text)

  -- `DoFormatDatabase`: the texts alone.
  unfoldable pub do_format_database : Algorithms → List Signature → Result Bytes
  unfolding do_format format_signatures
  do_format_database std signatures =
      format_signatures (λ signature. signature.yara_data)
        (λ signature. do_format std signature.definition signature.raw_signature) [] signatures
