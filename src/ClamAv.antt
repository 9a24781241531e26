-- ===== src/ClamAv.antt =====
-- vxsig/clamav_signature_formatter.cc: `ClamAvSignatureFormatter`.
pub mod Bounds
use vxsig.Prelude.{
  ℕ, suc, ◌+◌, ◌-◌, ◌/◌, ◌%◌, ◌^◌, Bool, true, false, ◌||◌, List, [], ◌∷◌, ◌++◌, ltb, if◌then◌else◌,
  length, take,
}
use vxsig.Signature.{
  Signature, Bytes, Piece, SignatureDefinition, Status, out_of_range, Result, ok, failed, undefined,
  ◌>>=ᵣ◌,
}
use vxsig.Signature.Subset.{Algorithms, get_relevant_signature_subset}
use vxsig.Format.{HexPrinter, mask, format_signatures}

-- `kClamAvMinBytes`, `kClamAvMaxLineLen`, and ":0:*:".
abbrev pub clam_av_min_bytes : ℕ
clam_av_min_bytes = 2

abbrev pub clam_av_max_line_len : ℕ
clam_av_max_line_len = 8191

abbrev pub target_and_offset : Bytes
target_and_offset = b':' ∷ b'0' ∷ b':' ∷ b'*' ∷ b':' ∷ []

-- `max_copy_bytes`: the difference and the quotient are taken in `size_t`, where they wrap around,
-- and their low 32 bits are read as an `int`. The array "*" has 2 items, its end included.
pub copy_budget : ℕ → Bool → ℕ
copy_budget size needs_wildcard =
    ((clam_av_max_line_len + 2 ^ 64 - size - (if needs_wildcard then 2 else 0)) % 2 ^ 64 / 2)
    % 2 ^ 32

-- `max_copy_bytes < kClamAvMinBytes`, for an `int`: also where its sign bit is set.
pub is_exhausted : ℕ → Bool
is_exhausted max_copy_bytes =
    ltb max_copy_bytes clam_av_min_bytes || ltb (2 ^ 31 - 1) max_copy_bytes

-- `kClamAvWildcard`, in front of all pieces but the first.
abbrev pub separator : Bool → Bytes
separator true = b'*' ∷ []
separator false = []

module _ (hex : HexPrinter) where
  -- The loop over the pieces.
  pub append_pieces : List Piece → Bool → Bytes → Result Bytes
  unfolding copy_budget is_exhausted mask
  append_pieces [] needs_wildcard text = ok text
  append_pieces (p ∷ ps) needs_wildcard text =
      let max_copy_bytes = copy_budget (length text) needs_wildcard in
      let text' = text ++ separator needs_wildcard in
      let piece_bytes = take max_copy_bytes p.bytes in
      let rest =
        mask (length text') max_copy_bytes p.masked_nibble (text' ++ hex.bytes_to_hex piece_bytes)
        >>=ᵣ append_pieces ps true in
      if is_exhausted max_copy_bytes then ok text else rest

  -- The test behind the loop.
  pub check_length : Bytes → Result Bytes
  check_length text =
      if ltb clam_av_max_line_len (length text) then failed out_of_range else ok text

  -- `DoFormat`: the text of the signature.
  unfoldable pub do_format : Algorithms → SignatureDefinition → List Piece → Result Bytes
  unfolding append_pieces check_length
  do_format std definition raw =
      get_relevant_signature_subset raw std definition clam_av_min_bytes >>=ᵣ λ subset.
      append_pieces subset false (definition.detection_name ++ target_and_offset) >>=ᵣ check_length

  -- `DoFormatDatabase`: the texts are appended to `database`, each with the end of a line.
  unfoldable pub do_format_database : Algorithms → Bytes → List Signature → Result Bytes
  unfolding do_format format_signatures
  do_format_database std database signatures =
      format_signatures (λ signature. signature.clam_av_data)
        (λ signature. do_format std signature.definition signature.raw_signature) (10 ∷ [])
        signatures
      >>=ᵣ λ texts. ok (database ++ texts)
