-- ===== src/Generic/Matches/Returns.antt =====
-- `GenericSignatureFromMatches` returns for candidates whose instructions have bytes.
use vxsig.Prelude.{
  ℕ, suc, ◌+◌, ◌%◌, ◌^◌, ◌≤◌, ◌≡◌, refl, ap, ◌∙◌, Bool, false, ◌&&◌, List, [], ◌∷◌, ◌++◌, some, ltb,
  if◌then◌else◌, length, All, ℤ, pos, ltb_ℤ, arith,
}
use vxsig.SortedMap.{find}
use vxsig.Signature.{Bytes, Piece, ok, and_then}
use vxsig.MatchChain.{
  MatchedInstruction, MatchedBasicBlock, MatchChainColumn, find_basic_block_by_id,
}
use vxsig.Generic.{ByteWithExtra, is_empty, wildcard_byte, to_raw_signature_proto}
use vxsig.Generic.Pieces.{IsRawPiece, to_raw_signature_proto-IsRawPiece}
use vxsig.Generic.Instructions.Copied.{add_instruction_bytes-values}
use vxsig.Generic.Penalty.Zeroed.{penalize_short_atoms-Zeroed}
use vxsig.Generic.Matches.{
  ends_in_byte, block_sequence, block_sequences, candidates_regex, penalize_and_convert,
  generic_signature_from_matches,
}
use vxsig.Generic.Matches.Total.{block_regex-total}

module _ (column : MatchChainColumn) where
  -- A pointer to an instruction whose bytes have been loaded.
  abbrev pub IsLoaded : ℕ → Type 0
  IsLoaded pointer =
      (instr : MatchedInstruction) × (find column.instructions_by_address pointer ≡ some instr)
      × (is_empty instr.raw_instruction_bytes ≡ false)

  -- The id of a basic block of such instructions.
  abbrev pub IsLoadedBlock : ℕ → Type 0
  IsLoadedBlock id =
      (bb : MatchedBasicBlock) × (find_basic_block_by_id column id ≡ some bb)
      × All IsLoaded bb.instructions

  block_sequence-Returns :
      (disable_nibble_masking : Bool) (bb : MatchedBasicBlock) (pointers : List ℕ) (last_end : ℕ)
      (sequence : List ByteWithExtra)
      → All IsLoaded pointers
      → (out : List ByteWithExtra) × (block_sequence disable_nibble_masking column bb pointers
            last_end sequence
          ≡ some (ok out))
  unfolding block_sequence
  block_sequence-Returns masking bb [] last_end sequence h = (sequence, refl)
  block_sequence-Returns masking bb (pointer ∷ pointers) last_end sequence
        ((instr, found, loaded), h) =
      let (bytes, e, v) = add_instruction_bytes-values bb instr masking in
      let address = instr.matched.address in
      let separated =
        if ends_in_byte sequence && ltb last_end address
        then sequence ++ wildcard_byte ∷ []
        else sequence in
      let (out, e') =
        block_sequence-Returns masking bb pointers
          ((address + length instr.raw_instruction_bytes) % 2 ^ 64) (separated ++ bytes) h in
      (out, rw (found, block_sequence, loaded, e) e')

block_sequences-Returns :
    (masking : Bool) (id : ℕ) (table : List MatchChainColumn)
    → All (λ column. IsLoadedBlock column id) table
    → (out : List (List ByteWithExtra)) × (block_sequences masking id table ≡ some (ok out))
      × (length out ≡ length table)
unfolding block_sequences
block_sequences-Returns masking id [] h = ([], refl, refl)
block_sequences-Returns masking id (column ∷ table) ((bb, found, loaded), h) =
    let (sequence, e) = block_sequence-Returns column masking bb bb.instructions 0 [] loaded in
    let (rest, e', same) = block_sequences-Returns masking id table h in
    (sequence ∷ rest, rw (found, block_sequences, e, e') refl, ap suc same)

candidates_regex-Returns :
    (table : List MatchChainColumn) (masking : Bool) (ids : List ℕ) (regex : List ByteWithExtra)
    → 2 ≤ length table
    → All (λ id. All (λ column. IsLoadedBlock column id) table) ids
    → (out : List ByteWithExtra) × (candidates_regex table masking ids regex ≡ some (ok out))
unfolding candidates_regex
candidates_regex-Returns table masking [] regex two h = (regex, refl)
candidates_regex-Returns table masking (id ∷ ids) regex two (blocks, h) =
    let (sequences, e, same) = block_sequences-Returns masking id table blocks in
    let (cs, per_bb, e₁, occurs, e₂, e₃) = block_regex-total sequences (omega (arith, same)) in
    let separated = if ends_in_byte regex then regex ++ wildcard_byte ∷ [] else regex in
    let (out, e₄) = candidates_regex-Returns table masking ids (separated ++ per_bb) two h in
    (out, rw (e, candidates_regex, e₃) e₄)

-- Behind the two checks.
generic_signature_from_matches-checked :
    (hex : ℕ → Bytes) (table : List MatchChainColumn) (ids : List ℕ) (masking : Bool)
    (min_piece_length : ℤ)
    → is_empty ids ≡ false
    → ltb_ℤ min_piece_length (pos 1) ≡ false
    → generic_signature_from_matches hex table ids masking min_piece_length
      ≡ and_then (candidates_regex table masking ids []) (penalize_and_convert hex min_piece_length)
unfolding generic_signature_from_matches
generic_signature_from_matches-checked hex table ids masking min_piece_length some_ids large =
    rw (some_ids, generic_signature_from_matches, large) refl

-- For two or more columns, one candidate or more, and a minimum length of at least 1: if the id of
-- each candidate leads to a basic block in every column, and each of the blocks' pointers to an
-- instruction with bytes, the function returns a raw signature, without an empty piece.
pub generic_signature_from_matches-Returns :
    (hex : ℕ → Bytes) (table : List MatchChainColumn) (ids : List ℕ) (masking : Bool)
    (min_piece_length : ℤ)
    → 2 ≤ length table
    → is_empty ids ≡ false
    → ltb_ℤ min_piece_length (pos 1) ≡ false
    → All (λ id. All (λ column. IsLoadedBlock column id) table) ids
    → (raw : List Piece) × (generic_signature_from_matches hex table ids masking min_piece_length
        ≡ some (ok raw))
      × All IsRawPiece raw
generic_signature_from_matches-Returns hex table ids masking min_piece_length two some_ids large
      blocks =
    let (regex, e) = candidates_regex-Returns table masking ids [] two blocks in
    let (penalized, e', z) = penalize_short_atoms-Zeroed min_piece_length regex large in
    (
      to_raw_signature_proto hex penalized,
      generic_signature_from_matches-checked hex table ids masking min_piece_length some_ids large
          ∙ rw (e, penalize_and_convert, e') refl,
      to_raw_signature_proto-IsRawPiece hex penalized,
    )
