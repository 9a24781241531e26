-- ===== src/Generic/Matches.antt =====
-- `GenericSignatureFromMatches`.
pub mod Total
pub mod Returns
use vxsig.Prelude.{
  ℕ, ◌+◌, ◌%◌, ◌^◌, ◌≡◌, Bool, true, false, not, ◌&&◌, ◌||◌, List, [], ◌∷◌, ◌++◌, Option, none,
  some, ◌>>=◌, ltb, ◌==◌, if◌then◌else◌, length, reverse, Eq, ℤ, pos, ltb_ℤ, arith, refl,
}
use vxsig.SortedMap.{find}
use vxsig.Signature.{
  Bytes, Piece, Status, invalid_argument, internal_error, Result, ok, failed, and_then,
}
use vxsig.MatchChain.{
  MatchedInstruction, MatchedBasicBlock, MatchChainColumn, find_basic_block_by_id,
}
use vxsig.CommonSubsequence.{common_subsequence}
use vxsig.Regex.{regex_from_subsequence}
use vxsig.Generic.{
  ByteType, regular_byte, wildcard, single_wildcard, ByteWithExtra, is_wildcard, wildcard_byte,
  is_empty, to_raw_signature_proto,
}
use vxsig.Generic.Instructions.{add_instruction_bytes}
use vxsig.Generic.Penalty.{penalize_short_atoms}

abbrev pub same_type : ByteType → ByteType → Bool
same_type regular_byte regular_byte = true
same_type wildcard wildcard = true
same_type single_wildcard single_wildcard = true
same_type _ _ = false

-- `operator==`: the weight and the origin are ignored.
abbrev pub same_byte : ByteWithExtra → ByteWithExtra → Bool
same_byte lhs rhs = (lhs.value == rhs.value) && same_type lhs.type_of rhs.type_of

same_type_refl : (t : ByteType) → same_type t t ≡ true
same_type_refl regular_byte = refl
same_type_refl wildcard = refl
same_type_refl single_wildcard = refl

same_type_symm : (t u : ByteType) → same_type t u ≡ true → same_type u t ≡ true
same_type_symm t u h = ground arith

same_type_trans :
    (t u v : ByteType) → same_type t u ≡ true → same_type u v ≡ true → same_type t v ≡ true
same_type_trans t u v h k = ground arith

pub same_byte_refl : (a : ByteWithExtra) → same_byte a a ≡ true
same_byte_refl a = ground (arith, same_type_refl a.type_of)

pub same_byte_symm : (a b : ByteWithExtra) → same_byte a b ≡ true → same_byte b a ≡ true
same_byte_symm a b h = ground (arith, same_type_symm a.type_of b.type_of)

pub same_byte_trans :
    (a b c : ByteWithExtra) → same_byte a b ≡ true → same_byte b c ≡ true → same_byte a c ≡ true
same_byte_trans a b c h k = ground (arith, same_type_trans a.type_of b.type_of c.type_of)

instance abbrev pub byte_eq : Eq ByteWithExtra
byte_eq = record {
  beq = same_byte;
  beq_refl = same_byte_refl;
  beq_symm = same_byte_symm;
  beq_trans = same_byte_trans;
}

-- `!s.empty() && s.back().type != kWildcard`.
abbrev pub ends_in_byte : List ByteWithExtra → Bool
ends_in_byte [] = false
ends_in_byte (b ∷ []) = not (is_wildcard b.type_of)
ends_in_byte (b ∷ c ∷ bs) = ends_in_byte (c ∷ bs)

-- The loop over the instructions of a basic block; `last_end` is `last_address + last_size`. `none`
-- is a process that stops.
pub block_sequence :
    Bool
    → MatchChainColumn
    → MatchedBasicBlock
    → List ℕ
    → ℕ
    → List ByteWithExtra
    → Option (Result (List ByteWithExtra))
unfolding add_instruction_bytes
block_sequence disable_nibble_masking column bb [] last_end sequence = some (ok sequence)
block_sequence disable_nibble_masking column bb (pointer ∷ pointers) last_end sequence =
    find column.instructions_by_address pointer >>= λ instr.
    let address = instr.matched.address in
    let separated =
      if ends_in_byte sequence && ltb last_end address
      then sequence ++ wildcard_byte ∷ []
      else sequence in
    let rest = add_instruction_bytes bb instr disable_nibble_masking >>= λ bytes.
    block_sequence disable_nibble_masking column bb pointers
      ((address + length instr.raw_instruction_bytes) % 2 ^ 64) (separated ++ bytes) in
    if is_empty instr.raw_instruction_bytes then some (failed internal_error) else rest

-- The loop over the columns.
pub block_sequences : Bool → ℕ → List MatchChainColumn → Option (Result (List (List ByteWithExtra)))
unfolding block_sequence
block_sequences disable_nibble_masking bb_id [] = some (ok [])
block_sequences disable_nibble_masking bb_id (column ∷ columns) =
    find_basic_block_by_id column bb_id >>= λ bb.
    and_then (block_sequence disable_nibble_masking column bb bb.instructions 0 []) (λ sequence.
      and_then (block_sequences disable_nibble_masking bb_id columns)
        (λ sequences. some (ok (sequence ∷ sequences))))

-- `insert_wildcard`: the bounds are not used.
abbrev pub insert_wildcard : ℕ → ℕ → List ByteWithExtra
insert_wildcard min_qualifier max_qualifier = wildcard_byte ∷ []

abbrev pub copy_byte : ByteWithExtra → ByteWithExtra
copy_byte b = b

-- `bb_cs` and `per_bb_regex` of a candidate.
pub block_regex : List (List ByteWithExtra) → Option (List ByteWithExtra)
unfolding common_subsequence regex_from_subsequence
block_regex sequences = common_subsequence sequences >>= λ cs.
    regex_from_subsequence copy_byte insert_wildcard cs sequences

-- The loop over the candidates.
pub candidates_regex :
    List MatchChainColumn
    → Bool
    → List ℕ
    → List ByteWithExtra
    → Option (Result (List ByteWithExtra))
unfolding block_sequences block_regex
candidates_regex table disable_nibble_masking [] regex = some (ok regex)
candidates_regex table disable_nibble_masking (bb_id ∷ bb_ids) regex =
    and_then (block_sequences disable_nibble_masking bb_id table) (λ sequences.
      block_regex sequences >>= λ per_bb_regex.
      let separated = if ends_in_byte regex then regex ++ wildcard_byte ∷ [] else regex in
      candidates_regex table disable_nibble_masking bb_ids (separated ++ per_bb_regex))

module _ (hex : ℕ → Bytes) where
  -- The last two steps, on the whole expression.
  abbrev pub penalize_and_convert : ℤ → List ByteWithExtra → Option (Result (List Piece))
  penalize_and_convert min_piece_length regex =
      elim (penalize_short_atoms min_piece_length regex) as (λ _. Option (Result (List Piece))) [
        | none ↦ none
        | some penalized ↦ some (ok (to_raw_signature_proto hex penalized))
      ]

  -- The two arguments are checked first.
  unfoldable pub generic_signature_from_matches :
      List MatchChainColumn → List ℕ → Bool → ℤ → Option (Result (List Piece))
  unfolding candidates_regex penalize_short_atoms to_raw_signature_proto
  generic_signature_from_matches table bb_candidate_ids disable_nibble_masking min_piece_length =
      let signature =
        and_then (candidates_regex table disable_nibble_masking bb_candidate_ids [])
          (penalize_and_convert min_piece_length) in
      if is_empty bb_candidate_ids || ltb_ℤ min_piece_length (pos 1)
      then some (failed invalid_argument)
      else signature
