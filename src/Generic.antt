-- ===== src/Generic.antt =====
-- vxsig/generic_signature.cc: from the bytes of matched basic blocks to a raw signature.
-- `absl::Hex` is a parameter. The `int` positions are natural numbers: a piece has fewer than 2^30
-- bytes.
pub mod Pieces
pub mod Chunks
pub mod Instructions
pub mod Penalty
pub mod Matches
use vxsig.Prelude.{
  ℕ, zero, suc, ◌+◌, ◌*◌, ◌≡◌, Bool, true, false, not, ◌&&◌, List, [], ◌∷◌, ◌++◌, Option, none,
  some, ℤ, pos, ◌==◌, if◌then◌else◌, Eq, length,
}
use vxsig.Signature.{Bytes, Piece, size_of, no_piece}
use vxsig.MatchChain.{MatchedInstruction}

-- The `type` of a `ByteWithExtra`.
pub data ByteType : Type 0 where
  regular_byte wildcard single_wildcard : ByteType

pub record ByteWithExtra : Type 0 where
  pub value : ℕ
  pub type_of : ByteType
  pub weight : ℤ
  pub origin : Option MatchedInstruction

abbrev pub is_wildcard : ByteType → Bool
is_wildcard wildcard = true
is_wildcard _ = false

abbrev pub is_single_wildcard : ByteType → Bool
is_single_wildcard single_wildcard = true
is_single_wildcard _ = false

abbrev pub is_regular : ByteType → Bool
is_regular regular_byte = true
is_regular _ = false

-- `kWildcardByte`.
abbrev pub wildcard_byte : ByteWithExtra
wildcard_byte = record { value = 0; type_of = wildcard; weight = pos 0; origin = none }

-- `GetSignatureSize`, of the pieces of the signature.
abbrev pub get_signature_size : List Piece → ℕ
get_signature_size [] = 0
get_signature_size (p ∷ ps) = size_of p + get_signature_size ps

abbrev pub is_empty {ℓ} : {A : Type ℓ} → List A → Bool
is_empty [] = true
is_empty (x ∷ xs) = false

-- The variables of `ToRawSignatureProto`: the finished pieces, `*cur_piece`, and the rest.
pub record RawState : Type 0 where
  pub finished : List Piece
  pub cur_piece : Piece
  pub add_new_piece : Bool
  pub last_instruction : Option MatchedInstruction
  pub i : ℕ

-- `origin != last_instruction`, for pointers.
abbrev pub same_instruction : Option MatchedInstruction → Option MatchedInstruction → Bool
same_instruction none none = true
same_instruction (some a) (some b) = a.location == b.location
same_instruction _ _ = false

module _ (hex : ℕ → Bytes) where
  -- The line for a byte's instruction.
  pub origin_line : Option MatchedInstruction → List Bytes
  origin_line none = []
  origin_line (some origin) =
      if is_empty origin.disassembly
      then []
      else (hex origin.matched.address ++ b':' ∷ b' ' ∷ [] ++ origin.disassembly) ∷ []

  -- A byte that is not a wildcard goes to the current piece.
  pub append_byte : ByteWithExtra → RawState → RawState
  unfolding origin_line
  append_byte b s =
      let piece = s.cur_piece in
      let masks : List ℕ =
        if is_single_wildcard b.type_of then (s.i * 2) ∷ (s.i * 2 + 1) ∷ [] else [] in
      let lines =
        if same_instruction b.origin s.last_instruction then [] else origin_line b.origin in
      let weight : Option ℤ = elim piece.weight [ none ↦ some b.weight | some w ↦ some w ] in
      record {
        finished = s.finished;
        cur_piece = record {
          bytes = piece.bytes ++ b.value ∷ [];
          weight = weight;
          origin_disassembly = piece.origin_disassembly ++ lines;
          masked_nibble = piece.masked_nibble ++ masks;
        };
        add_new_piece = false;
        last_instruction =
            if same_instruction b.origin s.last_instruction then s.last_instruction else b.origin;
        i = s.i + 1;
      }

  -- `add_piece()` where the flag asks for it.
  pub start_piece : RawState → RawState
  start_piece s = record {
    finished = if s.add_new_piece then s.finished ++ s.cur_piece ∷ [] else s.finished;
    cur_piece = if s.add_new_piece then no_piece else s.cur_piece;
    add_new_piece = false;
    last_instruction = s.last_instruction;
    i = if s.add_new_piece then 0 else s.i;
  }

  -- The body of the loop.
  pub add_byte : ByteWithExtra → RawState → RawState
  unfolding append_byte start_piece
  add_byte b s =
      let started = start_piece s in
      if is_wildcard b.type_of
      then record s { add_new_piece = not (is_empty s.cur_piece.bytes) }
      else if is_single_wildcard b.type_of && is_empty started.cur_piece.bytes
      then started
      else append_byte b started

  pub add_bytes : List ByteWithExtra → RawState → RawState
  unfolding add_byte
  add_bytes [] s = s
  add_bytes (b ∷ bs) s = add_bytes bs (add_byte b s)

  abbrev pub initial_state : RawState
  initial_state = record {
    finished = [];
    cur_piece = no_piece;
    add_new_piece = false;
    last_instruction = none;
    i = 0;
  }

  abbrev pub finish_pieces : RawState → List Piece
  finish_pieces s =
      if is_empty s.cur_piece.bytes then s.finished else s.finished ++ s.cur_piece ∷ []

  unfoldable pub to_raw_signature_proto : List ByteWithExtra → List Piece
  unfolding add_bytes
  to_raw_signature_proto regex = finish_pieces (add_bytes regex initial_state)
