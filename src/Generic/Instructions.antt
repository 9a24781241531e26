-- ===== src/Generic/Instructions.antt =====
-- `AddInstructionBytes`.
pub mod Copied
use vxsig.Prelude.{
  ℕ, zero, suc, ◌+◌, ◌-◌, ◌*◌, ◌/◌, ◌%◌, ◌^◌, ◌<◌, ◌≤◌, ◌≡◌, refl, sym, ap, ◌∙◌, inl, inr, Bool,
  true, false, ◌&&◌, ◌||◌, not, List, [], ◌∷◌, ◌++◌, map, Option, none, some, ◌>>=◌, arith, ltb,
  ltb→lt, lt→ltb, ◌==◌, if◌then◌else◌, Bool-cases, length, take, drop, All,
}
use vxsig.SortedMap.{is_member}
use vxsig.Signature.{Bytes}
use vxsig.MatchChain.{
  MatchedInstruction, MatchedBasicBlock, ImmediateSize, k_byte, k_word, k_d_word, k_q_word,
}
use vxsig.Generic.{ByteWithExtra, ByteType, regular_byte, single_wildcard}

-- `absl::little_endian::Store32` into a string of four bytes.
pub store32 : ℕ → Bytes
store32 value = value % 256 ∷ value / 256 % 256 ∷ value / 256 ^ 2 % 256 ∷ value / 256 ^ 3 % 256 ∷ []

-- `text` starts with `pattern`.
pub starts_with : Bytes → Bytes → Bool
starts_with text [] = true
starts_with [] (c ∷ pattern) = false
starts_with (d ∷ text) (c ∷ pattern) = (d == c) && starts_with text pattern

-- `std::string::rfind`: the last position of `pattern`, counted from `i`, or `npos`.
pub rfind_from : ℕ → Bytes → Bytes → Option ℕ
unfolding starts_with
rfind_from i [] pattern = if starts_with [] pattern then some i else none
rfind_from i (c ∷ text) pattern = elim (rfind_from (i + 1) text pattern) [
  | some found ↦ some found
  | none ↦ if starts_with (c ∷ text) pattern then some i else none
]

abbrev is_d_word : ImmediateSize → Bool
is_d_word k_d_word = true
is_d_word _ = false

-- `immediate_pos`, in no order.
pub immediate_positions : Bytes → List (ℕ × ImmediateSize) → List ℕ
unfolding rfind_from store32
immediate_positions raw_bytes [] = []
immediate_positions raw_bytes (immediate ∷ immediates) =
    let rest = immediate_positions raw_bytes immediates in
    if is_d_word immediate.1
    then elim (rfind_from 0 raw_bytes (store32 immediate.0)) as (λ _. List ℕ) [
      | none ↦ rest
      | some found ↦ found ∷ rest
    ]
    else rest

-- `raw_bytes[i]`; the place behind the last byte holds 0, and there is none behind it.
pub byte_at : Bytes → ℕ → Option ℕ
byte_at [] zero = some 0
byte_at [] (suc i) = none
byte_at (b ∷ bytes) zero = some b
byte_at (b ∷ bytes) (suc i) = byte_at bytes i

module _ (bb : MatchedBasicBlock) (instr : MatchedInstruction) where
  abbrev pub extra : ByteType → ℕ → ByteWithExtra
  extra type_of value = record {
    value = value;
    type_of = type_of;
    weight = bb.weight;
    origin = some instr;
  }

  -- `n` times `push_back` of `raw_bytes[i++]`.
  pub push_bytes : ByteType → ℕ → ℕ → Option (List ByteWithExtra)
  unfolding byte_at
  push_bytes type_of zero i = some []
  push_bytes type_of (suc n) i = byte_at instr.raw_instruction_bytes i >>= λ value.
      push_bytes type_of n (i + 1) >>= λ rest. some (extra type_of value ∷ rest)

  -- The loop over the bytes; `none` also where the fuel runs out.
  pub push_instruction : List ℕ → ℕ → ℕ → Option (List ByteWithExtra)
  unfolding push_bytes
  push_instruction immediate_pos zero i =
      if ltb i (length instr.raw_instruction_bytes) then none else some []
  push_instruction immediate_pos (suc rounds) i =
      let masked = is_member i immediate_pos in
      let rest = push_instruction immediate_pos rounds (if masked then i + 4 else i + 1) in
      let pushed =
        push_bytes (if masked then single_wildcard else regular_byte) (if masked then 4 else 1) i
        >>= λ bytes. rest >>= λ more. some (bytes ++ more) in
      if ltb i (length instr.raw_instruction_bytes) then pushed else some []

  -- The bytes that are appended to `bb_sequence`. Each round takes a byte at least.
  unfoldable pub add_instruction_bytes : Bool → Option (List ByteWithExtra)
  unfolding push_instruction immediate_positions
  add_instruction_bytes disable_nibble_masking =
      let positions = immediate_positions instr.raw_instruction_bytes instr.immediates in
      push_instruction (if disable_nibble_masking then [] else positions)
        (length instr.raw_instruction_bytes) 0
