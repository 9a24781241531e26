-- ===== src/Generic/Instructions/Copied.antt =====
-- `AddInstructionBytes` appends the bytes of the instruction, whatever it masks.
use vxsig.Prelude.{
  ℕ, zero, suc, ◌+◌, ◌<◌, ◌≤◌, ◌≡◌, refl, sym, ap, subst, ◌∙◌, inl, inr, Bool, true, false, List,
  [], ◌∷◌, ◌++◌, map, some, Option-cases, arith, ltb, ltb→lt, ◌==◌, ==_iff, Bool-cases, length,
  drop, All,
}
use mathlib.Core.List.{map-append}
use vxsig.SortedMap.{is_member}
use vxsig.Signature.{Bytes}
use vxsig.MatchChain.{MatchedInstruction, MatchedBasicBlock, ImmediateSize}
use vxsig.Generic.{ByteWithExtra, ByteType, regular_byte, single_wildcard}
use vxsig.Generic.Instructions.{
  store32, starts_with, rfind_from, immediate_positions, is_d_word, byte_at, extra, push_bytes,
  push_instruction, add_instruction_bytes,
}

length-starts_with :
    (text pattern : Bytes) → starts_with text pattern ≡ true → length pattern ≤ length text
unfolding starts_with
length-starts_with text [] h = omega arith
length-starts_with [] (c ∷ pattern) h = absurd (ground arith)
length-starts_with (d ∷ text) (c ∷ pattern) h = ground (arith, length-starts_with text pattern)

rfind_from-IsInside :
    (i : ℕ) (text pattern : Bytes) (found : ℕ)
    → rfind_from i text pattern ≡ some found
    → found + length pattern ≤ i + length text
unfolding rfind_from
rfind_from-IsInside i [] pattern found h = ground (arith, length-starts_with [] pattern)
rfind_from-IsInside i (c ∷ text) pattern found h =
    elim (Option-cases (rfind_from (i + 1) text pattern)) [
      | inl e ↦ ground (arith, length-starts_with (c ∷ text) pattern)
      | inr (later, e) ↦ ground (arith, rfind_from-IsInside (i + 1) text pattern later e)
    ]

immediate_positions-IsInside :
    (raw : Bytes) (immediates : List (ℕ × ImmediateSize))
    → All (λ p. p + 4 ≤ length raw) (immediate_positions raw immediates)
unfolding immediate_positions store32
immediate_positions-IsInside raw [] = tt
immediate_positions-IsInside raw (immediate ∷ immediates) =
    let rest = immediate_positions-IsInside raw immediates in
    elim (Bool-cases (is_d_word immediate.1)) [
      | inl d ↦ rw d (elim (Option-cases (rfind_from 0 raw (store32 immediate.0))) [
        | inl e ↦ rw e rest
        | inr (found, e) ↦
            rw e (omega (arith, rfind_from-IsInside 0 raw (store32 immediate.0) found e), rest)
      ])
      | inr other ↦ rw other rest
    ]

is_member-All :
    (P : ℕ → Type 0) (key : ℕ) (keys : List ℕ) → is_member key keys ≡ true → All P keys → P key
is_member-All P key [] h all = absurd (ground arith)
is_member-All P key (k ∷ keys) h all = elim (Bool-cases (key == k)) [
  | inl e ↦ subst P (sym ((==_iff key k).0 e)) all.0
  | inr e ↦ is_member-All P key keys (ground arith) all.1
]

drop-cons :
    (raw : Bytes) (i j : ℕ)
    → i < length raw
    → j ≡ i + 1
    → (b : ℕ) × (byte_at raw i ≡ some b) × (drop i raw ≡ b ∷ drop j raw)
unfolding byte_at
drop-cons [] i j h e = absurd (omega arith)
drop-cons (b ∷ raw) i zero h e = absurd (omega arith)
drop-cons (b ∷ raw) zero (suc j) h e = (b, refl, ap (λ k. b ∷ drop k raw) (zero_eq j (omega arith)))
  where
    zero_eq : (k : ℕ) → k ≡ 0 → 0 ≡ k
    zero_eq k z = sym z
drop-cons (b ∷ raw) (suc i) (suc j) h e = drop-cons raw i j (omega arith) (omega arith)

drop-all : (raw : Bytes) (i : ℕ) → length raw ≤ i → drop i raw ≡ []
drop-all [] zero h = refl
drop-all [] (suc i) h = refl
drop-all (b ∷ raw) zero h = absurd (omega arith)
drop-all (b ∷ raw) (suc i) h = drop-all raw i (omega arith)

same_place : (i n : ℕ) → n ≡ 0 → i + n ≡ i
same_place i n e = omega arith

shift : (i n : ℕ) → i + suc n ≡ i + 1 + n
shift i n = omega arith

not_below : (i n : ℕ) → n ≤ i → ltb i n ≡ false
not_below i n h = ground arith

module _ (bb : MatchedBasicBlock) (instr : MatchedInstruction) where
  abbrev raw : Bytes
  raw = instr.raw_instruction_bytes

  abbrev pub values : List ByteWithExtra → Bytes
  values bytes = map (λ b. b.value) bytes

  -- The `n` bytes from `i` are pushed.
  push_bytes_lem :
      (t : ByteType) (n i : ℕ)
      → i + n ≤ length raw
      → (bytes : List ByteWithExtra) × (push_bytes bb instr t n i ≡ some bytes)
        × (values bytes ++ drop (i + n) raw ≡ drop i raw)
  unfolding push_bytes
  push_bytes_lem t zero i h = ([], refl, ap (λ k. drop k raw) (same_place i 0 refl))
  push_bytes_lem t (suc n) i h =
      let (b, at, tail) = drop-cons raw i (i + 1) (omega arith) refl in
      let (bytes, e, same) = push_bytes_lem t n (i + 1) (omega arith) in
      (
        extra bb instr t b ∷ bytes,
        rw (at, e) refl,
        ap (◌∷◌ b) (ap (λ k. values bytes ++ drop k raw) (shift i n) ∙ same) ∙ sym tail,
      )

  joined :
      (bytes more : List ByteWithExtra) (tail all : Bytes)
      → values bytes ++ tail ≡ all
      → values more ≡ tail
      → values (bytes ++ more) ≡ all
  joined bytes more tail all e f =
      map-append (λ b. b.value) bytes more ∙ (ap (λ l. values bytes ++ l) f ∙ e)

  push_instruction_lem :
      (positions : List ℕ) (rounds i : ℕ)
      → All (λ p. p + 4 ≤ length raw) positions
      → length raw ≤ i + rounds
      → (bytes : List ByteWithExtra) × (push_instruction bb instr positions rounds i ≡ some bytes)
        × (values bytes ≡ drop i raw)
  unfolding push_instruction
  push_instruction_lem positions zero i inside enough =
      ([], rw (not_below i (length raw) (omega arith)) refl, sym (drop-all raw i (omega arith)))
  push_instruction_lem positions (suc rounds) i inside enough =
      elim (Bool-cases (ltb i (length raw))) [
        | inr over ↦ ([], rw over refl, sym (drop-all raw i (ground arith)))
        | inl below ↦ elim (Bool-cases (is_member i positions)) [
          | inl masked ↦
              let within = is_member-All (λ p. p + 4 ≤ length raw) i positions masked inside in
              let (bytes, e, same) = push_bytes_lem single_wildcard 4 i within in
              let (more, e', rest) =
                push_instruction_lem positions rounds (i + 4) inside (omega arith) in
              (bytes ++ more, rw (below, masked, e, e') refl, joined bytes more _ _ same rest)
          | inr plain ↦
              let lt = ltb→lt i (length raw) below in
              let (bytes, e, same) = push_bytes_lem regular_byte 1 i (omega arith) in
              let (more, e', rest) =
                push_instruction_lem positions rounds (i + 1) inside (omega arith) in
              (bytes ++ more, rw (below, plain, e, e') refl, joined bytes more _ _ same rest)
        ]
      ]

  -- The function appends the bytes of the instruction in their order, whichever are masked: it
  -- reads no byte behind the instruction, and its loop ends.
  pub add_instruction_bytes-values :
      (disable_nibble_masking : Bool)
      → (bytes : List ByteWithExtra) × (add_instruction_bytes bb instr disable_nibble_masking
          ≡ some bytes)
        × (values bytes ≡ instr.raw_instruction_bytes)
  unfolding add_instruction_bytes
  add_instruction_bytes-values true =
      let (bytes, e, v) = push_instruction_lem [] (length raw) 0 tt (omega arith) in (bytes, e, v)
  add_instruction_bytes-values false =
      push_instruction_lem (immediate_positions raw instr.immediates) (length raw) 0
        (immediate_positions-IsInside raw instr.immediates) (omega arith)
