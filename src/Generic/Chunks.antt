-- ===== src/Generic/Chunks.antt =====
-- `ToRawSignatureProto`: the bytes of the pieces are the runs between the wildcards.
use vxsig.Prelude.{
  ℕ, ◌≡◌, ◌⊎◌, refl, sym, ap, ◌∙◌, inl, inr, Bool, true, false, not, List, [], ◌∷◌, ◌++◌, map,
  append-nil, append_assoc, arith, if◌then◌else◌, Bool-cases,
}
use mathlib.Core.List.{map-append}
use vxsig.Signature.{Bytes, Piece}
use vxsig.Generic.Pieces.{IsRawState, add_byte-IsRawState, initial-IsRawState}
use vxsig.Generic.{
  ByteType, regular_byte, wildcard, single_wildcard, ByteWithExtra, is_empty, RawState, append_byte,
  start_piece, add_byte, add_bytes, initial_state, finish_pieces, to_raw_signature_proto,
}

ByteType-cases : (t : ByteType) → (t ≡ wildcard) ⊎ ((t ≡ regular_byte) ⊎ (t ≡ single_wildcard))
ByteType-cases wildcard = inl refl
ByteType-cases regular_byte = inr (inl refl)
ByteType-cases single_wildcard = inr (inr refl)

abbrev flush : Bytes → List Bytes
flush cur = if is_empty cur then [] else cur ∷ []

-- The bytes of a byte sequence, split at its wildcards: no run is empty or starts with a single
-- wildcard. `cur` is the run so far.
abbrev pub runs : Bytes → List ByteWithExtra → List Bytes
runs cur [] = flush cur
runs cur (b ∷ bs) = elim b.type_of [
  | wildcard ↦ flush cur ++ runs [] bs
  | regular_byte ↦ runs (cur ++ b.value ∷ []) bs
  | single_wildcard ↦ runs (if is_empty cur then [] else cur ++ b.value ∷ []) bs
]

abbrev pub bytes_of : List Piece → List Bytes
bytes_of ps = map (λ p. p.bytes) ps

wildcard_step :
    (cur : Bytes) (add : Bool) (rest : List Bytes) (same : List Bytes)
    → (cur ≡ [] → same ≡ rest)
    → (if add then flush cur ++ rest else flush cur ++ rest)
      ≡ (if not (is_empty cur) then flush cur ++ rest else same)
wildcard_step [] true rest same h = sym (h refl)
wildcard_step [] false rest same h = sym (h refl)
wildcard_step (x ∷ xs) true rest same h = refl
wildcard_step (x ∷ xs) false rest same h = refl

nil_of_is_empty : (cur : Bytes) → is_empty cur ≡ true → cur ≡ []
nil_of_is_empty [] h = refl
nil_of_is_empty (x ∷ xs) h = absurd (ground arith)

module _ (hex : ℕ → Bytes) where
  -- What the pieces become, from a state.
  abbrev expected : RawState → List ByteWithExtra → List Bytes
  expected s bs =
      bytes_of s.finished
      ++ (if s.add_new_piece
          then flush s.cur_piece.bytes ++ runs [] bs
          else runs s.cur_piece.bytes bs)

  -- A new piece that has been asked for, and has been started, are the same.
  expected-start_piece :
      (s : RawState) (bs : List ByteWithExtra)
      → (s.add_new_piece ≡ true → is_empty s.cur_piece.bytes ≡ false)
      → expected s bs ≡ expected (start_piece hex s) bs
  unfolding start_piece
  expected-start_piece s bs flag = elim (Bool-cases s.add_new_piece) [
    | inl new ↦
        rw (new, flag new, map-append (λ p. p.bytes) s.finished (s.cur_piece ∷ []))
          (sym (append_assoc (bytes_of s.finished) _ (runs [] bs)))
    | inr same ↦ rw same refl
  ]

  expected-wildcard :
      (s : RawState) (b : ByteWithExtra) (bs : List ByteWithExtra)
      → b.type_of ≡ wildcard
      → expected s (b ∷ bs) ≡ expected (add_byte hex b s) bs
  unfolding add_byte
  expected-wildcard s b bs e = rw e (
      ap (λ l. bytes_of s.finished ++ l)
        (wildcard_step s.cur_piece.bytes s.add_new_piece (runs [] bs) _ (ap (λ cur. runs cur bs))))

  expected-regular :
      (s : RawState) (b : ByteWithExtra) (bs : List ByteWithExtra)
      → b.type_of ≡ regular_byte
      → expected (start_piece hex s) (b ∷ bs) ≡ expected (add_byte hex b s) bs
  unfolding add_byte append_byte start_piece
  expected-regular s b bs e = rw e refl

  expected-single_wildcard :
      (s : RawState) (b : ByteWithExtra) (bs : List ByteWithExtra)
      → b.type_of ≡ single_wildcard
      → expected (start_piece hex s) (b ∷ bs) ≡ expected (add_byte hex b s) bs
  unfolding add_byte append_byte start_piece
  expected-single_wildcard s b bs e =
      elim (Bool-cases (is_empty (start_piece hex s).cur_piece.bytes)) [
        | inl none_ ↦
            rw (e, none_)
              (ap (λ cur. bytes_of (start_piece hex s).finished ++ runs cur bs)
                (sym (nil_of_is_empty (start_piece hex s).cur_piece.bytes none_)))
        | inr some_ ↦ rw (e, some_) refl
      ]

  expected-add_byte :
      (s : RawState) (b : ByteWithExtra) (bs : List ByteWithExtra)
      → (s.add_new_piece ≡ true → is_empty s.cur_piece.bytes ≡ false)
      → expected s (b ∷ bs) ≡ expected (add_byte hex b s) bs
  expected-add_byte s b bs flag = elim (ByteType-cases b.type_of) [
    | inl e ↦ expected-wildcard s b bs e
    | inr (inl e) ↦ expected-start_piece s (b ∷ bs) flag ∙ expected-regular s b bs e
    | inr (inr e) ↦ expected-start_piece s (b ∷ bs) flag ∙ expected-single_wildcard s b bs e
  ]

  expected-finish_pieces :
      (s : RawState)
      → (s.add_new_piece ≡ true → is_empty s.cur_piece.bytes ≡ false)
      → expected s [] ≡ bytes_of (finish_pieces hex s)
  expected-finish_pieces s flag = elim (Bool-cases (is_empty s.cur_piece.bytes)) [
    | inl none_ ↦ rw none_ (elim (Bool-cases s.add_new_piece) [
      | inl add ↦ rw add (append-nil _)
      | inr add ↦ rw add (append-nil _)
    ])
    | inr some_ ↦
        let joined = sym (map-append (λ p. p.bytes) s.finished (s.cur_piece ∷ [])) in
        rw some_
          (elim (Bool-cases s.add_new_piece) [ inl add ↦ rw add joined | inr add ↦ rw add joined ])
  ]

  expected-add_bytes :
      (s : RawState) (bs : List ByteWithExtra)
      → IsRawState s
      → expected s bs ≡ bytes_of (finish_pieces hex (add_bytes hex bs s))
  unfolding add_bytes IsRawState
  expected-add_bytes s [] h = expected-finish_pieces s h.3
  expected-add_bytes s (b ∷ bs) h =
      expected-add_byte s b bs h.3
      ∙ expected-add_bytes (add_byte hex b s) bs (add_byte-IsRawState hex b s h)

  -- The pieces of the raw signature hold the runs of bytes between the wildcards of the regular
  -- expression, in order, each run without the single wildcards that it starts with.
  pub to_raw_signature_proto-runs :
      (regex : List ByteWithExtra) → bytes_of (to_raw_signature_proto hex regex) ≡ runs [] regex
  unfolding to_raw_signature_proto
  to_raw_signature_proto-runs regex =
      sym (expected-add_bytes (initial_state hex) regex (initial-IsRawState hex))
