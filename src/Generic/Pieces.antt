-- ===== src/Generic/Pieces.antt =====
-- `ToRawSignatureProto`: the pieces are what lies between the wildcards.
use vxsig.Prelude.{
  ℕ, ◌+◌, ◌*◌, ◌<◌, ◌≡◌, refl, inl, inr, true, false, not, ◌&&◌, List, [], ◌∷◌, ◌++◌, arith,
  if◌then◌else◌, Bool-cases, length, length-append, All, All-append, All-map,
}
use vxsig.Signature.{Bytes, Piece}
use vxsig.Format.{MasksFit}
use vxsig.Generic.{
  ByteWithExtra, is_wildcard, is_single_wildcard, is_empty, RawState, append_byte, start_piece,
  add_byte, add_bytes, initial_state, finish_pieces, to_raw_signature_proto,
}

-- A piece of a signature: it has bytes, and its masks are of them.
abbrev pub IsRawPiece : Piece → Type 0
IsRawPiece p = (is_empty p.bytes ≡ false) × MasksFit p

unfoldable pub IsRawState : RawState → Type 0
IsRawState s =
    All IsRawPiece s.finished
    × MasksFit s.cur_piece
    × (s.i ≡ length s.cur_piece.bytes)
    × (s.add_new_piece ≡ true → is_empty s.cur_piece.bytes ≡ false)

is_empty-append : (xs : Bytes) (x : ℕ) → is_empty (xs ++ x ∷ []) ≡ false
is_empty-append [] x = refl
is_empty-append (y ∷ xs) x = refl

module _ (hex : ℕ → Bytes) where
  masks_fit :
      (b : ByteWithExtra) (bytes : Bytes) (nibbles : List ℕ) (i : ℕ)
      → i ≡ length bytes
      → All (λ n. n < 2 * length bytes) nibbles
      → All
          (λ n. n < 2 * length (bytes ++ b.value ∷ []))
          (nibbles ++ (if is_single_wildcard b.type_of then (i * 2) ∷ (i * 2 + 1) ∷ [] else []))
  masks_fit b bytes nibbles i e h =
      All-append _ nibbles _
        (All-map nibbles (λ n. λ lt. omega (arith, length-append bytes (b.value ∷ []))) h)
        (elim (Bool-cases (is_single_wildcard b.type_of)) [
          | inl single ↦ rw single (
            omega (arith, length-append bytes (b.value ∷ [])),
            (omega (arith, length-append bytes (b.value ∷ [])), tt),
          )
          | inr other ↦ rw other tt
        ])

  append_byte-IsRawState :
      (b : ByteWithExtra) (s : RawState) → IsRawState s → IsRawState (append_byte hex b s)
  unfolding append_byte IsRawState
  append_byte-IsRawState b s (finished, masks, at, flag) = (
    finished,
    masks_fit b s.cur_piece.bytes s.cur_piece.masked_nibble s.i at masks,
    omega (arith, length-append s.cur_piece.bytes (b.value ∷ [])),
    λ h. is_empty-append s.cur_piece.bytes b.value,
  )

  start_piece-IsRawState : (s : RawState) → IsRawState s → IsRawState (start_piece hex s)
  unfolding start_piece IsRawState
  start_piece-IsRawState s (finished, masks, at, flag) = elim (Bool-cases s.add_new_piece) [
    | inl new ↦ rw new (
      All-append IsRawPiece s.finished _ finished ((flag new, masks), tt),
      tt,
      refl,
      λ h. absurd (ground arith),
    )
    | inr same ↦ rw same (finished, masks, at, λ h. absurd (ground arith))
  ]

  pub initial-IsRawState : IsRawState (initial_state hex)
  unfolding IsRawState
  initial-IsRawState = (tt, tt, refl, λ h. absurd (ground arith))

  wildcard-IsRawState :
      (s : RawState)
      → IsRawState s
      → IsRawState (record s { add_new_piece = not (is_empty s.cur_piece.bytes) })
  unfolding IsRawState
  wildcard-IsRawState s (finished, masks, at, flag) = (finished, masks, at, λ h. ground arith)

  pub add_byte-IsRawState :
      (b : ByteWithExtra) (s : RawState) → IsRawState s → IsRawState (add_byte hex b s)
  unfolding add_byte
  add_byte-IsRawState b s h = elim (Bool-cases (is_wildcard b.type_of)) [
    | inl wild ↦ rw wild (wildcard-IsRawState s h)
    | inr byte ↦
        elim (Bool-cases
          (is_single_wildcard b.type_of && is_empty (start_piece hex s).cur_piece.bytes)) [
            | inl skip ↦ rw (byte, skip) (start_piece-IsRawState s h)
            | inr keep ↦ rw (byte, keep) (append_byte-IsRawState b _ (start_piece-IsRawState s h))
          ]
  ]

  add_bytes-IsRawState :
      (bs : List ByteWithExtra) (s : RawState) → IsRawState s → IsRawState (add_bytes hex bs s)
  unfolding add_bytes
  add_bytes-IsRawState [] s h = h
  add_bytes-IsRawState (b ∷ bs) s h =
      add_bytes-IsRawState bs (add_byte hex b s) (add_byte-IsRawState b s h)

  finish_pieces-IsRawPiece : (s : RawState) → IsRawState s → All IsRawPiece (finish_pieces hex s)
  unfolding IsRawState
  finish_pieces-IsRawPiece s (finished, masks, at, flag) =
      elim (Bool-cases (is_empty s.cur_piece.bytes)) [
        | inl none_ ↦ rw none_ finished
        | inr some_ ↦ rw some_ (All-append IsRawPiece s.finished _ finished ((some_, masks), tt))
      ]

  -- No piece of the raw signature is empty, and every masked nibble is one of its piece's bytes.
  pub to_raw_signature_proto-IsRawPiece :
      (regex : List ByteWithExtra) → All IsRawPiece (to_raw_signature_proto hex regex)
  unfolding to_raw_signature_proto
  to_raw_signature_proto-IsRawPiece regex =
      finish_pieces-IsRawPiece _ (add_bytes-IsRawState regex _ initial-IsRawState)
