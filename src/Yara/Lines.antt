-- ===== src/Yara/Lines.antt =====
-- The lines of a YARA rule and their tokens, described without the counter of the code.
use vxsig.Prelude.{
  ℕ, ◌+◌, ◌≤◌, ◌<◌, ◌≡◌, ◌⊎◌, refl, ◌∙◌, inl, inr, Bool, true, false, List, [], ◌∷◌, ◌++◌,
  append_assoc, ℤ, arith, if◌then◌else◌, length, take, drop, take-append-drop, drop_or_full,
  length-take,
}
use vxsig.Signature.{Bytes, Piece, ok}
use vxsig.Format.{HexPrinter, MasksFit}
use vxsig.Format.Masked.{IsMasked, IsMasked-refl, mask-IsMasked}
use vxsig.Yara.Text.{indent_text, wildcard_text, no_wildcard_text}
use vxsig.Yara.{
  DebugFlags, debug_lines, HexString, comments, copy_budget, is_exhausted, append_piece,
  after_piece,
}

-- The tokens of a wildcard that is due.
abbrev pub wildcard_tokens : Bool → ℕ
wildcard_tokens wild = if wild then 1 else 0

pub budget_room :
    (num : ℕ) (wild : Bool)
    → is_exhausted num wild ≡ false
    → num + wildcard_tokens wild + copy_budget num wild ≡ 5000
unfolding is_exhausted copy_budget
budget_room num true h = ground arith
budget_room num false h = ground arith

pub has_room :
    (num : ℕ) (wild : Bool) → is_exhausted num wild ≡ false → num + wildcard_tokens wild + 2 ≤ 5000
unfolding is_exhausted copy_budget
has_room num true h = ground arith
has_room num false h = ground arith

pub no_room :
    (num : ℕ) (wild : Bool) → is_exhausted num wild ≡ true → 5000 < num + wildcard_tokens wild + 2
unfolding is_exhausted copy_budget
no_room num true h = ground arith
no_room num false h = ground arith

module _ (hex : HexPrinter) (to_string : ℤ → Bytes) (flags : DebugFlags) where
  -- `Lines num wild pieces total text`: behind `num` tokens, `text` has the lines of the pieces up to
  -- the limit, a wildcard in front of each of them, but of the first one only if `wild`; `total` is
  -- `num` with a token for each of the wildcards and of the bytes of which the text has the digits.
  pub data Lines : ℕ → Bool → List Piece → ℕ → Bytes → Type 0 where
    no_piece : {num : ℕ} {wild : Bool} → Lines num wild [] num []
    cut_off :
        {num : ℕ} {wild : Bool} {pieces : List Piece}
        → 5000 < num + wildcard_tokens wild + 2
        → Lines num wild pieces num []
    line :
        {num total : ℕ} {wild : Bool} {piece : Piece} {pieces : List Piece}
        (copied dropped digits text : Bytes)
        → num + wildcard_tokens wild + 2 ≤ 5000
        → copied ++ dropped ≡ piece.bytes
        → (dropped ≡ []) ⊎ (num + wildcard_tokens wild + length copied ≡ 5000)
        → IsMasked (hex.bytes_to_hex copied) digits
        → Lines (num + wildcard_tokens wild + length copied) true pieces total text
        → Lines num wild (piece ∷ pieces) total (
            (indent_text ++ (if wild then wildcard_text else no_wildcard_text))
            ++ ((digits ++ (10 ∷ []))
                ++ ((debug_lines hex to_string flags piece copied
                      ++ comments piece.origin_disassembly)
                    ++ text)))

  -- The text grows by the lines of the pieces, and the tokens are those of the lines.
  abbrev pub IsWithin : List Piece → HexString → HexString → Type 0
  IsWithin pieces s t =
      (t.num_hex_string_tokens ≤ 5000)
      × ((body : Bytes) × (t.data_ ≡ s.data_ ++ body)
          × Lines s.num_hex_string_tokens s.needs_wildcard pieces t.num_hex_string_tokens body)

  -- What the line of a piece leaves.
  abbrev pub added : Piece → HexString → Bytes → HexString
  added piece s digits =
      let copied = take (copy_budget s.num_hex_string_tokens s.needs_wildcard) piece.bytes in
      after_piece piece s
        ((s.data_
            ++ (indent_text ++ (if s.needs_wildcard then wildcard_text else no_wildcard_text)))
          ++ (digits ++ (10 ∷ [])))
        (debug_lines hex to_string flags piece copied)

  pub append_piece-added :
      (piece : Piece) (s : HexString)
      → MasksFit piece
      → (digits : Bytes) × (append_piece hex to_string flags piece s ≡ ok (added piece s digits))
        × IsMasked
            (hex.bytes_to_hex
              (take (copy_budget s.num_hex_string_tokens s.needs_wildcard) piece.bytes))
            digits
  unfolding append_piece
  append_piece-added piece s fit =
      let budget = copy_budget s.num_hex_string_tokens s.needs_wildcard in
      let front =
        s.data_
        ++ (indent_text ++ (if s.needs_wildcard then wildcard_text else no_wildcard_text)) in
      let printed = hex.bytes_to_hex (take budget piece.bytes) in
      let (digits, e, masked) =
        mask-IsMasked front budget (length piece.bytes) piece.masked_nibble printed printed
          (10 ∷ []) fit
          (omega (
            arith,
            hex.length-bytes_to_hex (take budget piece.bytes),
            length-take budget piece.bytes,
          ))
          (IsMasked-refl printed) in
      (digits, rw e refl, masked)

  -- The lines behind the line of a piece.
  pub added-IsWithin :
      (piece : Piece) (pieces : List Piece) (s u : HexString) (digits : Bytes)
      → is_exhausted s.num_hex_string_tokens s.needs_wildcard ≡ false
      → IsMasked
          (hex.bytes_to_hex
            (take (copy_budget s.num_hex_string_tokens s.needs_wildcard) piece.bytes))
          digits
      → IsWithin pieces (added piece s digits) u
      → IsWithin (piece ∷ pieces) s u
  added-IsWithin piece pieces s u digits more masked (le, (body, e, lines)) =
      let budget = copy_budget s.num_hex_string_tokens s.needs_wildcard in
      let room = budget_room s.num_hex_string_tokens s.needs_wildcard more in
      let filled : (drop budget piece.bytes ≡ [])
          ⊎ (s.num_hex_string_tokens
                + wildcard_tokens s.needs_wildcard
                + length (take budget piece.bytes)
              ≡ 5000) =
        elim (drop_or_full budget piece.bytes) [
          | inl all ↦ inl all
          | inr full ↦ inr (omega arith)
        ] in
      let front = indent_text ++ (if s.needs_wildcard then wildcard_text else no_wildcard_text) in
      let notes =
        debug_lines hex to_string flags piece (take budget piece.bytes)
        ++ comments piece.origin_disassembly in
      (
        le,
        (
          _,
          e
              ∙ append_assoc ((s.data_ ++ front) ++ (digits ++ (10 ∷ []))) notes body
              ∙ append_assoc (s.data_ ++ front) (digits ++ (10 ∷ [])) (notes ++ body)
              ∙ append_assoc s.data_ front ((digits ++ (10 ∷ [])) ++ (notes ++ body)),
          line (take budget piece.bytes) (drop budget piece.bytes) digits body
              (has_room s.num_hex_string_tokens s.needs_wildcard more)
              (take-append-drop budget piece.bytes) filled masked lines,
        ),
      )
