-- ===== src/Format.antt =====
-- What vxsig/clamav_signature_formatter.cc and vxsig/yara_signature_formatter.cc share: a piece in
-- hexadecimal, with `?` for the masked nibbles. `absl::BytesToHexString` is a parameter.
pub mod Masked
pub mod Copied
use vxsig.Prelude.{
  ℕ, zero, suc, ◌+◌, ◌-◌, ◌*◌, ◌/◌, ◌≤◌, ◌<◌, min, ◌≡◌, refl, ap, inl, inr, List, [], ◌∷◌, ◌++◌,
  arith, ltb, ltb→lt, lt→ltb, if◌then◌else◌, Bool-cases, length, set, length-append, length-set,
  All,
}
use vxsig.Signature.{Signature, failed, Bytes, Piece, Result, ok, undefined, ◌>>=ᵣ◌}

-- Two digits for each byte.
pub record HexPrinter : Type 0 where
  pub bytes_to_hex : Bytes → Bytes
  pub length-bytes_to_hex : (b : Bytes) → length (bytes_to_hex b) ≡ 2 * length b

-- `(*signature_data)[i] = c`.
pub store : Bytes → ℕ → ℕ → Result Bytes
store text i c = if ltb i (length text) then ok (set text i c) else undefined

-- The loop over `masked_nibble()`.
unfoldable pub mask : ℕ → ℕ → List ℕ → Bytes → Result Bytes
unfolding store
mask start_mask max_copy_bytes [] text = ok text
mask start_mask max_copy_bytes (nibble ∷ nibbles) text =
    (if ltb (nibble / 2) max_copy_bytes then store text (start_mask + nibble) b'?' else ok text)
    >>=ᵣ mask start_mask max_copy_bytes nibbles

-- The loop of the formatters' `DoFormatDatabase`: the texts of the signatures; one without a text is
-- formatted. `data_of` is the text of the engine, `format` is `DoFormat`, and `end` what is appended
-- to each text.
unfoldable pub format_signatures :
    (Signature → Bytes) → (Signature → Result Bytes) → Bytes → List Signature → Result Bytes
format_signatures data_of format end [] = ok []
format_signatures data_of format end (signature ∷ signatures) =
    let text_of : Result Bytes = elim (data_of signature) as (λ _. Result Bytes) [
      | [] ↦ format signature
      | ◌∷◌ c cs ↦ ok (c ∷ cs)
    ] in
    text_of >>=ᵣ λ text.
    format_signatures data_of format end signatures >>=ᵣ λ rest. ok (text ++ (end ++ rest))

-- The masked nibbles are nibbles of the piece's bytes.
abbrev pub MasksFit : Piece → Type 0
MasksFit p = All (λ nibble. nibble < 2 * length p.bytes) p.masked_nibble

-- A store behind `front` leaves it.
set-append_right :
    (front tail : Bytes) (n i c : ℕ)
    → i ≡ length front + n
    → set (front ++ tail) i c ≡ front ++ set tail n c
set-append_right [] tail n i c e = ap (λ k. set tail k c) (omega arith)
set-append_right (x ∷ front) tail n zero c e = absurd (omega arith)
set-append_right (x ∷ front) tail n (suc i) c e =
    ap (◌∷◌ x) (set-append_right front tail n i c (omega arith))

pub store-append_right :
    (front tail : Bytes) (n c : ℕ)
    → n < length tail
    → store (front ++ tail) (length front + n) c ≡ ok (front ++ set tail n c)
unfolding store
store-append_right front tail n c h =
    rw
      (lt→ltb (length front + n) (length (front ++ tail)) (omega (arith, length-append front tail)))
      (ap ok (set-append_right front tail n (length front + n) c refl))

-- Behind `front` stand two digits for each byte that is copied, at most `max_copy` of `size` bytes.
-- With nibbles of these `size` bytes, no store leaves the text, and all of them are behind `front`.
pub mask_lem :
    (front : Bytes) (max_copy size : ℕ) (nibbles : List ℕ) (tail : Bytes)
    → All (λ nibble. nibble < 2 * size) nibbles
    → 2 * min max_copy size ≤ length tail
    → (tail' : Bytes) × (mask (length front) max_copy nibbles (front ++ tail) ≡ ok (front ++ tail'))
      × (length tail' ≡ length tail)
unfolding mask
mask_lem front max_copy size [] tail fit room = (tail, refl, refl)
mask_lem front max_copy size (nibble ∷ nibbles) tail fit room =
    elim (Bool-cases (ltb (nibble / 2) max_copy)) [
      | inl copied ↦
          let below = ltb→lt (nibble / 2) max_copy copied in
          let changed = set tail nibble b'?' in
          let same = length-set tail nibble b'?' in
          let (tail', e, l) = mask_lem front max_copy size nibbles changed fit.1 (omega arith) in
          (
            tail',
            rw (copied, store-append_right front tail nibble b'?' (omega arith)) e,
            omega arith,
          )
      | inr skipped ↦ rw skipped (mask_lem front max_copy size nibbles tail fit.1 room)
    ]
