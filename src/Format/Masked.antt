-- ===== src/Format/Masked.antt =====
-- What the loop over `masked_nibble()` leaves of the digits of a piece, and behind them.
use vxsig.Prelude.{
  ℕ, zero, suc, ◌*◌, ◌/◌, ◌≤◌, ◌<◌, min, ◌≡◌, refl, ap, inl, inr, List, [], ◌∷◌, ◌++◌, arith, ltb,
  ltb→lt, Bool-cases, length, set, length-append, length-set, All,
}
use vxsig.Signature.{Bytes, ok}
use vxsig.Format.{mask, store-append_right}

-- `IsMasked digits masked`: each of the digits is left, or hidden by a "?".
pub data IsMasked : Bytes → Bytes → Type 0 where
  nil : IsMasked [] []
  left : {c : ℕ} {xs ys : Bytes} → IsMasked xs ys → IsMasked (c ∷ xs) (c ∷ ys)
  hidden : {c : ℕ} {xs ys : Bytes} → IsMasked xs ys → IsMasked (c ∷ xs) (b'?' ∷ ys)

pub IsMasked-refl : (xs : Bytes) → IsMasked xs xs
IsMasked-refl [] = nil
IsMasked-refl (x ∷ xs) = left (IsMasked-refl xs)

IsMasked-set : {xs ys : Bytes} (i : ℕ) → IsMasked xs ys → IsMasked xs (set ys i b'?')
IsMasked-set i nil = nil
IsMasked-set zero (left h) = hidden h
IsMasked-set zero (hidden h) = hidden h
IsMasked-set (suc i) (left h) = left (IsMasked-set i h)
IsMasked-set (suc i) (hidden h) = hidden (IsMasked-set i h)

-- A store in the digits leaves what is behind them.
set-append_left :
    (tail after : Bytes) (i c : ℕ)
    → i < length tail
    → set (tail ++ after) i c ≡ set tail i c ++ after
set-append_left [] after i c h = absurd (omega arith)
set-append_left (x ∷ tail) after zero c h = refl
set-append_left (x ∷ tail) after (suc i) c h =
    ap (◌∷◌ x) (set-append_left tail after i c (omega arith))

-- Behind `front` stand the digits of the bytes that are copied, at most `max_copy` of `size`. With
-- nibbles of these `size` bytes, only digits are hidden.
pub mask-IsMasked :
    (front : Bytes) (max_copy size : ℕ) (nibbles : List ℕ) (digits tail after : Bytes)
    → All (λ nibble. nibble < 2 * size) nibbles
    → 2 * min max_copy size ≤ length tail
    → IsMasked digits tail
    → (masked : Bytes) × (mask (length front) max_copy nibbles (front ++ (tail ++ after))
        ≡ ok (front ++ (masked ++ after)))
      × IsMasked digits masked
unfolding mask
mask-IsMasked front max_copy size [] digits tail after fit room m = (tail, refl, m)
mask-IsMasked front max_copy size (nibble ∷ nibbles) digits tail after fit room m =
    elim (Bool-cases (ltb (nibble / 2) max_copy)) [
      | inl copied ↦
          let below = ltb→lt (nibble / 2) max_copy copied in
          let inside : nibble < length tail = omega arith in
          let stored =
            store-append_right front (tail ++ after) nibble b'?'
              (omega (arith, length-append tail after)) in
          let (masked, e, m') =
            mask-IsMasked front max_copy size nibbles digits (set tail nibble b'?') after fit.1
              (omega (arith, length-set tail nibble b'?')) (IsMasked-set nibble m) in
          (masked, rw (copied, stored, set-append_left tail after nibble b'?' inside) e, m')
      | inr skipped ↦
          rw skipped (mask-IsMasked front max_copy size nibbles digits tail after fit.1 room m)
    ]
