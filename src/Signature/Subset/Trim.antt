-- ===== src/Signature/Subset/Trim.antt =====
-- The trimming algorithms keep the bound on the number of bytes.
use mathlib.Core.List.{Permᴰ}
use mathlib.Core.List.Permᴰ
use native.Mathlib.Nat.{add_assoc, zero-add}
use vxsig.Prelude.{
  ℕ, ◌+◌, ◌≤◌, ◌<◌, ◌≡◌, refl, subst, ap, inl, inr, List, [], ◌∷◌, ◌++◌, arith, ltb, Bool-cases,
}
use vxsig.Signature.{Piece, size_of}
use vxsig.Signature.Subset.{piece_at, trim_last_from, keep_front, keep_fitting}
use vxsig.Signature.Subset.Indices.{SomeOf, some_of, SomeOf-refl, SomeOf-keep, SomeOf-skip}

module _ (raw : List Piece) where
  -- The number of bytes of the pieces at the indices.
  abbrev pub total : List ℕ → ℕ
  total [] = 0
  total (i ∷ is) = size_of (piece_at raw i) + total is

  pub total-perm : {xs ys : List ℕ} → Permᴰ xs ys → total xs ≡ total ys
  total-perm Permᴰ.nil = refl
  total-perm (Permᴰ.cons e p) = omega (arith, total-perm p, ap (λ i. size_of (piece_at raw i)) e)
  total-perm (Permᴰ.swap e f) =
      omega (arith, ap (λ i. size_of (piece_at raw i)) e, ap (λ i. size_of (piece_at raw i)) f)
  total-perm (Permᴰ.trans p q) = omega (arith, total-perm p, total-perm q)

  -- What follows the kept indices: nothing, or a piece that does not fit.
  abbrev pub EndsAt : ℕ → ℕ → List ℕ → Type 0
  EndsAt m used [] = Unit
  EndsAt m used (i ∷ is) = m < used + size_of (piece_at raw i)

  trim_last_from-split :
      (m n : ℕ) (is : List ℕ)
      → n ≤ m
      → (rest : List ℕ) × (is ≡ trim_last_from raw m n is ++ rest)
        × (n + total (trim_last_from raw m n is) ≤ m)
        × EndsAt m (n + total (trim_last_from raw m n is)) rest
  unfolding trim_last_from
  trim_last_from-split m n [] h = ([], refl, omega arith, tt)
  trim_last_from-split m n (i ∷ is) h = elim (Bool-cases (ltb m (n + size_of (piece_at raw i)))) [
    | inl over ↦ (i ∷ is, rw over, rw over (omega arith), rw over (ground arith))
    | inr fits ↦
        let (rest, e, le, stop) =
          trim_last_from-split m (n + size_of (piece_at raw i)) is (ground arith) in
        (
          rest,
          rw fits (ap (◌∷◌ i) e),
          rw fits (omega arith),
          rw fits (
              subst (λ t. EndsAt m t rest)
                (add_assoc n (size_of (piece_at raw i))
                  (total (trim_last_from raw m (n + size_of (piece_at raw i)) is)))
                stop),
        )
  ]

  -- `TrimLast` keeps the longest front of the indices whose pieces have at most `max_length` bytes.
  pub keep_front-IsLongest :
      (max_length : ℕ) (is : List ℕ)
      → (rest : List ℕ) × (is ≡ keep_front raw max_length is ++ rest)
        × (total (keep_front raw max_length is) ≤ max_length)
        × EndsAt max_length (total (keep_front raw max_length is)) rest
  unfolding keep_front
  keep_front-IsLongest max_length is =
      let (rest, e, le, stop) = trim_last_from-split max_length 0 is (omega arith) in
      (
        rest,
        e,
        omega arith,
        subst (λ t. EndsAt max_length t rest)
            (zero-add (total (trim_last_from raw max_length 0 is))) stop,
      )

  pub keep_front-SomeOf : (max_length : ℕ) (is : List ℕ) → SomeOf (keep_front raw max_length is) is
  keep_front-SomeOf max_length is =
      let (rest, e, le, stop) = keep_front-IsLongest max_length is in
      some_of rest (subst (λ l. Permᴰ l is) e (Permᴰ.refl is))

  pub keep_fitting-SomeOf : (m n : ℕ) (is : List ℕ) → SomeOf (keep_fitting raw m n is) is
  unfolding keep_fitting
  keep_fitting-SomeOf m n [] = SomeOf-refl []
  keep_fitting-SomeOf m n (i ∷ is) = elim (Bool-cases (ltb m (n + size_of (piece_at raw i)))) [
    | inl over ↦ rw over (SomeOf-skip i (keep_fitting-SomeOf m n is))
    | inr fits ↦ rw fits (SomeOf-keep (keep_fitting-SomeOf m (n + size_of (piece_at raw i)) is))
  ]

  pub keep_fitting-total : (m n : ℕ) (is : List ℕ) → n ≤ m → n + total (keep_fitting raw m n is) ≤ m
  unfolding keep_fitting
  keep_fitting-total m n [] h = omega arith
  keep_fitting-total m n (i ∷ is) h = elim (Bool-cases (ltb m (n + size_of (piece_at raw i)))) [
    | inl over ↦ rw over (keep_fitting-total m n is h)
    | inr fits ↦
        rw fits
          (omega (arith, keep_fitting-total m (n + size_of (piece_at raw i)) is (ground arith)))
  ]
