-- ===== src/Hamming/Metric.antt =====
-- The distance of vxsig/hamming.h is a metric on sequences up to `operator==`.
use native.Mathlib.Nat.{zero-add}
use vxsig.Prelude.{
  ℕ, suc, ◌+◌, ◌-◌, ◌≤◌, max, ◌≡◌, ◌↔◌, refl, sym, ap, ◌∙◌, inl, inr, true, List, [], ◌∷◌, arith,
  Eq, ◌=?◌, length, if◌then◌else◌, Bool-cases,
}
use vxsig.Hamming.{mismatches, hamming_distance}

module _ {ℓ} {A : Type ℓ} ⦃e : Eq A⦄ where
  -- The shorter sequence is padded by a symbol that differs from all others.
  padded : List A → List A → ℕ
  padded [] ys = length ys
  padded (x ∷ xs) [] = suc (length xs)
  padded (x ∷ xs) (y ∷ ys) = (if x =? y then 0 else 1) + padded xs ys

  beq_comm : (x y : A) → (x =? y) ≡ (y =? x)
  beq_comm x y = ground (arith, e.beq_symm x y, e.beq_symm y x)

  padded_comm : (xs ys : List A) → padded xs ys ≡ padded ys xs
  unfolding padded
  padded_comm [] [] = refl
  padded_comm [] (y ∷ ys) = refl
  padded_comm (x ∷ xs) [] = refl
  padded_comm (x ∷ xs) (y ∷ ys) = rw (beq_comm x y, padded_comm xs ys)

  mismatches-padded :
      (xs ys : List A) (n : ℕ)
      → mismatches xs ys (n + ((length ys - length xs) + (length xs - length ys)))
        ≡ n + padded xs ys
  unfolding mismatches padded
  mismatches-padded [] ys n = omega arith
  mismatches-padded (x ∷ xs) [] n = omega arith
  mismatches-padded (x ∷ xs) (y ∷ ys) n =
      ground (arith, mismatches-padded xs ys n, mismatches-padded xs ys (n + 1))

  hamming_distance-padded : (xs ys : List A) → hamming_distance xs ys ≡ padded xs ys
  unfolding hamming_distance
  hamming_distance-padded xs ys =
      ap (mismatches xs ys) (omega arith) ∙ (mismatches-padded xs ys 0 ∙ zero-add _)

  -- The distance does not depend on the order of the sequences.
  hamming_distance_comm : (xs ys : List A) → hamming_distance xs ys ≡ hamming_distance ys xs
  hamming_distance_comm xs ys =
      hamming_distance-padded xs ys ∙ padded_comm xs ys ∙ sym (hamming_distance-padded ys xs)

  -- The items at equal positions are equal, and there are as many.
  pub data Same : List A → List A → Type ℓ where
    nil : Same [] []
    cons : {x y : A} {xs ys : List A} → (x =? y) ≡ true → Same xs ys → Same (x ∷ xs) (y ∷ ys)

  Same-padded : {xs ys : List A} → Same xs ys → padded xs ys ≡ 0
  unfolding padded
  Same-padded nil = refl
  Same-padded (cons h s) = ground (arith, Same-padded s)

  padded-Same : (xs ys : List A) → padded xs ys ≡ 0 → Same xs ys
  unfolding padded
  padded-Same [] [] h = nil
  padded-Same [] (y ∷ ys) h = absurd (omega arith)
  padded-Same (x ∷ xs) [] h = absurd (omega arith)
  padded-Same (x ∷ xs) (y ∷ ys) h = elim (Bool-cases (x =? y)) [
    | inl eq ↦ cons eq (padded-Same xs ys (ground arith))
    | inr ne ↦ absurd (ground arith)
  ]

  -- The distance is 0 exactly for sequences with equal items at equal positions.
  pub hamming_distance-zero_iff : (xs ys : List A) → (hamming_distance xs ys ≡ 0) ↔ Same xs ys
  hamming_distance-zero_iff xs ys = (
    λ h. padded-Same xs ys (sym (hamming_distance-padded xs ys) ∙ h),
    λ s. hamming_distance-padded xs ys ∙ Same-padded s,
  )

  padded-le : (xs ys : List A) → padded xs ys ≤ max (length xs) (length ys)
  unfolding padded
  padded-le [] ys = omega arith
  padded-le (x ∷ xs) [] = omega arith
  padded-le (x ∷ xs) (y ∷ ys) = ground (arith, padded-le xs ys)

  length-le-padded :
      (xs ys : List A)
      → (length xs - length ys ≤ padded xs ys) × (length ys - length xs ≤ padded xs ys)
  unfolding padded
  length-le-padded [] ys = omega arith
  length-le-padded (x ∷ xs) [] = omega arith
  length-le-padded (x ∷ xs) (y ∷ ys) = ground (arith, length-le-padded xs ys)

  padded_triangle : (xs ys zs : List A) → padded xs zs ≤ padded xs ys + padded ys zs
  unfolding padded
  padded_triangle [] ys zs = omega (arith, length-le-padded ys zs)
  padded_triangle (x ∷ xs) [] [] = omega arith
  padded_triangle (x ∷ xs) [] (z ∷ zs) = ground (arith, padded-le xs zs)
  padded_triangle (x ∷ xs) (y ∷ ys) [] = ground (arith, length-le-padded xs ys)
  padded_triangle (x ∷ xs) (y ∷ ys) (z ∷ zs) =
      ground (arith, padded_triangle xs ys zs, e.beq_trans x y z)

  -- The way over a third sequence is not shorter.
  hamming_distance_triangle :
      (xs ys zs : List A) → hamming_distance xs zs ≤ hamming_distance xs ys + hamming_distance ys zs
  hamming_distance_triangle xs ys zs = omega (
    arith,
    padded_triangle xs ys zs,
    hamming_distance-padded xs zs,
    hamming_distance-padded xs ys,
    hamming_distance-padded ys zs,
  )

  -- The distance lies between the difference of the lengths and the greater length.
  hamming_distance_bounds :
      (xs ys : List A)
      → (length xs - length ys ≤ hamming_distance xs ys)
        × (length ys - length xs ≤ hamming_distance xs ys)
        × (hamming_distance xs ys ≤ max (length xs) (length ys))
  hamming_distance_bounds xs ys =
      omega (arith, padded-le xs ys, length-le-padded xs ys, hamming_distance-padded xs ys)

  -- The distance is a metric up to `operator==`: it does not depend on the order of the two sequences, is 0
  -- exactly for sequences with equal items at equal positions, and is not longer than the way over
  -- a third sequence. It lies between the difference of the lengths and the greater length.
  pub hamming_distance-IsMetric :
      (xs ys zs : List A)
      → (hamming_distance xs ys ≡ hamming_distance ys xs)
        × ((hamming_distance xs ys ≡ 0) ↔ Same xs ys)
        × (hamming_distance xs zs ≤ hamming_distance xs ys + hamming_distance ys zs)
        × (length xs - length ys ≤ hamming_distance xs ys)
        × (length ys - length xs ≤ hamming_distance xs ys)
        × (hamming_distance xs ys ≤ max (length xs) (length ys))
  hamming_distance-IsMetric xs ys zs =
      let (lower, lower', upper) = hamming_distance_bounds xs ys in
      (
        hamming_distance_comm xs ys,
        hamming_distance-zero_iff xs ys,
        hamming_distance_triangle xs ys zs,
        lower,
        lower',
        upper,
      )
