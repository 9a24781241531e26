-- ===== src/Hamming.antt =====
-- vxsig/hamming.h: `HammingDistance`.
pub mod Metric
use vxsig.Prelude.{ℕ, ◌+◌, ◌-◌, List, ◌∷◌, Eq, ◌=?◌, length, if◌then◌else◌}

module _ {ℓ} {A : Type ℓ} ⦃e : Eq A⦄ where
  -- The loop `for (; first1 != last1 && first2 != last2; ++first1, ++first2)`.
  pub mismatches : List A → List A → ℕ → ℕ
  mismatches (x ∷ xs) (y ∷ ys) result = mismatches xs ys (if x =? y then result else result + 1)
  mismatches _ _ result = result

  -- `std::abs` of the difference of the lengths, then the loop.
  unfoldable pub hamming_distance : List A → List A → ℕ
  unfolding mismatches
  hamming_distance xs ys =
      let difference = (length ys - length xs) + (length xs - length ys) in
      mismatches xs ys difference
