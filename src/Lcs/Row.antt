-- ===== src/Lcs/Row.antt =====
-- `ComputeSingleLcsRow`: the row holds the lengths for all prefixes of the second sequence.
use mathlib.Core.List.{reverse_aux}
use native.Mathlib.Numerals.{add-one}
use vxsig.Prelude.{
  ℕ, zero, suc, ◌+◌, ◌≤◌, max, ◌≡◌, refl, sym, ap, ◌∙◌, List, [], ◌∷◌, reverse, arith, Eq, ◌=?◌,
  length, get_or, take, replicate, if◌then◌else◌,
}
use vxsig.Lcs.{row_from, next_row, rows_from, compute_single_lcs_row}
use vxsig.Lcs.Length.{lcs_length, lcs_length-nil, lcs_length_eq, lcs_length_ne, lcs_length-reverse}

module _ {ℓ} {A : Type ℓ} ⦃e : Eq A⦄ where
  -- The lengths for `rx` and the extensions of `ry` by the items of `ys`; the sequences that have
  -- been read are held backwards.
  extensions : List A → List A → List A → List ℕ
  extensions rx ry [] = []
  extensions rx ry (y ∷ ys) = lcs_length rx (y ∷ ry) ∷ extensions rx (y ∷ ry) ys

  entry :
      (x y : A) (rx ry : List A)
      → (if x =? y
          then lcs_length rx ry + 1
          else max (lcs_length (x ∷ rx) ry) (lcs_length rx (y ∷ ry)))
        ≡ lcs_length (x ∷ rx) (y ∷ ry)
  entry x y rx ry =
      ground (arith, lcs_length_eq {x = x} {y = y} rx ry, lcs_length_ne {x = x} {y = y} rx ry)

  row_from-extensions :
      (x : A) (rx ry ys : List A)
      → row_from x (lcs_length (x ∷ rx) ry) (lcs_length rx ry ∷ extensions rx ry ys) ys
        ≡ extensions (x ∷ rx) ry ys
  unfolding row_from extensions
  row_from-extensions x rx ry [] = refl
  row_from-extensions x rx ry (y ∷ ys) =
      rw (entry x y rx ry)
        (ap (◌∷◌ (lcs_length (x ∷ rx) (y ∷ ry))) (row_from-extensions x rx (y ∷ ry) ys))

  next_row-extensions :
      (x : A) (rx ys : List A)
      → next_row ys (0 ∷ extensions rx [] ys) x ≡ 0 ∷ extensions (x ∷ rx) [] ys
  unfolding next_row
  next_row-extensions x rx ys =
      rw (lcs_length-nil (x ∷ rx), lcs_length-nil rx) at
        (ap (◌∷◌ 0) (row_from-extensions x rx [] ys))

  rows_from-extensions :
      (xs rx ys : List A)
      → rows_from xs ys (0 ∷ extensions rx [] ys) ≡ 0 ∷ extensions (reverse_aux xs rx) [] ys
  unfolding rows_from
  rows_from-extensions [] rx ys = refl
  rows_from-extensions (x ∷ xs) rx ys =
      rw (next_row-extensions x rx ys) (rows_from-extensions xs (x ∷ rx) ys)

  replicate-extensions : (ry ys : List A) → replicate (length ys) 0 ≡ extensions [] ry ys
  unfolding extensions lcs_length
  replicate-extensions ry [] = refl
  replicate-extensions ry (y ∷ ys) = ap (◌∷◌ 0) (replicate-extensions (y ∷ ry) ys)

  compute_single_lcs_row-extensions :
      (xs ys : List A) → compute_single_lcs_row xs ys ≡ 0 ∷ extensions (reverse xs) [] ys
  unfolding compute_single_lcs_row
  compute_single_lcs_row-extensions xs ys =
      rw (add-one, replicate-extensions [] ys) (rows_from-extensions xs [] ys)

  get_or-extensions :
      (rx ry ys : List A) (i : ℕ)
      → i ≤ length ys
      → get_or (lcs_length rx ry ∷ extensions rx ry ys) i 0
        ≡ lcs_length rx (reverse_aux (take i ys) ry)
  unfolding extensions
  get_or-extensions rx ry ys zero h = refl
  get_or-extensions rx ry (y ∷ ys) (suc i) h = get_or-extensions rx (y ∷ ry) ys i (omega arith)
  get_or-extensions rx ry [] (suc i) h = absurd (omega arith)

  -- Entry `i` is the length for the first sequence and the first `i` items of the second one.
  pub compute_single_lcs_row_lem :
      (xs ys : List A) (i : ℕ)
      → i ≤ length ys
      → get_or (compute_single_lcs_row xs ys) i 0 ≡ lcs_length xs (take i ys)
  compute_single_lcs_row_lem xs ys i h =
      ap (λ r. get_or r i 0)
        (compute_single_lcs_row-extensions xs ys
          ∙ ap (λ n. n ∷ extensions (reverse xs) [] ys) (sym (lcs_length-nil (reverse xs))))
      ∙ get_or-extensions (reverse xs) [] ys i h
      ∙ lcs_length-reverse xs (take i ys)

  length-extensions : (rx ry ys : List A) → length (extensions rx ry ys) ≡ length ys
  unfolding extensions
  length-extensions rx ry [] = refl
  length-extensions rx ry (y ∷ ys) = ap suc (length-extensions rx (y ∷ ry) ys)

  -- The row has one entry more than the second sequence has items.
  pub length-compute_single_lcs_row :
      (xs ys : List A) → length (compute_single_lcs_row xs ys) ≡ length ys + 1
  length-compute_single_lcs_row xs ys = omega (
    arith,
    ap length (compute_single_lcs_row-extensions xs ys),
    length-extensions (reverse xs) [] ys,
  )
