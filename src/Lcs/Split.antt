-- ===== src/Lcs/Split.antt =====
-- The loop over the split positions finds one at which the two halves' lengths sum to the greatest.
use native.Mathlib.Decide.{dec_lt}
use vxsig.Prelude.{
  ℕ, zero, suc, ◌+◌, ◌-◌, ◌≤◌, ◌<◌, ◌≡◌, refl, sym, ap, ap₂, subst, subst₂, ltb→lt, ◌∙◌, inl, inr,
  true, false, List, [], ◌∷◌, ◌++◌, reverse, reverse-append, Option, none, some, arith, Eq, length,
  get_or, take, drop, take-append-drop, length-drop, length-reverse, Bool-cases,
}
use vxsig.Lcs.{below, pivot_from, split_position, compute_single_lcs_row}
use vxsig.Lcs.Length.{lcs_length, lcs_length-reverse}
use vxsig.Lcs.Row.{compute_single_lcs_row_lem}

module _ (left right : List ℕ) (size2 : ℕ) where
  total : ℕ → ℕ
  total i = get_or left i 0 + get_or right (size2 - i) 0

  -- Before position `i` the best sum so far is the one at `pivot`.
  abbrev Inv : ℕ → Option ℕ → ℕ → Type 0
  Inv i none pivot = i ≡ 0
  Inv i (some m) pivot = (m ≡ total pivot) × (pivot < i) × ((j : ℕ) → j < i → total j ≤ m)

  abbrev IsBest : ℕ → ℕ → Type 0
  IsBest stop p = (p < stop) × ((j : ℕ) → j < stop → total j ≤ total p)

  upto : (i j b : ℕ) → j < i + 1 → (j < i → total j ≤ b) → total i ≤ b → total j ≤ b
  upto i j b lt before here = elim (dec_lt j i) [
    | yes p ↦ before p
    | no p ↦ let eq : i ≡ j = omega arith in subst (λ k. total k ≤ b) eq here
  ]

  better-Inv :
      (i : ℕ) (best : Option ℕ) (pivot : ℕ)
      → Inv i best pivot
      → below best (total i) ≡ true
      → Inv (i + 1) (some (total i)) i
  unfolding below
  better-Inv i none pivot h b =
      (refl, omega arith, λ j lt. upto i j (total i) lt (λ p. absurd (omega arith)) (omega arith))
  better-Inv i (some m) pivot h b = (
    refl,
    omega arith,
    λ j lt. upto i j (total i) lt (λ p. omega (arith, h.2 j p, ltb→lt m (total i) b)) (omega arith),
  )

  worse-Inv :
      (i : ℕ) (best : Option ℕ) (pivot : ℕ)
      → Inv i best pivot
      → below best (total i) ≡ false
      → Inv (i + 1) best pivot
  unfolding below
  worse-Inv i none pivot h b = absurd (ground arith)
  worse-Inv i (some m) pivot h b = (h.0, omega arith, λ j lt. upto i j m lt (h.2 j) (ground arith))

  pivot_from-IsBest :
      (rounds i stop : ℕ) (best : Option ℕ) (pivot : ℕ)
      → Inv i best pivot
      → i + rounds ≡ stop
      → 0 < stop
      → IsBest stop (pivot_from rounds i left right size2 best pivot)
  unfolding pivot_from total
  pivot_from-IsBest zero i stop none pivot h e pos = absurd (omega arith)
  pivot_from-IsBest zero i stop (some m) pivot h e pos = (omega arith, λ j lt. omega (arith, h.2 j))
  pivot_from-IsBest (suc rounds) i stop best pivot h e pos =
      elim (Bool-cases (below best (total i))) [
        | inl b ↦ rw b (
            pivot_from-IsBest rounds (i + 1) stop (some (total i)) i (better-Inv i best pivot h b)
              (omega arith) pos)
        | inr b ↦ rw b (
            pivot_from-IsBest rounds (i + 1) stop best pivot (worse-Inv i best pivot h b)
              (omega arith) pos)
      ]

module _ {ℓ} {A : Type ℓ} where
  take-length : (xs ys : List A) → take (length xs) (xs ++ ys) ≡ xs
  take-length [] ys = refl
  take-length (x ∷ xs) ys = ap (◌∷◌ x) (take-length xs ys)

  -- The last `n` items backwards are the first `n` of the reversed list.
  take-reverse : (ys : List A) (i : ℕ) → take (length ys - i) (reverse ys) ≡ reverse (drop i ys)
  take-reverse ys i = ap₂ take count whole ∙ take-length (reverse (drop i ys)) (reverse (take i ys))
    where
      count : length ys - i ≡ length (reverse (drop i ys))
      count = omega (arith, length-reverse (drop i ys), length-drop i ys)

      whole : reverse ys ≡ reverse (drop i ys) ++ reverse (take i ys)
      whole = ap reverse (sym (take-append-drop i ys)) ∙ reverse-append (take i ys) (drop i ys)

module _ {ℓ} {A : Type ℓ} ⦃e : Eq A⦄ where
  total-lcs_length :
      (left right ys : List A) (i : ℕ)
      → i ≤ length ys
      → total
          (compute_single_lcs_row left ys)
          (compute_single_lcs_row (reverse right) (reverse ys))
          (length ys)
          i
        ≡ lcs_length left (take i ys) + lcs_length right (drop i ys)
  unfolding total
  total-lcs_length left right ys i h = ap₂ ◌+◌ (compute_single_lcs_row_lem left ys i h) (
      compute_single_lcs_row_lem (reverse right) (reverse ys) (length ys - i)
        (omega (arith, length-reverse ys))
      ∙ ap (lcs_length (reverse right)) (take-reverse ys i)
      ∙ lcs_length-reverse right (drop i ys))

  abbrev pub split_length : List A → List A → List A → ℕ → ℕ
  split_length left right ys i = lcs_length left (take i ys) + lcs_length right (drop i ys)

  -- The split position lies within the second sequence, and no other is better.
  pub split_position-IsBest :
      (left right ys : List A)
      → (split_position left right ys ≤ length ys)
        × ((i : ℕ)
            → i ≤ length ys
            → split_length left right ys i
              ≤ split_length left right ys (split_position left right ys))
  unfolding split_position
  split_position-IsBest left right ys =
      let (lt, best) =
        pivot_from-IsBest (compute_single_lcs_row left ys)
          (compute_single_lcs_row (reverse right) (reverse ys)) (length ys) (length ys + 1) 0
          (length ys + 1) none 0 refl (omega arith) (omega arith) in
      (
        omega arith,
        λ i h.
            subst₂ ◌≤◌ (total-lcs_length left right ys i h)
              (total-lcs_length left right ys _ (omega arith)) (best i (omega arith)),
      )
