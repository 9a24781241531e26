-- ===== src/Lcs/Length.antt =====
-- The length that vxsig/longest_common_subsequence.h computes, as a recursion on the two sequences,
-- and what it means: the greatest length of a common subsequence.
use native.Mathlib.Decide.{dec_le}
use native.Mathlib.Nat.{le_antisymm}
use vxsig.Prelude.{
  ℕ, suc, ◌+◌, ◌≤◌, max, ◌≡◌, refl, sym, subst, subst₂, inl, inr, ◌⊎◌, ap, true, false, take, drop,
  take-append-drop, List, [], ◌∷◌, ◌++◌, reverse, reverse-reverse, arith, Eq, ◌=?◌, length,
  length-append, length-reverse, Bool-cases,
}
use vxsig.Subsequence.{
  Subsequence, done, skip, keep, Subsequence-nil, Subsequence-tail, Subsequence-append,
  Subsequence-reverse, Subsequence-split_left, Subsequence-split_right, length-Subsequence,
}

module _ {ℓ} {A : Type ℓ} ⦃e : Eq A⦄ where
  unfoldable pub lcs_length : List A → List A → ℕ
  lcs_length [] ys = 0
  lcs_length (x ∷ xs) [] = 0
  lcs_length (x ∷ xs) (y ∷ ys) = elim (x =? y) [
    | true ↦ suc (lcs_length xs ys)
    | false ↦ max (lcs_length (x ∷ xs) ys) (lcs_length xs (y ∷ ys))
  ]

  pub lcs_length-nil : (xs : List A) → lcs_length xs [] ≡ 0
  unfolding lcs_length
  lcs_length-nil [] = refl
  lcs_length-nil (x ∷ xs) = refl

  module _ {x y : A} (xs ys : List A) where
    pub lcs_length_eq : (x =? y) ≡ true → lcs_length (x ∷ xs) (y ∷ ys) ≡ suc (lcs_length xs ys)
    unfolding lcs_length
    lcs_length_eq h = rw (h, lcs_length)

    pub lcs_length_ne :
        (x =? y) ≡ false
        → lcs_length (x ∷ xs) (y ∷ ys) ≡ max (lcs_length (x ∷ xs) ys) (lcs_length xs (y ∷ ys))
    unfolding lcs_length
    lcs_length_ne h = rw (h, lcs_length)

  -- Of two different heads one is not used.
  heads :
      {x y z : A} {xs ys zs : List A}
      → Subsequence (z ∷ zs) (x ∷ xs)
      → Subsequence (z ∷ zs) (y ∷ ys)
      → (x =? y) ≡ false
      → Subsequence (z ∷ zs) xs ⊎ Subsequence (z ∷ zs) ys
  heads (skip p) q ne = inl p
  heads (keep h p) (skip q) ne = inr q
  heads {x} {y} {z} (keep h p) (keep k q) ne =
      absurd (ground (arith, e.beq_symm z x h, e.beq_trans x z y))

  pub lcs_length_none : (ys : List A) → lcs_length [] ys ≡ 0
  unfolding lcs_length
  lcs_length_none ys = refl

  -- No common subsequence is longer.
  pub lcs_length_upper :
      (xs ys zs : List A) → Subsequence zs xs → Subsequence zs ys → length zs ≤ lcs_length xs ys
  lcs_length_upper [] ys zs p q = omega (arith, length-Subsequence p)
  lcs_length_upper (x ∷ xs) [] zs p q = omega (arith, length-Subsequence q)
  lcs_length_upper (x ∷ xs) (y ∷ ys) [] p q = omega arith
  lcs_length_upper (x ∷ xs) (y ∷ ys) (z ∷ zs) p q = elim (Bool-cases (x =? y)) [
    | inl eq ↦ omega (
      arith,
      lcs_length_eq xs ys eq,
      lcs_length_upper xs ys zs (Subsequence-tail p) (Subsequence-tail q),
    )
    | inr ne ↦ rw (lcs_length_ne xs ys ne) (elim (heads p q ne) [
      | inl p' ↦ omega (arith, lcs_length_upper xs (y ∷ ys) (z ∷ zs) p' q)
      | inr q' ↦ omega (arith, lcs_length_upper (x ∷ xs) ys (z ∷ zs) p q')
    ])
  ]

  -- Some common subsequence is as long.
  pub lcs_length_attained :
      (xs ys : List A)
      → (zs : List A) × Subsequence zs xs × Subsequence zs ys × (length zs ≡ lcs_length xs ys)
  lcs_length_attained [] ys = ([], done, Subsequence-nil ys, sym (lcs_length_none ys))
  lcs_length_attained (x ∷ xs) [] =
      ([], Subsequence-nil (x ∷ xs), done, sym (lcs_length-nil (x ∷ xs)))
  lcs_length_attained (x ∷ xs) (y ∷ ys) = elim (Bool-cases (x =? y)) [
    | inl eq ↦
        let (zs, p, q, n) = lcs_length_attained xs ys in
        (x ∷ zs, keep (e.beq_refl x) p, keep eq q, omega (arith, lcs_length_eq xs ys eq))
    | inr ne ↦ elim (dec_le (lcs_length (x ∷ xs) ys) (lcs_length xs (y ∷ ys))) [
      | yes le ↦
          let (zs, p, q, n) = lcs_length_attained xs (y ∷ ys) in
          (zs, skip p, q, omega (arith, lcs_length_ne xs ys ne))
      | no gt ↦
          let (zs, p, q, n) = lcs_length_attained (x ∷ xs) ys in
          (zs, p, skip q, omega (arith, lcs_length_ne xs ys ne))
    ]
  ]

  lcs_length-reverse_le : (xs ys : List A) → lcs_length xs ys ≤ lcs_length (reverse xs) (reverse ys)
  lcs_length-reverse_le xs ys =
      let (zs, p, q, n) = lcs_length_attained xs ys in
      omega (
        arith,
        length-reverse zs,
        lcs_length_upper (reverse xs) (reverse ys) (reverse zs) (Subsequence-reverse p)
            (Subsequence-reverse q),
      )

  -- Reading both sequences backwards does not matter.
  pub lcs_length-reverse :
      (xs ys : List A) → lcs_length (reverse xs) (reverse ys) ≡ lcs_length xs ys
  lcs_length-reverse xs ys =
      le_antisymm
        (subst₂ (λ a b. lcs_length (reverse xs) (reverse ys) ≤ lcs_length a b) (reverse-reverse xs)
          (reverse-reverse ys) (lcs_length-reverse_le (reverse xs) (reverse ys)))
        (lcs_length-reverse_le xs ys)

  -- Common subsequences of the parts join to one of the wholes.
  pub lcs_length-append_ge :
      (xs xs' ys ys' : List A)
      → lcs_length xs ys + lcs_length xs' ys' ≤ lcs_length (xs ++ xs') (ys ++ ys')
  lcs_length-append_ge xs xs' ys ys' =
      let (zs, p, q, n) = lcs_length_attained xs ys in
      let (ws, r, s, m) = lcs_length_attained xs' ys' in
      omega (
        arith,
        length-append zs ws,
        lcs_length_upper (xs ++ xs') (ys ++ ys') (zs ++ ws) (Subsequence-append p r)
            (Subsequence-append q s),
      )

  -- A longest common subsequence of `xs ++ xs'` and `ys` divides `ys`.
  pub lcs_length-append_split :
      (xs xs' ys : List A)
      → (i : ℕ) × (i ≤ length ys)
        × (lcs_length (xs ++ xs') ys ≤ lcs_length xs (take i ys) + lcs_length xs' (drop i ys))
  lcs_length-append_split xs xs' ys =
      let (zs, p, q, n) = lcs_length_attained (xs ++ xs') ys in
      let (k, p1, p2) = Subsequence-split_right xs xs' zs p in
      let (i, le, q1, q2) =
        Subsequence-split_left (take k zs) (drop k zs) ys
          (subst (λ w. Subsequence w ys) (sym (take-append-drop k zs)) q) in
      (
        i,
        le,
        omega (
          arith,
          length-append (take k zs) (drop k zs),
          ap length (take-append-drop k zs),
          lcs_length_upper xs (take i ys) (take k zs) p1 q1,
          lcs_length_upper xs' (drop i ys) (drop k zs) p2 q2,
        ),
      )
