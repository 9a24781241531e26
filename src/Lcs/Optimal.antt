-- ===== src/Lcs/Optimal.antt =====
-- `LongestCommonSubsequence` returns a common subsequence, and none is longer.
use mathlib.Core.Option.{some-injective}
use vxsig.Prelude.{
  ℕ, zero, suc, ◌+◌, ◌/◌, ◌≤◌, ◌<◌, ◌≡◌, refl, sym, ap, subst, subst₂, ◌∙◌, inl, inr, true, false,
  List, [], ◌∷◌, ◌++◌, reverse, reverse-append, reverse-reverse, append-nil, Option, some, arith,
  Eq, ◌=?◌, length, take, drop, take-append-drop, length-take, length-drop, length-append,
  length-reverse, if◌then◌else◌, Bool-cases,
}
use vxsig.Subsequence.{
  Subsequence, done, skip, keep, Subsequence-nil, Subsequence-append, Subsequence-reverse,
}
use vxsig.Lcs.{
  common_prefix, contains, split_position, divide, behind_prefix, lcs, longest_common_subsequence,
}
use vxsig.Lcs.Length.{
  lcs_length, lcs_length_eq, lcs_length_ne, lcs_length_none, lcs_length_upper, lcs_length-nil,
  lcs_length-reverse, lcs_length-append_ge, lcs_length-append_split,
}
use vxsig.Lcs.Split.{split_position-IsBest}

module _ {ℓ} {A : Type ℓ} ⦃e : Eq A⦄ where
  pub record IsLcs (xs ys r : List A) : Type ℓ where
    pub left : Subsequence r xs
    pub right : Subsequence r ys
    pub longest : length r ≡ lcs_length xs ys

  abbrev Solves : Option (List A) → List A → List A → Type ℓ
  Solves o xs ys = (r : List A) × (o ≡ some r) × IsLcs xs ys r

  IsLcs-none : (ys : List A) → IsLcs [] ys []
  IsLcs-none ys = record {
    left = done;
    right = Subsequence-nil ys;
    longest = sym (lcs_length_none ys);
  }

  IsLcs-nil : (xs : List A) → IsLcs xs [] []
  IsLcs-nil xs = record {
    left = Subsequence-nil xs;
    right = done;
    longest = sym (lcs_length-nil xs);
  }

  IsLcs-reverse : (xs ys r : List A) → IsLcs xs ys r → IsLcs (reverse xs) (reverse ys) (reverse r)
  IsLcs-reverse xs ys r h = record {
    left = Subsequence-reverse h.left;
    right = Subsequence-reverse h.right;
    longest = length-reverse r ∙ (h.longest ∙ sym (lcs_length-reverse xs ys));
  }

  module _ {x y : A} (xs ys : List A) where
    common_prefix_eq :
        (x =? y) ≡ true
        → common_prefix (x ∷ xs) (y ∷ ys)
          ≡ (x ∷ (common_prefix xs ys).0, (common_prefix xs ys).1, (common_prefix xs ys).2)
    unfolding common_prefix
    common_prefix_eq h = rw (h, common_prefix)

    common_prefix_ne : (x =? y) ≡ false → common_prefix (x ∷ xs) (y ∷ ys) ≡ ([], x ∷ xs, y ∷ ys)
    unfolding common_prefix
    common_prefix_ne h = rw (h, common_prefix)

  IsLcs-cons :
      {x y : A} (xs ys r : List A)
      → (x =? y) ≡ true
      → IsLcs xs ys r
      → IsLcs (x ∷ xs) (y ∷ ys) (x ∷ r)
  IsLcs-cons {x} xs ys r eq h = record {
    left = keep (e.beq_refl x) h.left;
    right = keep eq h.right;
    longest = omega (arith, h.longest, lcs_length_eq xs ys eq);
  }

  -- A common prefix goes in front of a solution for the rest.
  common_prefix-IsLcs :
      (xs ys r : List A)
      → IsLcs (common_prefix xs ys).1 (common_prefix xs ys).2 r
      → IsLcs xs ys ((common_prefix xs ys).0 ++ r)
  unfolding common_prefix
  common_prefix-IsLcs [] ys r h = h
  common_prefix-IsLcs (x ∷ xs) [] r h = h
  common_prefix-IsLcs (x ∷ xs) (y ∷ ys) r h = elim (Bool-cases (x =? y)) [
    | inl eq ↦
        subst P (sym (common_prefix_eq xs ys eq))
          (λ k. IsLcs-cons xs ys _ eq (common_prefix-IsLcs xs ys r k)) h
    | inr ne ↦ subst P (sym (common_prefix_ne xs ys ne)) (λ k. k) h
  ]
    where
      P : List A × List A × List A → Type ℓ
      P t = IsLcs t.1 t.2 r → IsLcs (x ∷ xs) (y ∷ ys) (t.0 ++ r)

  length-common_prefix : (xs ys : List A) → length (common_prefix xs ys).1 ≤ length xs
  unfolding common_prefix
  length-common_prefix [] ys = omega arith
  length-common_prefix (x ∷ xs) [] = omega arith
  length-common_prefix (x ∷ xs) (y ∷ ys) = ground (arith, length-common_prefix xs ys)

  contains-Subsequence : (ys : List A) (x : A) → contains ys x ≡ true → Subsequence (x ∷ []) ys
  unfolding contains
  contains-Subsequence [] x h = absurd (ground arith)
  contains-Subsequence (y ∷ ys) x h = elim (Bool-cases (y =? x)) [
    | inl eq ↦ keep (e.beq_symm y x eq) (Subsequence-nil ys)
    | inr ne ↦ skip (contains-Subsequence ys x (ground arith))
  ]

  lcs_length-contains :
      (ys : List A) (x : A) → lcs_length (x ∷ []) ys ≡ (if contains ys x then 1 else 0)
  unfolding contains
  lcs_length-contains [] x = lcs_length-nil (x ∷ [])
  lcs_length-contains (y ∷ ys) x = ground (
    arith,
    lcs_length_eq {x = x} {y = y} [] ys,
    lcs_length_ne {x = x} {y = y} [] ys,
    lcs_length_none ys,
    lcs_length_none (y ∷ ys),
    lcs_length-contains ys x,
    e.beq_symm x y,
    e.beq_symm y x,
  )

  one_item :
      (x : A) (ys : List A) → Solves (if contains ys x then some (x ∷ []) else some []) (x ∷ []) ys
  one_item x ys = elim (Bool-cases (contains ys x)) [
    | inl found ↦ (
      x ∷ [],
      rw found,
      record {
        left = keep (e.beq_refl x) done;
        right = contains-Subsequence ys x found;
        longest = ground (arith, lcs_length-contains ys x);
      },
    )
    | inr missing ↦ (
      [],
      rw missing,
      record {
        left = skip done;
        right = Subsequence-nil ys;
        longest = ground (arith, lcs_length-contains ys x);
      },
    )
  ]

  -- Solutions for the two halves at the split position join to a solution.
  halves :
      (left right ys r1 r2 : List A)
      → IsLcs left (take (split_position left right ys) ys) r1
      → IsLcs right (drop (split_position left right ys) ys) r2
      → IsLcs (left ++ right) ys (r1 ++ r2)
  halves left right ys r1 r2 h1 h2 =
      let p = split_position left right ys in
      let (i, le, bound) = lcs_length-append_split left right ys in
      let (_, best) = split_position-IsBest left right ys in
      record {
        left = Subsequence-append h1.left h2.left;
        right =
            subst (Subsequence (r1 ++ r2)) (take-append-drop p ys)
              (Subsequence-append h1.right h2.right);
        longest = omega (
          arith,
          length-append r1 r2,
          h1.longest,
          h2.longest,
          bound,
          best i le,
          lcs_length-append_ge left right (take p ys) (drop p ys),
          ap (lcs_length (left ++ right)) (take-append-drop p ys),
        );
      }

  divide-Solves :
      (recur : List A → List A → Option (List A)) (xs ys : List A)
      → ((xs' ys' : List A) → length xs' < length xs → Solves (recur xs' ys') xs' ys')
      → Solves (divide recur xs ys) xs ys
  unfolding divide
  divide-Solves recur [] ys ih = ([], refl, IsLcs-none ys)
  divide-Solves recur (x ∷ []) ys ih = one_item x ys
  divide-Solves recur (x ∷ x' ∷ xs) ys ih =
      let whole = x ∷ x' ∷ xs in
      let n = length whole / 2 in
      let left = take n whole in
      let right = drop n whole in
      let p = split_position left right ys in
      let (r1, e1, h1) = ih left (take p ys) (omega (arith, length-take n whole)) in
      let (r2, e2, h2) = ih right (drop p ys) (omega (arith, length-drop n whole)) in
      (
        r1 ++ r2,
        rw (e1, e2),
        subst (λ w. IsLcs w ys (r1 ++ r2)) (take-append-drop n whole)
            (halves left right ys r1 r2 h1 h2),
      )

  -- A solution for what two sequences are in front of a common suffix.
  common_suffix-IsLcs :
      (xs ys r : List A)
      → IsLcs
          (reverse (common_prefix (reverse xs) (reverse ys)).1)
          (reverse (common_prefix (reverse xs) (reverse ys)).2)
          r
      → IsLcs xs ys (r ++ reverse (common_prefix (reverse xs) (reverse ys)).0)
  common_suffix-IsLcs xs ys r h =
      let (suffix, xs', ys') = common_prefix (reverse xs) (reverse ys) in
      let inner : IsLcs xs' ys' (reverse r) =
        subst₂ (λ a b. IsLcs a b (reverse r)) (reverse-reverse xs') (reverse-reverse ys')
          (IsLcs-reverse (reverse xs') (reverse ys') r h) in
      let whole =
        IsLcs-reverse (reverse xs) (reverse ys) (suffix ++ reverse r)
          (common_prefix-IsLcs (reverse xs) (reverse ys) (reverse r) inner) in
      subst (IsLcs xs ys)
        (reverse-append suffix (reverse r) ∙ ap (λ l. l ++ reverse suffix) (reverse-reverse r))
        (subst₂ (λ a b. IsLcs a b (reverse (suffix ++ reverse r))) (reverse-reverse xs)
          (reverse-reverse ys) whole)

  behind_prefix-Solves :
      (recur : List A → List A → Option (List A)) (prefix xs ys : List A)
      → ((xs' ys' : List A) → length xs' < length xs → Solves (recur xs' ys') xs' ys')
      → (r : List A) × (behind_prefix recur prefix xs ys ≡ some (prefix ++ r)) × IsLcs xs ys r
  unfolding behind_prefix
  behind_prefix-Solves recur prefix [] ys ih =
      ([], ap some (sym (append-nil prefix)), IsLcs-none ys)
  behind_prefix-Solves recur prefix (x ∷ xs) [] ih =
      ([], ap some (sym (append-nil prefix)), IsLcs-nil (x ∷ xs))
  behind_prefix-Solves recur prefix (x ∷ xs) (y ∷ ys) ih =
      let (suffix, xs', ys') = common_prefix (reverse (x ∷ xs)) (reverse (y ∷ ys)) in
      let (r, eq, h) = divide-Solves recur (reverse xs') (reverse ys') (λ us vs lt. ih us vs (
        omega (
          arith,
          length-reverse xs',
          length-reverse (x ∷ xs),
          length-common_prefix (reverse (x ∷ xs)) (reverse (y ∷ ys)),
        ))) in
      (r ++ reverse suffix, rw eq, common_suffix-IsLcs (x ∷ xs) (y ∷ ys) r h)

  -- With more fuel than the first sequence has items the recursion ends.
  lcs-Solves : (fuel : ℕ) (xs ys : List A) → length xs < fuel → Solves (lcs fuel xs ys) xs ys
  unfolding lcs
  lcs-Solves zero xs ys lt = absurd (omega arith)
  lcs-Solves (suc fuel) xs ys lt =
      let (prefix, xs', ys') = common_prefix xs ys in
      let (r, eq, h) =
        behind_prefix-Solves (lcs fuel) prefix xs' ys'
          (λ us vs short. lcs-Solves fuel us vs (omega (arith, length-common_prefix xs ys))) in
      (prefix ++ r, eq, common_prefix-IsLcs xs ys r h)

  -- The function returns, and its result is a common subsequence of both, as long as `lcs_length` says.
  pub longest_common_subsequence-IsLcs :
      (xs ys : List A) → (r : List A) × (longest_common_subsequence xs ys ≡ some r) × IsLcs xs ys r
  unfolding longest_common_subsequence
  longest_common_subsequence-IsLcs xs ys = lcs-Solves (length xs + 1) xs ys (omega arith)

  -- No common subsequence is longer than the result.
  longest_common_subsequence_upper :
      (xs ys r zs : List A)
      → longest_common_subsequence xs ys ≡ some r
      → Subsequence zs xs
      → Subsequence zs ys
      → length zs ≤ length r
  longest_common_subsequence_upper xs ys r zs h left right =
      let (r', eq, best) = longest_common_subsequence-IsLcs xs ys in
      let same = ap length (some-injective _ _ (sym eq ∙ h)) in
      omega (arith, same, best.longest, lcs_length_upper xs ys zs left right)

  -- The function returns. Its result is a common subsequence of both, as long as the recursive
  -- specification `lcs_length` says, and no common subsequence is longer.
  pub longest_common_subsequence-IsLongest :
      (xs ys zs : List A)
      → Subsequence zs xs
      → Subsequence zs ys
      → (r : List A) × (longest_common_subsequence xs ys ≡ some r)
        × IsLcs xs ys r
        × (length zs ≤ length r)
  longest_common_subsequence-IsLongest xs ys zs left right =
      let (r, eq, best) = longest_common_subsequence-IsLcs xs ys in
      (r, eq, best, longest_common_subsequence_upper xs ys r zs eq left right)
