-- ===== src/Subsequence.antt =====
-- What it is for a sequence to occur in another one in order, up to the element's `operator==`.
-- The specification of the algorithms of vxsig/longest_common_subsequence.h,
-- vxsig/common_subsequence.h and vxsig/candidates.cc.
use vxsig.Prelude.{
  ℕ, suc, ◌≤◌, ◌≡◌, true, List, [], ◌∷◌, ◌++◌, reverse, reverse-cons, append-nil, subst₂, sym,
  arith, Eq, ◌=?◌, length, take, drop,
}

module _ {ℓ} {A : Type ℓ} ⦃e : Eq A⦄ where
  -- `Subsequence zs xs`: the items of `zs` occur in `xs`, in this order.
  pub data Subsequence : List A → List A → Type ℓ where
    done : Subsequence [] []
    skip : {x : A} {zs xs : List A} → Subsequence zs xs → Subsequence zs (x ∷ xs)
    keep :
        {z x : A} {zs xs : List A}
        → (z =? x) ≡ true
        → Subsequence zs xs
        → Subsequence (z ∷ zs) (x ∷ xs)

  pub Subsequence-nil : (xs : List A) → Subsequence [] xs
  Subsequence-nil [] = done
  Subsequence-nil (x ∷ xs) = skip (Subsequence-nil xs)

  pub Subsequence-refl : (xs : List A) → Subsequence xs xs
  Subsequence-refl [] = done
  Subsequence-refl (x ∷ xs) = keep (e.beq_refl x) (Subsequence-refl xs)

  pub Subsequence-trans :
      {ys zs : List A} → Subsequence ys zs → (xs : List A) → Subsequence xs ys → Subsequence xs zs
  Subsequence-trans done xs p = p
  Subsequence-trans (skip q) xs p = skip (Subsequence-trans q xs p)
  Subsequence-trans (keep h q) xs (skip p) = skip (Subsequence-trans q xs p)
  Subsequence-trans (keep h q) (x ∷ xs) (keep k p) =
      keep (e.beq_trans _ _ _ k h) (Subsequence-trans q xs p)

  pub Subsequence-append :
      {xs ys zs ws : List A}
      → Subsequence xs zs
      → Subsequence ys ws
      → Subsequence (xs ++ ys) (zs ++ ws)
  Subsequence-append done q = q
  Subsequence-append (skip p) q = skip (Subsequence-append p q)
  Subsequence-append (keep h p) q = keep h (Subsequence-append p q)

  pub Subsequence-reverse :
      {xs ys : List A} → Subsequence xs ys → Subsequence (reverse xs) (reverse ys)
  Subsequence-reverse done = done
  Subsequence-reverse (skip {x} {zs} {xs} p) =
      subst₂ Subsequence (append-nil _) (sym (reverse-cons x xs))
        (Subsequence-append (Subsequence-reverse p) (Subsequence-nil (x ∷ [])))
  Subsequence-reverse (keep {z} {x} {zs} {xs} h p) =
      subst₂ Subsequence (sym (reverse-cons z zs)) (sym (reverse-cons x xs))
        (Subsequence-append (Subsequence-reverse p) (keep h done))

  pub length-Subsequence : {xs ys : List A} → Subsequence xs ys → length xs ≤ length ys
  length-Subsequence done = omega arith
  length-Subsequence (skip p) = omega (arith, length-Subsequence p)
  length-Subsequence (keep h p) = omega (arith, length-Subsequence p)

  Subsequence-tail_left : {z : A} {zs xs : List A} → Subsequence (z ∷ zs) xs → Subsequence zs xs
  Subsequence-tail_left (skip p) = skip (Subsequence-tail_left p)
  Subsequence-tail_left (keep h p) = skip p

  -- A head may be dropped on both sides.
  pub Subsequence-tail :
      {z x : A} {zs xs : List A} → Subsequence (z ∷ zs) (x ∷ xs) → Subsequence zs xs
  Subsequence-tail (skip p) = Subsequence-tail_left p
  Subsequence-tail (keep h p) = p

  -- An occurrence in a concatenation is split where the parts meet.
  pub Subsequence-split_right :
      (xs ys zs : List A)
      → Subsequence zs (xs ++ ys)
      → (i : ℕ) × Subsequence (take i zs) xs × Subsequence (drop i zs) ys
  Subsequence-split_right [] ys zs p = (0, done, p)
  Subsequence-split_right (x ∷ xs) ys zs (skip p) =
      let (i, p1, p2) = Subsequence-split_right xs ys zs p in (i, skip p1, p2)
  Subsequence-split_right (x ∷ xs) ys (z ∷ zs) (keep h p) =
      let (i, p1, p2) = Subsequence-split_right xs ys zs p in (suc i, keep h p1, p2)

  -- An occurrence of a concatenation leaves a place between the parts.
  pub Subsequence-split_left :
      (zs ws ys : List A)
      → Subsequence (zs ++ ws) ys
      → (i : ℕ) × (i ≤ length ys) × Subsequence zs (take i ys) × Subsequence ws (drop i ys)
  Subsequence-split_left [] ws ys p = (0, omega arith, done, p)
  Subsequence-split_left (z ∷ zs) ws [] p = elim p [ ]
  Subsequence-split_left (z ∷ zs) ws (y ∷ ys) (skip p) =
      let (i, lo, p1, p2) = Subsequence-split_left (z ∷ zs) ws ys p in
      (suc i, omega arith, skip p1, p2)
  Subsequence-split_left (z ∷ zs) ws (y ∷ ys) (keep h p) =
      let (i, lo, p1, p2) = Subsequence-split_left zs ws ys p in (suc i, omega arith, keep h p1, p2)
