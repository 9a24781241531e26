-- ===== src/CommonSubsequence/Correct.antt =====
-- `CommonSubsequence` ends, and its result occurs in each of the input sequences.
use mathlib.Core.Option.{some-injective}
use vxsig.Prelude.{
  ℕ, zero, suc, ◌≤◌, ◌<◌, ◌≡◌, refl, sym, subst, List, [], ◌∷◌, Option, none, some, arith, Eq,
  lt→ltb, length, get_elem?,
}
use vxsig.Subsequence.{Subsequence, Subsequence-refl}
use vxsig.Lcs.Optimal.{IsLcs, longest_common_subsequence-IsLcs}
use vxsig.CommonSubsequence.{finish, fold_pairs, common_subsequence}
use vxsig.CommonSubsequence.Cover.{Covers, Covers-trans, ends, goes_on, fold_pair-Progress}

module _ {ℓ} {A : Type ℓ} ⦃e : Eq A⦄ where
  abbrev Finds : Option (List A) → List (List A) → Type ℓ
  Finds o seqs = (r : List A) × (o ≡ some r) × Covers (r ∷ []) seqs

  one_Covers : (xs : List A) → Covers (xs ∷ []) (xs ∷ [])
  one_Covers xs k t h = (k, t, h, Subsequence-refl t)

  two_Covers : (xs ys r : List A) → IsLcs xs ys r → Covers (r ∷ []) (xs ∷ ys ∷ [])
  two_Covers xs ys r h zero t eq =
      (0, r, refl, subst (Subsequence r) (some-injective _ _ eq) h.left)
  two_Covers xs ys r h (suc zero) t eq =
      (0, r, refl, subst (Subsequence r) (some-injective _ _ eq) h.right)
  two_Covers xs ys r h (suc (suc k)) t eq = absurd (ground arith)

  -- As much fuel as there are sequences is enough.
  fold_pairs-Finds :
      (fuel : ℕ) (seqs : List (List A))
      → 1 ≤ length seqs
      → length seqs ≤ fuel
      → Finds (fold_pairs fuel seqs) seqs
  unfolding fold_pairs finish
  fold_pairs-Finds zero seqs lo hi = absurd (omega arith)
  fold_pairs-Finds (suc fuel) [] lo hi = absurd (omega arith)
  fold_pairs-Finds (suc fuel) (xs ∷ []) lo hi = (xs, refl, one_Covers xs)
  fold_pairs-Finds (suc fuel) (xs ∷ ys ∷ []) lo hi =
      let (r, eq, h) = longest_common_subsequence-IsLcs xs ys in (r, eq, two_Covers xs ys r h)
  fold_pairs-Finds (suc fuel) (xs ∷ ys ∷ zs ∷ rest) lo hi =
      elim (fold_pair-Progress (xs ∷ ys ∷ zs ∷ rest)) [
        | ends r eq covers ↦
            (r, rw (lt→ltb 2 (length (xs ∷ ys ∷ zs ∷ rest)) (omega arith), eq), covers)
        | goes_on new eq covers some_left fewer ↦
            let (r, eq', h) = fold_pairs-Finds fuel new some_left (omega arith) in
            (
              r,
              rw (lt→ltb 2 (length (xs ∷ ys ∷ zs ∷ rest)) (omega arith), eq) eq',
              Covers-trans (r ∷ []) new (xs ∷ ys ∷ zs ∷ rest) h covers,
            )
      ]

  -- On two sequences or more the function returns, and its result occurs in each of them.
  pub common_subsequence-Subsequence :
      (seqs : List (List A))
      → 2 ≤ length seqs
      → (r : List A) × (common_subsequence seqs ≡ some r)
        × ((k : ℕ) (t : List A) → get_elem? seqs k ≡ some t → Subsequence r t)
  unfolding common_subsequence
  common_subsequence-Subsequence seqs two =
      let (r, eq, covers) = fold_pairs-Finds (length seqs) seqs (omega arith) (omega arith) in
      (r, ground arith, λ k t h. let (k', u, h', p) = covers k t h in only r k' u h' t p)
    where
      only :
          (r : List A) (k' : ℕ) (u : List A)
          → get_elem? (r ∷ []) k' ≡ some u
          → (t : List A) → Subsequence u t
          → Subsequence r t
      only r zero u h' t p = subst (λ w. Subsequence w t) (sym (some-injective _ _ h')) p
      only r (suc k') u h' t p = absurd (ground arith)

  -- On fewer than two sequences the process is stopped.
  common_subsequence_fatal :
      (seqs : List (List A)) → length seqs < 2 → common_subsequence seqs ≡ none
  unfolding common_subsequence
  common_subsequence_fatal seqs h = ground arith
