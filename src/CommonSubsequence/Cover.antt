-- ===== src/CommonSubsequence/Cover.antt =====
-- A round of `CommonSubsequence` loses no constraint: each sequence that it replaces contains one
-- of those that it leaves.
use vxsig.Prelude.{
  ℕ, zero, suc, ◌-◌, ◌≤◌, ◌<◌, ◌≡◌, ◌⊎◌, refl, sym, ap, subst, subst₂, ◌∙◌, inl, inr, true, false,
  List, [], ◌∷◌, ◌++◌, map, Option, some, arith, Eq, ◌==◌, ==_iff, length, get_or, get_elem?,
  get_elem?-of_lt, get_elem?-eq_some, get_elem?-append_left, get_elem?-append_last, get_elem?-map,
  length-append, length-map, Bool-cases, All, All-map,
}
use vxsig.Subsequence.{Subsequence, done, skip, keep, Subsequence-refl, Subsequence-trans}
use vxsig.Lcs.{contains}
use vxsig.Lcs.Optimal.{IsLcs, longest_common_subsequence-IsLcs}
use vxsig.CommonSubsequence.{
  set_insert, PairScan, erase_all, Round, returned, replaced, prune_sequence, scan, fold_pair,
}
use vxsig.CommonSubsequence.Removals.{
  Ascending, Ascending-weaken, mem, mem-set_insert, mem-All, mem-Ascending_full,
  set_insert-Ascending, set_insert-All, length-count_from, two_le_length, length-erase_all,
  erase_all-keeps,
}
use vxsig.CommonSubsequence.Scan.{Same-Subsequence, IsDup, IsScanned, scan-IsScanned}

module _ {ℓ} {A : Type ℓ} ⦃e : Eq A⦄ where
  -- Each sequence of `old` contains a sequence of `new`.
  abbrev pub Covers : List (List A) → List (List A) → Type ℓ
  Covers new old =
      (k : ℕ) (t : List A)
      → get_elem? old k ≡ some t
      → (k' : ℕ) × (u : List A) × (get_elem? new k' ≡ some u) × Subsequence u t

  pub Covers-trans :
      (new mid old : List (List A)) → Covers new mid → Covers mid old → Covers new old
  Covers-trans new mid old f g k t h =
      let (k', u, h', p) = g k t h in
      let (k'', v, h'', q) = f k' u h' in (k'', v, h'', Subsequence-trans p v q)

  -- Pruning only drops items.
  prune_sequence-Subsequence : (xs kept : List A) → Subsequence (prune_sequence xs kept) xs
  unfolding prune_sequence
  prune_sequence-Subsequence [] kept = done
  prune_sequence-Subsequence (x ∷ xs) kept = elim (Bool-cases (contains kept x)) [
    | inl found ↦ rw found (keep (e.beq_refl x) (prune_sequence-Subsequence xs kept))
    | inr missing ↦ rw missing (skip (prune_sequence-Subsequence xs kept))
  ]

  module _ (seqs : List (List A)) where
    -- Each sequence contains one that is no duplicate.
    origin :
        (rs : List ℕ)
        → All (IsDup seqs) rs
        → (fuel k : ℕ) → k < fuel
        → k < length seqs
        → (o : ℕ) × (o < length seqs)
          × (mem o rs ≡ false)
          × Subsequence (get_or seqs o []) (get_or seqs k [])
    origin rs dups zero k lt hi = absurd (omega arith)
    origin rs dups (suc fuel) k lt hi = elim (Bool-cases (mem k rs)) [
      | inr fresh ↦ (k, hi, fresh, Subsequence-refl (get_or seqs k []))
      | inl dup ↦
          let (_, j, below, same) = mem-All (IsDup seqs) k rs dups dup in
          let (o, o_hi, fresh, q) = origin rs dups fuel j (omega arith) (omega arith) in
          (o, o_hi, fresh, Subsequence-trans (Same-Subsequence same) (get_or seqs o []) q)
    ]

    abbrev removed : PairScan → List ℕ
    removed s = set_insert s.shd.1 (set_insert s.shd.0 s.removals)

    module _ (s : PairScan) (scanned : IsScanned seqs (length seqs - 1) s) where
      -- If all sequences but the first one are duplicates, each contains the first one.
      same_Covers : length s.removals ≡ length seqs - 1 → Covers (get_or seqs 0 [] ∷ []) seqs
      same_Covers all k t h =
          let (hi, eq) = get_elem?-eq_some seqs k [] h in
          let (o, o_hi, fresh, p) = origin s.removals scanned.dups (suc k) k (omega arith) hi in
          (
            0,
            get_or seqs 0 [],
            refl,
            subst₂ Subsequence (ap (λ i. get_or seqs i []) (first o o_hi fresh)) eq p,
          )
        where
          first : (o : ℕ) → o < length seqs → mem o s.removals ≡ false → o ≡ 0
          first zero lt m = refl
          first (suc o) lt m = absurd (
              ground (
                arith,
                mem-Ascending_full 1 (length seqs) s.removals (suc o) scanned.ascending (
                    All-map {P = IsDup seqs} {Q = λ r. r < length seqs} s.removals (λ r d. d.0)
                      scanned.dups),
              ))

      module _ (some_differ : ¬ (length s.removals ≡ length seqs - 1)) where
        pair : (s.shd.1 < s.shd.0) × (s.shd.0 < length seqs)
        pair = elim scanned.pair [
          | inl z ↦
              absurd
                (some_differ (ap length (scanned.full z) ∙ length-count_from 1 (length seqs - 1)))
          | inr p ↦ p
        ]

        removed-Ascending : Ascending 0 (removed s)
        removed-Ascending = set_insert-Ascending 0 s.shd.1 _ (omega arith) (
            set_insert-Ascending 0 s.shd.0 s.removals (omega arith)
              (Ascending-weaken 0 1 s.removals (omega arith) scanned.ascending))

        removed-below : All (λ r. r < length seqs) (removed s)
        removed-below =
            set_insert-All (λ r. r < length seqs) s.shd.1 _ (omega (arith, pair))
              (set_insert-All (λ r. r < length seqs) s.shd.0 s.removals (omega (arith, pair))
                (All-map {P = IsDup seqs} s.removals (λ r d. d.0) scanned.dups))

        removed_two : 2 ≤ length (removed s)
        removed_two =
            two_le_length s.shd.0 s.shd.1 (removed s) pair.0
              (ground (
                arith,
                mem-set_insert s.shd.0 s.shd.1 (set_insert s.shd.0 s.removals),
                mem-set_insert s.shd.0 s.shd.0 s.removals,
              ))
              (ground (arith, mem-set_insert s.shd.1 s.shd.1 (set_insert s.shd.0 s.removals)))

        module _ (lcs : List A)
            (is_lcs : IsLcs (get_or seqs s.shd.1 []) (get_or seqs s.shd.0 []) lcs) where
          kept : List (List A)
          kept = map (λ sequence. prune_sequence sequence lcs) (erase_all seqs (removed s))

          next : List (List A)
          unfolding kept
          next = kept ++ (lcs ∷ [])

          length-next : (1 ≤ length next) × (length next < length seqs)
          unfolding next
          length-next = omega (
            arith,
            length-append kept (lcs ∷ []),
            length-map (erase_all seqs (removed s)) (λ sequence. prune_sequence sequence lcs),
            length-erase_all seqs 0 (removed s) removed-Ascending removed-below,
            removed_two,
          )

          in_pair :
              (o : ℕ)
              → mem o s.removals ≡ false
              → mem o (removed s) ≡ true
              → (o ≡ s.shd.0) ⊎ (o ≡ s.shd.1)
          in_pair o fresh gone = ground (
            arith,
            mem-set_insert o s.shd.1 (set_insert s.shd.0 s.removals),
            mem-set_insert o s.shd.0 s.removals,
          )

          lcs-Subsequence :
              (o : ℕ)
              → mem o s.removals ≡ false
              → mem o (removed s) ≡ true
              → Subsequence lcs (get_or seqs o [])
          lcs-Subsequence o fresh gone = elim (in_pair o fresh gone) [
            | inl at_first ↦
                subst (λ i. Subsequence lcs (get_or seqs i [])) (sym at_first) is_lcs.right
            | inr at_second ↦
                subst (λ i. Subsequence lcs (get_or seqs i [])) (sym at_second) is_lcs.left
          ]

          -- An index that is no duplicate is one of the pair, or its sequence is left.
          fresh_Covers :
              (o : ℕ)
              → o < length seqs
              → mem o s.removals ≡ false
              → (k' : ℕ) × (u : List A) × (get_elem? next k' ≡ some u)
                × Subsequence u (get_or seqs o [])
          unfolding next
          fresh_Covers o hi fresh = elim (Bool-cases (mem o (removed s))) [
            | inl gone ↦
                (length kept, lcs, get_elem?-append_last kept lcs, lcs-Subsequence o fresh gone)
            | inr left ↦
                let (k', _, h) =
                  erase_all-keeps seqs 0 (removed s) o (get_or seqs o []) removed-Ascending left
                    (omega arith) (get_elem?-of_lt seqs o [] hi) in
                (
                  k',
                  prune_sequence (get_or seqs o []) lcs,
                  get_elem?-append_left kept (lcs ∷ []) k'
                      (get_elem?-map (erase_all seqs (removed s)) _ k' h),
                  prune_sequence-Subsequence (get_or seqs o []) lcs,
                )
          ]

          next-Covers : Covers next seqs
          next-Covers k t h =
              let (hi, eq) = get_elem?-eq_some seqs k [] h in
              let (o, o_hi, fresh, p) = origin s.removals scanned.dups (suc k) k (omega arith) hi in
              let (k', u, h', q) = fresh_Covers o o_hi fresh in
              (k', u, h', subst (Subsequence u) eq (Subsequence-trans p u q))

    -- How a round ends: with a result, or with fewer sequences, and at least one.
    pub data Progress : Option (Round A) → Type ℓ where
      ends :
          {o : Option (Round A)} (r : List A)
          → o ≡ some (returned r)
          → Covers (r ∷ []) seqs
          → Progress o
      goes_on :
          {o : Option (Round A)} (new : List (List A))
          → o ≡ some (replaced new)
          → Covers new seqs
          → 1 ≤ length new
          → length new < length seqs
          → Progress o

    -- A round ends the loop with a result, or leaves fewer sequences, of which there is one at least.
    -- Each sequence before the round contains the result, or one of those that are left.
    pub fold_pair-Progress : Progress (fold_pair seqs)
    unfolding fold_pair next
    fold_pair-Progress =
        let s = scan seqs in
        let scanned = scan-IsScanned seqs in
        elim (Bool-cases (length s.removals == length seqs - 1)) [
          | inl same ↦
              ends (get_or seqs 0 []) (rw same) (same_Covers s scanned ((==_iff _ _).0 same))
          | inr differ ↦
              let (lcs, found, is_lcs) =
                longest_common_subsequence-IsLcs (get_or seqs s.shd.1 [])
                  (get_or seqs s.shd.0 []) in
              let some_differ : ¬ (length s.removals ≡ length seqs - 1) = λ h. ground arith in
              let sizes = length-next s scanned some_differ lcs is_lcs in
              goes_on (next s scanned some_differ lcs is_lcs) (rw (differ, found))
                (next-Covers s scanned some_differ lcs is_lcs) sizes.0 sizes.1
        ]
