-- ===== src/CommonSubsequence/Scan.antt =====
-- What the loop over the pairs finds: the duplicates, and two sequences that differ.
use vxsig.Prelude.{
  ℕ, zero, suc, ◌+◌, ◌-◌, ◌<◌, ◌≡◌, ◌⊎◌, refl, sym, ap, subst, ◌∙◌, inl, inr, List, [], arith, Eq,
  ltb, ◌==◌, ==_iff, length, get_or, Bool-cases, All,
}
use vxsig.Subsequence.{Subsequence, done, keep}
use vxsig.Hamming.{hamming_distance}
use vxsig.Hamming.Metric.{Same, nil, cons, hamming_distance-zero_iff}
use vxsig.CommonSubsequence.{set_insert, PairScan, compare_pair, scan_row, scan_pairs, scan}
use vxsig.CommonSubsequence.Removals.{
  Ascending, set_insert-Ascending, set_insert-All, count_from, set_insert-count_from_next,
  set_insert-count_from_last,
}

module _ {ℓ} {A : Type ℓ} ⦃e : Eq A⦄ where
  pub Same-Subsequence : {xs ys : List A} → Same xs ys → Subsequence ys xs
  Same-Subsequence nil = done
  Same-Subsequence (cons h s) = keep (e.beq_symm _ _ h) (Same-Subsequence s)

  module _ (seqs : List (List A)) where
    -- The sequence at `r` equals an earlier one.
    abbrev pub IsDup : ℕ → Type ℓ
    IsDup r = (r < length seqs) × (j : ℕ) × (j < r) × Same (get_or seqs r []) (get_or seqs j [])

    -- `m` counts the sequences, behind the first one, that have been compared with an earlier one.
    pub record IsScanned (m : ℕ) (s : PairScan) : Type ℓ where
      pub ascending : Ascending 1 s.removals
      pub dups : All IsDup s.removals
      pub pair : (s.max_dist ≡ 0) ⊎ ((s.shd.1 < s.shd.0) × (s.shd.0 < length seqs))
      pub full : s.max_dist ≡ 0 → s.removals ≡ count_from 1 m

    set_insert_next :
        (i m : ℕ) → 0 < i → (m ≡ i - 1) ⊎ (m ≡ i) → set_insert i (count_from 1 m) ≡ count_from 1 i
    set_insert_next zero m pos h = absurd (omega arith)
    set_insert_next (suc i) m pos (inl h) =
        subst (λ k. set_insert (suc i) (count_from 1 k) ≡ count_from 1 (suc i)) (omega arith)
          (set_insert-count_from_next 1 i (suc i) (omega arith))
    set_insert_next (suc i) m pos (inr h) =
        subst (λ k. set_insert (suc i) (count_from 1 k) ≡ count_from 1 (suc i)) (sym h)
          (set_insert-count_from_last 1 i (suc i) (omega arith))

    compare_pair-IsScanned :
        (i j m : ℕ) (s : PairScan)
        → j < i
        → i < length seqs
        → (m ≡ i - 1) ⊎ (m ≡ i)
        → IsScanned m s
        → IsScanned i (compare_pair seqs i j s)
    unfolding compare_pair
    compare_pair-IsScanned i j m s lt hi at_m h =
        elim (Bool-cases (hamming_distance (get_or seqs i []) (get_or seqs j []) == 0)) [
          | inl same ↦ rw same (record {
            ascending = set_insert-Ascending 1 i s.removals (omega arith) h.ascending;
            dups =
                set_insert-All IsDup i s.removals
                  (
                    hi,
                    j,
                    lt,
                    (hamming_distance-zero_iff (get_or seqs i []) (get_or seqs j [])).0
                        ((==_iff _ 0).0 same),
                  )
                  h.dups;
            pair = h.pair;
            full = λ z. ap (set_insert i) (h.full z) ∙ set_insert_next i m (omega arith) at_m;
          })
          | inr differ ↦
              rw differ
                (elim (Bool-cases
                  (ltb s.max_dist (hamming_distance (get_or seqs i []) (get_or seqs j [])))) [
                    | inl more ↦ rw more (record {
                      ascending = h.ascending;
                      dups = h.dups;
                      pair = inr (lt, hi);
                      full = λ z. absurd (ground arith);
                    })
                    | inr less ↦ rw less (record {
                      ascending = h.ascending;
                      dups = h.dups;
                      pair = h.pair;
                      full = λ z. absurd (ground arith);
                    })
                  ])
        ]

    scan_row-IsScanned :
        (rounds i j m : ℕ) (s : PairScan)
        → j + rounds ≡ i
        → i < length seqs
        → (rounds ≡ 0 → m ≡ i)
        → (m ≡ i - 1) ⊎ (m ≡ i)
        → IsScanned m s
        → IsScanned i (scan_row seqs rounds i j s)
    unfolding scan_row
    scan_row-IsScanned zero i j m s e hi last at_m h = subst (λ k. IsScanned k s) (last refl) h
    scan_row-IsScanned (suc rounds) i j m s e hi last at_m h =
        scan_row-IsScanned rounds i (j + 1) i (compare_pair seqs i j s) (omega arith) hi (λ _. refl)
          (inr refl) (compare_pair-IsScanned i j m s (omega arith) hi at_m h)

    scan_pairs-IsScanned :
        (rounds i : ℕ) (s : PairScan)
        → i + rounds ≡ length seqs
        → IsScanned (i - 1) s
        → IsScanned (length seqs - 1) (scan_pairs seqs rounds i s)
    unfolding scan_pairs
    scan_pairs-IsScanned zero i s e h = subst (λ k. IsScanned (k - 1) s) (omega arith) h
    scan_pairs-IsScanned (suc rounds) i s e h =
        scan_pairs-IsScanned rounds (i + 1) (scan_row seqs i i 0 s) (omega arith) (
          subst (λ k. IsScanned k (scan_row seqs i i 0 s)) (omega arith)
            (scan_row-IsScanned i i 0 (i - 1) s (omega arith) (omega arith) (λ z. omega arith)
              (inl refl) h))

    pub scan-IsScanned : IsScanned (length seqs - 1) (scan seqs)
    unfolding scan
    scan-IsScanned =
        scan_pairs-IsScanned (length seqs) 0 _ (omega arith)
          (record { ascending = tt; dups = tt; pair = inl refl; full = λ z. refl })
