-- ===== src/Signature/Subset/Selected.antt =====
-- What `GetRelevantSignatureSubset` returns.
use mathlib.Core.List.{Permᴰ}
use mathlib.Core.List.Permᴰ
use vxsig.Prelude.{
  pos, eqb_ℤ, ◌&&◌, ℕ, zero, suc, ◌+◌, ◌≤◌, ◌<◌, ◌≡◌, ◌≢◌, ◌⊎◌, refl, subst, inl, inr, true, false,
  max, List, [], ◌∷◌, map, reverse, arith, ltb, Bool-cases, All, length, pos_part,
}
use vxsig.Signature.{
  size_of, weight_of, Piece, TrimAlgorithm, trim_none, trim_last, trim_first, trim_random,
  trim_weighted, trim_weighted_greedy, SignatureDefinition, Result, ok, failed, undefined,
  invalid_argument,
}
use vxsig.Signature.Subset.{
  is_weighted, Algorithms, piece_at, is_relevant, relevant_from, prefer, trim, is_unbounded,
  copy_pieces, selected, get_relevant_signature_subset,
}
use vxsig.Signature.Subset.Indices.{
  Increasing, All-perm, SomeOf, SomeOf-refl, SomeOf-perm, SomeOf-All, SomeOf-Increasing,
}
use vxsig.Signature.Subset.Trim.{
  total, total-perm, keep_front-IsLongest, keep_front-SomeOf, keep_fitting-SomeOf,
  keep_fitting-total,
}

module _ (raw : List Piece) where
  abbrev pub IsRelevant : TrimAlgorithm → ℕ → ℕ → Type 0
  IsRelevant algorithm m i =
      (i < length raw)
      × (m ≤ size_of (piece_at raw i))
      × ((is_weighted raw algorithm && eqb_ℤ (weight_of (piece_at raw i)) (pos 0)) ≡ false)

  is_relevant-IsRelevant :
      (algorithm : TrimAlgorithm) (m i : ℕ)
      → i < length raw
      → is_relevant raw algorithm m i ≡ true
      → IsRelevant algorithm m i
  unfolding is_relevant
  is_relevant-IsRelevant algorithm m i lt h = (lt, ground arith, ground arith)

  relevant_from-Increasing :
      (algorithm : TrimAlgorithm) (m rounds i b : ℕ)
      → b ≤ i
      → Increasing b (relevant_from raw algorithm m rounds i)
  unfolding relevant_from
  relevant_from-Increasing algorithm m zero i b h = tt
  relevant_from-Increasing algorithm m (suc rounds) i b h =
      elim (Bool-cases (is_relevant raw algorithm m i)) [
        | inl keep ↦
            rw keep (h, relevant_from-Increasing algorithm m rounds (i + 1) (suc i) (omega arith))
        | inr drop ↦ rw drop (relevant_from-Increasing algorithm m rounds (i + 1) b (omega arith))
      ]

  relevant_from-IsRelevant :
      (algorithm : TrimAlgorithm) (m rounds i : ℕ)
      → i + rounds ≤ length raw
      → All (IsRelevant algorithm m) (relevant_from raw algorithm m rounds i)
  unfolding relevant_from
  relevant_from-IsRelevant algorithm m zero i h = tt
  relevant_from-IsRelevant algorithm m (suc rounds) i h =
      elim (Bool-cases (is_relevant raw algorithm m i)) [
        | inl keep ↦ rw keep (
          is_relevant-IsRelevant algorithm m i (omega arith) keep,
          relevant_from-IsRelevant algorithm m rounds (i + 1) (omega arith),
        )
        | inr drop ↦ rw drop (relevant_from-IsRelevant algorithm m rounds (i + 1) (omega arith))
      ]

  -- The algorithms that bound the signature's length. The knapsack solver is disabled.
  abbrev pub IsBounding : TrimAlgorithm → Type 0
  IsBounding trim_none = ⊥
  IsBounding trim_weighted = ⊥
  IsBounding _ = Unit

  module _ (std : Algorithms) where
    trim-SomeOf :
        (definition : SignatureDefinition) (algorithm : TrimAlgorithm) (m : ℕ) (is : List ℕ)
        → SomeOf (trim raw std definition algorithm m is) is
    unfolding trim
    trim-SomeOf definition trim_none m is = SomeOf-refl is
    trim-SomeOf definition trim_last m is = keep_front-SomeOf raw m is
    trim-SomeOf definition trim_first m is =
        SomeOf-perm (keep_front-SomeOf raw m (reverse is)) (Permᴰ.reverse is)
    trim-SomeOf definition trim_random m is =
        SomeOf-perm (keep_front-SomeOf raw m (std.shuffle definition.variant is))
          (std.shuffle_perm definition.variant is)
    trim-SomeOf definition trim_weighted m is = SomeOf-refl is
    trim-SomeOf definition trim_weighted_greedy m is =
        SomeOf-perm (keep_fitting-SomeOf raw m 0 (std.sort (prefer raw) is))
          (std.sort_perm (prefer raw) is)

    trim-total :
        (definition : SignatureDefinition) (algorithm : TrimAlgorithm) (m : ℕ) (is : List ℕ)
        → IsBounding algorithm
        → total raw (trim raw std definition algorithm m is) ≤ m
    unfolding trim
    trim-total definition trim_none m is b = absurd b
    trim-total definition trim_last m is b = (keep_front-IsLongest raw m is).2
    trim-total definition trim_first m is b = (keep_front-IsLongest raw m (reverse is)).2
    trim-total definition trim_random m is b =
        (keep_front-IsLongest raw m (std.shuffle definition.variant is)).2
    trim-total definition trim_weighted m is b = absurd b
    trim-total definition trim_weighted_greedy m is b =
        omega (arith, keep_fitting-total raw m 0 (std.sort (prefer raw) is))

    -- What the function promises of the pieces that it copies.
    pub record IsSubset (definition : SignatureDefinition) (engine_min : ℕ) (out : List Piece)
        (is : List ℕ) : Type 0 where
      pub copied : out ≡ map (piece_at raw) is
      pub some_piece : is ≢ []
      pub in_order : Increasing 0 is
      pub relevant :
          All
            (IsRelevant definition.trim_algorithm
              (max engine_min (pos_part definition.min_piece_length)))
            is
      pub bounded :
          IsBounding definition.trim_algorithm → total raw is ≤ pos_part definition.trim_length

    selected-SomeOf :
        (definition : SignatureDefinition) (engine_min : ℕ)
        → SomeOf (selected raw std definition engine_min) (
            relevant_from raw definition.trim_algorithm
              (max engine_min (pos_part definition.min_piece_length))
              (length raw)
              0)
    unfolding selected
    selected-SomeOf definition engine_min = trim-SomeOf definition definition.trim_algorithm _ _

    selected-total :
        (definition : SignatureDefinition) (engine_min : ℕ)
        → IsBounding definition.trim_algorithm
        → total raw (selected raw std definition engine_min) ≤ pos_part definition.trim_length
    unfolding selected
    selected-total definition engine_min = trim-total definition definition.trim_algorithm _ _

    sorted-IsSubset :
        (definition : SignatureDefinition) (engine_min : ℕ)
        → selected raw std definition engine_min ≢ []
        → (let js = std.sort ltb (selected raw std definition engine_min) in
            IsSubset definition engine_min (map (piece_at raw) js) js)
    sorted-IsSubset definition engine_min any =
        let is = selected raw std definition engine_min in
        let p = std.sort_perm ltb is in
        let some = selected-SomeOf definition engine_min in
        let m = max engine_min (pos_part definition.min_piece_length) in
        record {
          copied = refl;
          some_piece = λ e. any (nil_of_perm is (subst (λ l. Permᴰ l is) e p));
          in_order =
              SomeOf-Increasing 0 some
                (relevant_from-Increasing definition.trim_algorithm m (length raw) 0 0
                  (omega arith))
                p (std.sort-Ascending is);
          relevant = All-perm (IsRelevant definition.trim_algorithm m) p (
              SomeOf-All (IsRelevant definition.trim_algorithm m) some (
                relevant_from-IsRelevant definition.trim_algorithm m (length raw) 0 (omega arith)));
          bounded = λ b. omega (arith, total-perm raw p, selected-total definition engine_min b);
        }
      where
        nil_of_perm : (is : List ℕ) → Permᴰ [] is → is ≡ []
        nil_of_perm [] p = refl
        nil_of_perm (i ∷ is) p = absurd (All-perm (λ _. ⊥) (Permᴰ.symm p) tt).0

    -- The three ways in which the function ends.
    abbrev pub Outcome : SignatureDefinition → ℕ → Result (List Piece) → Type 0
    Outcome definition engine_min (ok out) =
        (is_unbounded raw std definition.trim_length definition.trim_algorithm ≡ false)
        × ((js : List ℕ) × IsSubset definition engine_min out js)
    Outcome definition engine_min (failed s) =
        (s ≡ invalid_argument)
        × ((is_unbounded raw std definition.trim_length definition.trim_algorithm ≡ true)
            ⊎ (selected raw std definition engine_min ≡ []))
    Outcome definition engine_min undefined = ⊥

    copy_pieces-cases :
        (definition : SignatureDefinition) (engine_min : ℕ) (is : List ℕ)
        → selected raw std definition engine_min ≡ is
        → is_unbounded raw std definition.trim_length definition.trim_algorithm ≡ false
        → Outcome definition engine_min (copy_pieces raw std is)
    unfolding copy_pieces
    copy_pieces-cases definition engine_min [] e b = (refl, inr e)
    copy_pieces-cases definition engine_min (i ∷ is) e b =
        let js = std.sort ltb (i ∷ is) in
        (
          b,
          (
            js,
            subst
                (λ l.
                  IsSubset definition engine_min (map (piece_at raw) (std.sort ltb l))
                    (std.sort ltb l))
                e (sorted-IsSubset definition engine_min (λ z. absurd (ground arith))),
          ),
        )

    -- The function copies pieces of the signature, in their order there, each long enough and, for
    -- the weighted algorithms, of a weight other than 0; the algorithms that bound the length keep
    -- to the bound. It fails only where the bound is missing or no piece is left.
    pub get_relevant_signature_subset-Outcome :
        (definition : SignatureDefinition) (engine_min : ℕ)
        → Outcome definition engine_min
            (get_relevant_signature_subset raw std definition engine_min)
    unfolding get_relevant_signature_subset
    get_relevant_signature_subset-Outcome definition engine_min =
        elim (Bool-cases (is_unbounded raw std definition.trim_length definition.trim_algorithm)) [
          | inl b ↦ rw b (refl, inl b)
          | inr b ↦ rw b (copy_pieces-cases definition engine_min _ refl b)
        ]
