-- ===== src/Signature/Subset.antt =====
-- vxsig/signature_formatter.cc: `GetRelevantSignatureSubset` and the trimming algorithms.
-- `std::sort`, and `std::shuffle` with a generator seeded from the variant, are parameters. The
-- `int` sums of lengths are natural numbers: a signature has fewer than 2^31 bytes.
pub mod Trim
pub mod Indices
pub mod Selected
use vxsig.Prelude.{
  ℕ, zero, suc, ◌+◌, ◌-◌, max, ◌≡◌, ◌≤◌, Bool, true, false, not, ◌&&◌, ◌||◌, List, [], ◌∷◌, ◌++◌,
  map, reverse, ltb, leb, ◌==◌, if◌then◌else◌, length, get_or, ℤ, pos, negsuc, pos_part, ltb_ℤ,
  eqb_ℤ,
}
use mathlib.Core.List.{Permᴰ}
use vxsig.Signature.{
  Piece, weight_of, size_of, no_piece, TrimAlgorithm, trim_none, trim_last, trim_first, trim_random,
  trim_weighted, trim_weighted_greedy, SignatureDefinition, Status, invalid_argument, Result, ok,
  failed,
}

abbrev pub Ascending : List ℕ → Type 0
Ascending [] = Unit
Ascending (i ∷ []) = Unit
Ascending (i ∷ j ∷ is) = (i ≤ j) × Ascending (j ∷ is)

-- What the standard library promises of the two algorithms.
pub record Algorithms : Type 0 where
  pub sort : (ℕ → ℕ → Bool) → List ℕ → List ℕ
  pub shuffle : ℤ → List ℕ → List ℕ
  pub sort_perm : (before : ℕ → ℕ → Bool) (l : List ℕ) → Permᴰ (sort before l) l
  pub sort-Ascending : (l : List ℕ) → Ascending (sort ltb l)
  pub shuffle_perm : (variant : ℤ) (l : List ℕ) → Permᴰ (shuffle variant l) l

module _ (raw : List Piece) where
  -- `raw_sig.piece(i)`.
  abbrev pub piece_at : ℕ → Piece
  piece_at i = get_or raw i no_piece

  -- The loop of `TrimLast` and its `resize`: the indices before the first piece that does not fit.
  pub trim_last_from : ℕ → ℕ → List ℕ → List ℕ
  trim_last_from max_length current_length [] = []
  trim_last_from max_length current_length (i ∷ is) =
      let new_length = current_length + size_of (piece_at i) in
      let rest = trim_last_from max_length new_length is in
      if ltb max_length new_length then [] else i ∷ rest

  unfoldable pub keep_front : ℕ → List ℕ → List ℕ
  unfolding trim_last_from
  keep_front max_length is = trim_last_from max_length 0 is

  -- The order of `TrimLowWeight`: greater weights first, then longer pieces. The differences that
  -- the source takes as an `int` are below 2^31, so that only their sign is written here.
  pub prefer : ℕ → ℕ → Bool
  prefer a b =
      if eqb_ℤ (weight_of (piece_at a)) (weight_of (piece_at b))
      then ltb (size_of (piece_at b)) (size_of (piece_at a))
      else ltb_ℤ (weight_of (piece_at b)) (weight_of (piece_at a))

  -- The loop of `TrimLowWeight`: a piece that does not fit is passed over.
  pub keep_fitting : ℕ → ℕ → List ℕ → List ℕ
  keep_fitting max_length current_length [] = []
  keep_fitting max_length current_length (i ∷ is) =
      let new_length = current_length + size_of (piece_at i) in
      let skipping = keep_fitting max_length current_length is in
      let keeping = keep_fitting max_length new_length is in
      if ltb max_length new_length then skipping else i ∷ keeping

  -- The two tests on a piece, for the algorithm and the minimum length.
  abbrev pub is_weighted : TrimAlgorithm → Bool
  is_weighted trim_weighted = true
  is_weighted trim_weighted_greedy = true
  is_weighted _ = false

  pub is_relevant : TrimAlgorithm → ℕ → ℕ → Bool
  is_relevant algorithm min_piece_len i =
      if is_weighted algorithm && eqb_ℤ (weight_of (piece_at i)) (pos 0)
      then false
      else leb min_piece_len (size_of (piece_at i))

  -- The loop that gathers the indices, from `i` on.
  pub relevant_from : TrimAlgorithm → ℕ → (rounds i : ℕ) → List ℕ
  unfolding is_relevant
  relevant_from algorithm min_piece_len zero i = []
  relevant_from algorithm min_piece_len (suc rounds) i =
      let rest = relevant_from algorithm min_piece_len rounds (i + 1) in
      if is_relevant algorithm min_piece_len i then i ∷ rest else rest

  module _ (std : Algorithms) where
    -- The `switch`; `TRIM_WEIGHTED` calls `SolveKnapsack`, whose body is disabled.
    pub trim : SignatureDefinition → TrimAlgorithm → ℕ → List ℕ → List ℕ
    unfolding keep_front keep_fitting prefer
    trim definition trim_none max_length is = is
    trim definition trim_last max_length is = keep_front max_length is
    trim definition trim_first max_length is = keep_front max_length (reverse is)
    trim definition trim_random max_length is =
        keep_front max_length (std.shuffle definition.variant is)
    trim definition trim_weighted max_length is = is
    trim definition trim_weighted_greedy max_length is =
        keep_fitting max_length 0 (std.sort prefer is)

    -- "Unbounded signature trimming requested".
    abbrev pub is_unbounded : ℤ → TrimAlgorithm → Bool
    is_unbounded (negsuc n) trim_none = false
    is_unbounded (negsuc n) _ = true
    is_unbounded (pos n) _ = false

    pub copy_pieces : List ℕ → Result (List Piece)
    copy_pieces [] = failed invalid_argument
    copy_pieces (i ∷ is) = ok (map piece_at (std.sort ltb (i ∷ is)))

    pub selected : SignatureDefinition → ℕ → List ℕ
    unfolding relevant_from trim
    selected definition engine_min_piece_len =
        let min_piece_len = max engine_min_piece_len (pos_part definition.min_piece_length) in
        let algorithm = definition.trim_algorithm in
        trim definition algorithm (pos_part definition.trim_length)
          (relevant_from algorithm min_piece_len (length raw) 0)

    unfoldable pub get_relevant_signature_subset : SignatureDefinition → ℕ → Result (List Piece)
    unfolding selected copy_pieces
    get_relevant_signature_subset definition engine_min_piece_len =
        if is_unbounded definition.trim_length definition.trim_algorithm
        then failed invalid_argument
        else copy_pieces (selected definition engine_min_piece_len)
