-- ===== src/Siggen/Recorded.antt =====
-- What the rows of a diff leave in a column without a filter.
use vxsig.Prelude.{
  ℕ, ◌<◌, ◌≡◌, refl, sym, ◌∙◌, Bool, true, false, List, [], ◌∷◌, some, ℤ, negsuc, eqb_ℤ, length,
  Bool-cases, inl, inr, All,
}
use vxsig.Signature.{filter_none, ok}
use vxsig.MatchChain.{MatchChainColumn}
use vxsig.MatchChain.Insert.{MatchChainInserter}
use vxsig.MatchChain.Insert.Recorded.{
  IsRecorded, IsOrdered, is_set, Grows, IsAfter, add_function_match-IsAfter,
  add_basic_block_match-IsAfter, add_instruction_match-IsAfter,
}
use vxsig.DiffReader.{Sqlite, MatchRow, read_matches}
use vxsig.DiffReader.Rows.{
  complete, Call, function_match, basic_block_match, instruction_match, calls, call, replay, Yields,
  read_matches-replay,
}
use vxsig.Siggen.{match_receivers, new_inserter}

module _ (allocate : ℕ → ℕ) where
  abbrev IsReplayed : List Call → MatchChainInserter → Type 0
  IsReplayed cs inserter =
      let after = replay (match_receivers allocate) cs inserter in
      All (IsRecorded after.column) cs × Grows inserter after

  -- Behind a first call.
  IsReplayed-cons :
      (c : Call) (cs : List Call) (inserter : MatchChainInserter) (f b : Bool)
      → IsAfter inserter c f b (call (match_receivers allocate) c inserter)
      → IsReplayed cs (call (match_receivers allocate) c inserter)
      → IsReplayed (c ∷ cs) inserter
  IsReplayed-cons c cs inserter f b after (all, grows) =
      ((grows c after.recorded, all), λ d h. grows d (after.grows d h))

  replay-IsRecorded :
      (cs : List Call) (inserter : MatchChainInserter) (f b : Bool)
      → inserter.column.function_filter ≡ filter_none
      → is_set inserter.current_function ≡ f
      → is_set inserter.current_basic_block ≡ b
      → IsOrdered f b cs
      → IsReplayed cs inserter
  replay-IsRecorded [] inserter f b none_ e₁ e₂ h = (tt, λ c r. r)
  replay-IsRecorded (function_match m ∷ cs) inserter f b none_ e₁ e₂ h =
      let after = add_function_match-IsAfter inserter m none_ in
      IsReplayed-cons (function_match m) cs inserter _ _ after
        (replay-IsRecorded cs _ true b after.unfiltered after.function_set (after.block_set ∙ e₂) h)
  replay-IsRecorded (basic_block_match m ∷ cs) inserter f b none_ e₁ e₂ (there, h) =
      let after = add_basic_block_match-IsAfter inserter m none_ (e₁ ∙ there) in
      IsReplayed-cons (basic_block_match m) cs inserter _ _ after (
        replay-IsRecorded cs _ f true after.unfiltered (after.function_set ∙ sym there)
          after.block_set h)
  replay-IsRecorded (instruction_match m ∷ cs) inserter f b none_ e₁ e₂ (there, h) =
      let after = add_instruction_match-IsAfter (allocate m.0) inserter m none_ (e₂ ∙ there) in
      IsReplayed-cons (instruction_match m) cs inserter _ _ after (
        replay-IsRecorded cs _ f b after.unfiltered (after.function_set ∙ e₁)
          (after.block_set ∙ sym there) h)

-- Behind the first row the calls are in order.
calls-IsOrdered : (f b : ℤ) (rows : List MatchRow) → IsOrdered true true (calls f b rows)
calls-IsOrdered f b [] = tt
calls-IsOrdered f b (r ∷ rows) =
    let rest : IsOrdered true true (calls r.function_id r.basic_block_id rows) =
      calls-IsOrdered r.function_id r.basic_block_id rows in
    elim (Bool-cases (eqb_ℤ r.function_id f)) [
      | inl p ↦ elim (Bool-cases (eqb_ℤ r.basic_block_id b)) [
        | inl q ↦ rw (p, q) (refl, rest)
        | inr q ↦ rw (p, q) (refl, (refl, rest))
      ]
      | inr p ↦ elim (Bool-cases (eqb_ℤ r.basic_block_id b)) [
        | inl q ↦ rw (p, q) (refl, rest)
        | inr q ↦ rw (p, q) (refl, (refl, rest))
      ]
    ]

first_calls-IsOrdered :
    (r : MatchRow) (rows : List MatchRow)
    → eqb_ℤ r.function_id (negsuc 0) ≡ false
    → eqb_ℤ r.basic_block_id (negsuc 0) ≡ false
    → IsOrdered false false (calls (negsuc 0) (negsuc 0) (r ∷ rows))
first_calls-IsOrdered r rows p q =
    rw (p, q) (refl, (refl, calls-IsOrdered r.function_id r.basic_block_id rows))

-- For a column without a filter, and a result that ends without an error and whose first ids are
-- not -1, with more rounds than rows: the loop over the rows returns an inserter whose column has the objects of all matches
-- that the rows ask for, the functions, the basic blocks and the instructions.
pub read_matches-IsRecorded :
    (sqlite : Sqlite) (allocate : ℕ → ℕ) (rounds : ℕ) (stmt : sqlite.Stmt) (r : MatchRow)
    (rows : List MatchRow) (column : MatchChainColumn)
    → column.function_filter ≡ filter_none
    → eqb_ℤ r.function_id (negsuc 0) ≡ false
    → eqb_ℤ r.basic_block_id (negsuc 0) ≡ false
    → Yields sqlite stmt (r ∷ rows) complete
    → length (r ∷ rows) < rounds
    → (inserter : MatchChainInserter) × (read_matches sqlite
          (match_receivers allocate)
          rounds
          stmt
          (negsuc 0)
          (negsuc 0)
          0
          (new_inserter column)
        ≡ some (ok inserter))
      × All (IsRecorded inserter.column) (calls (negsuc 0) (negsuc 0) (r ∷ rows))
read_matches-IsRecorded sqlite allocate rounds stmt r rows column none_ p q y lt = (
  replay (match_receivers allocate) (calls (negsuc 0) (negsuc 0) (r ∷ rows)) (new_inserter column),
  read_matches-replay sqlite (match_receivers allocate) rounds stmt (r ∷ rows) complete (negsuc 0)
      (negsuc 0) 0 (new_inserter column) y lt refl,
  (replay-IsRecorded allocate (calls (negsuc 0) (negsuc 0) (r ∷ rows)) (new_inserter column) false
      false none_ refl refl (first_calls-IsOrdered r rows p q)).0,
)
