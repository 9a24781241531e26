-- ===== src/Candidates/Overlaps.antt =====
-- What `FilterBasicBlockOverlaps` leaves.
use vxsig.Prelude.{
  ℕ, ◌≤◌, ◌<◌, ◌≡◌, refl, sym, subst, Bool, true, false, List, [], ◌∷◌, some, leb, Bool-cases, inl,
  inr, arith, All, All-map, nat_eq,
}
use vxsig.SortedMap.{find}
use vxsig.Subsequence.{Subsequence, done, skip, keep, Subsequence-refl, Subsequence-trans}
use vxsig.MatchChain.{
  MatchedInstruction, MatchedBasicBlock, MatchChainColumn, find_basic_block_by_id,
}
use vxsig.Candidates.{scan_instructions, filter_column, filter_basic_block_overlaps}

module _ (column : MatchChainColumn) where
  -- A pointer to an instruction of the column.
  abbrev pub IsInstruction : ℕ → Type 0
  IsInstruction pointer =
      (instr : MatchedInstruction) × (find column.instructions_by_address pointer ≡ some instr)

  -- The id of a basic block of the column, whose pointers lead to instructions.
  abbrev pub IsBlock : ℕ → Type 0
  IsBlock id =
      (bb : MatchedBasicBlock) × (find_basic_block_by_id column id ≡ some bb)
      × All IsInstruction bb.instructions

  -- The addresses of the instructions ascend strictly from behind the first number to the second one.
  pub data Ascends : ℕ → List ℕ → ℕ → Type 0 where
    ascends_nil : {a : ℕ} → Ascends a [] a
    ascends_cons :
        {a b pointer : ℕ} {pointers : List ℕ} {instr : MatchedInstruction}
        → find column.instructions_by_address pointer ≡ some instr
        → a < instr.matched.address
        → Ascends instr.matched.address pointers b
        → Ascends a (pointer ∷ pointers) b

  -- The basic blocks have ascending instructions, each block behind the one before.
  pub data IsClear : ℕ → List ℕ → Type 0 where
    clear_nil : {a : ℕ} → IsClear a []
    clear_cons :
        {a from to id : ℕ} {ids : List ℕ} {bb : MatchedBasicBlock}
        → find_basic_block_by_id column id ≡ some bb
        → a ≤ from
        → Ascends from bb.instructions to
        → IsClear to ids
        → IsClear a (id ∷ ids)

  Ascends-le : {a b : ℕ} {pointers : List ℕ} → Ascends a pointers b → a ≤ b
  Ascends-le ascends_nil = omega arith
  Ascends-le (ascends_cons e lt p) = omega (arith, Ascends-le p)

  IsClear-weaken : {a b : ℕ} {ids : List ℕ} → a ≤ b → IsClear b ids → IsClear a ids
  IsClear-weaken h clear_nil = clear_nil
  IsClear-weaken h (clear_cons e le p c) = clear_cons e (omega arith) p c

  IsClear-Subsequence :
      {kept ids : List ℕ} (a : ℕ) → Subsequence kept ids → IsClear a ids → IsClear a kept
  IsClear-Subsequence a done c = clear_nil
  IsClear-Subsequence a (skip p) (clear_cons e le q c) =
      IsClear-Subsequence a p (IsClear-weaken (omega (arith, Ascends-le q)) c)
  IsClear-Subsequence a (keep {z} {x} h p) (clear_cons {to} {bb} e le q c) =
      let same : z ≡ x = ground arith in
      clear_cons (subst (λ i. find_basic_block_by_id column i ≡ some bb) (sym same) e) le q
        (IsClear-Subsequence to p c)

  scan_instructions-Ascends :
      (pointers : List ℕ) (last_addr : ℕ)
      → All IsInstruction pointers
      → (skipped : Bool) × (to : ℕ) × (scan_instructions column pointers last_addr
          ≡ some (skipped, to))
        × (last_addr ≤ to)
        × (skipped ≡ false → Ascends last_addr pointers to)
  unfolding scan_instructions
  scan_instructions-Ascends [] last_addr h = (false, last_addr, refl, omega arith, λ _. ascends_nil)
  scan_instructions-Ascends (pointer ∷ pointers) last_addr ((instr, e), h) =
      elim (Bool-cases (leb instr.matched.address last_addr)) [
        | inl low ↦ (
          true,
          last_addr,
          rw (e, scan_instructions, low) refl,
          omega arith,
          λ same. absurd (ground arith),
        )
        | inr high ↦
            let (skipped, to, e', le, asc) =
              scan_instructions-Ascends pointers instr.matched.address h in
            (
              skipped,
              to,
              rw (e, scan_instructions, high) e',
              ground arith,
              λ same. ascends_cons e (ground arith) (asc same),
            )
      ]

  filter_column-IsClear :
      (ids : List ℕ) (last_addr : ℕ)
      → All IsBlock ids
      → (kept : List ℕ) × (filter_column column ids last_addr ≡ some kept)
        × IsClear last_addr kept
        × Subsequence kept ids
  unfolding filter_column
  filter_column-IsClear [] last_addr h = ([], refl, clear_nil, done)
  filter_column-IsClear (id ∷ ids) last_addr ((bb, e, is), h) =
      let (skipped, to, e', le, asc) = scan_instructions-Ascends bb.instructions last_addr is in
      let (kept, e'', clear, sub) = filter_column-IsClear ids to h in
      elim (Bool-cases skipped) [
        | inl dropped ↦
            (kept, rw (e, filter_column, e', e'', dropped) refl, IsClear-weaken le clear, skip sub)
        | inr held ↦ (
          id ∷ kept,
          rw (e, filter_column, e', e'', held) refl,
          clear_cons e (omega arith) (asc held) clear,
          keep (ground arith) sub,
        )
      ]

All-Subsequence :
    (P : ℕ → Type 0) {kept ids : List ℕ} → Subsequence kept ids → All P ids → All P kept
All-Subsequence P done h = tt
All-Subsequence P (skip p) (hx, h) = All-Subsequence P p h
All-Subsequence P (keep {z} {x} e p) (hx, h) =
    let same : z ≡ x = ground arith in (subst P (sym same) hx, All-Subsequence P p h)

-- For ids of basic blocks that every column has, the filter returns some of them, in their order,
-- such that in every column the instructions of each block ascend strictly in address, and each
-- block lies behind the one before it.
pub filter_basic_block_overlaps-IsClear :
    (table : List MatchChainColumn) (ids : List ℕ)
    → All (λ column. All (IsBlock column) ids) table
    → (kept : List ℕ) × (filter_basic_block_overlaps table ids ≡ some kept)
      × All (λ column. IsClear column 0 kept) table
      × Subsequence kept ids
unfolding filter_basic_block_overlaps
filter_basic_block_overlaps-IsClear [] ids h = (ids, refl, tt, Subsequence-refl ids)
filter_basic_block_overlaps-IsClear (column ∷ table) ids (blocks, h) =
    let (left, e, clear, sub) = filter_column-IsClear column ids 0 blocks in
    let (kept, e', clears, sub') =
      filter_basic_block_overlaps-IsClear table left
        (All-map table (λ c all. All-Subsequence (IsBlock c) sub all) h) in
    (
      kept,
      rw (e, filter_basic_block_overlaps) e',
      (IsClear-Subsequence column 0 sub' clear, clears),
      Subsequence-trans sub kept sub',
    )
