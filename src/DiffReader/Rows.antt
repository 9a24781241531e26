-- ===== src/DiffReader/Rows.antt =====
-- The rows of a result as a list, and the calls that they ask for.
use vxsig.Prelude.{
  ℕ, zero, suc, ◌+◌, ◌%◌, ◌<◌, ◌≡◌, refl, sym, ap, ◌∙◌, true, false, List, [], ◌∷◌, ◌++◌, some, ℤ,
  to_size, eqb_ℤ, length, arith, Bool-cases, inl, inr, if◌then◌else◌,
}
use vxsig.Signature.{failed_precondition, internal_error, Result, ok, failed}
use vxsig.DiffReader.{
  row, finished, step_error, stepped, Sqlite, MatchRow, Receivers, receive_instruction, read_row,
  finalize_ok, receive_row, read_matches,
}

-- How a result ends: with its last row, with an error of `sqlite3_finalize`, or of `sqlite3_step`.
pub data Ending : Type 0 where
  complete not_finalized broken : Ending

abbrev pub outcome : {A : Type 0} → Ending → A → Result A
outcome complete a = ok a
outcome not_finalized a = failed internal_error
outcome broken a = failed failed_precondition

-- A call of one of the three callbacks.
pub data Call : Type 0 where
  function_match basic_block_match instruction_match : ℕ × ℕ → Call

-- The calls for rows that are ordered by function and basic block: a function and a basic block
-- are announced where they change.
abbrev pub calls : ℤ → ℤ → List MatchRow → List Call
calls function_id basic_block_id [] = []
calls function_id basic_block_id (r ∷ rows) =
    let rest = calls r.function_id r.basic_block_id rows in
    (if eqb_ℤ r.function_id function_id then [] else function_match r.function_match ∷ [])
    ++ (if eqb_ℤ r.basic_block_id basic_block_id
        then []
        else basic_block_match r.basic_block_match ∷ [])
    ++ instruction_match r.instruction_match ∷ rest

module _ {S : Type 0} (receivers : Receivers S) where
  abbrev pub call : Call → S → S
  call (function_match m) s = receivers.function_match_receiver s m
  call (basic_block_match m) s = receivers.basic_block_match_receiver s m
  call (instruction_match m) s = receive_instruction receivers.instruction_match_receiver s m

  abbrev pub replay : List Call → S → S
  replay [] s = s
  replay (c ∷ cs) s = replay cs (call c s)

module _ (sqlite : Sqlite) where
  -- The eight columns of a row, in the order of the query.
  abbrev pub columns : sqlite.Stmt → MatchRow
  columns stmt = record {
    function_id = sqlite.column_int stmt 0;
    function_match = (to_size (sqlite.column_int64 stmt 1), to_size (sqlite.column_int64 stmt 2));
    basic_block_id = sqlite.column_int stmt 3;
    basic_block_match =
        (to_size (sqlite.column_int64 stmt 4), to_size (sqlite.column_int64 stmt 5));
    instruction_match =
        (to_size (sqlite.column_int64 stmt 6), to_size (sqlite.column_int64 stmt 7));
  }

  -- A statement that yields these rows, and ends so.
  pub data Yields : sqlite.Stmt → List MatchRow → Ending → Type 0 where
    yields_end :
        {stmt stmt' : sqlite.Stmt}
        → sqlite.step stmt ≡ stepped finished stmt'
        → sqlite.finalize stmt' ≡ true
        → Yields stmt [] complete
    yields_not_finalized :
        {stmt stmt' : sqlite.Stmt}
        → sqlite.step stmt ≡ stepped finished stmt'
        → sqlite.finalize stmt' ≡ false
        → Yields stmt [] not_finalized
    yields_error :
        {stmt stmt' : sqlite.Stmt}
        → sqlite.step stmt ≡ stepped step_error stmt'
        → Yields stmt [] broken
    yields_row :
        {stmt stmt' : sqlite.Stmt} {rows : List MatchRow} {ending : Ending}
        → sqlite.step stmt ≡ stepped row stmt'
        → Yields stmt' rows ending
        → Yields stmt (columns stmt' ∷ rows) ending

  -- The running column counter is a multiple of eight in front of a row.
  read_row-columns :
      (stmt : sqlite.Stmt) (k : ℕ) → k % 8 ≡ 0 → read_row sqlite stmt k ≡ columns stmt
  unfolding read_row
  read_row-columns stmt k h =
      let e₁ : (k + 1) % 8 ≡ 1 = omega arith in
      let e₂ : (k + 2) % 8 ≡ 2 = omega arith in
      let e₃ : (k + 3) % 8 ≡ 3 = omega arith in
      let e₄ : (k + 4) % 8 ≡ 4 = omega arith in
      let e₅ : (k + 5) % 8 ≡ 5 = omega arith in
      let e₆ : (k + 6) % 8 ≡ 6 = omega arith in
      let e₇ : (k + 7) % 8 ≡ 7 = omega arith in rw (read_row, h, e₁, e₂, e₃, e₄, e₅, e₆, e₇) refl

  module _ {S : Type 0} (receivers : Receivers S) where
    -- The callbacks for a row are the calls for it.
    receive_row-replay :
        (function_id basic_block_id : ℤ) (r : MatchRow) (rows : List MatchRow) (s : S)
        → replay receivers (calls function_id basic_block_id (r ∷ rows)) s
          ≡ replay receivers
              (calls r.function_id r.basic_block_id rows)
              (receive_row sqlite receivers function_id basic_block_id r s)
    unfolding receive_row
    receive_row-replay f b r rows s = elim (Bool-cases (eqb_ℤ r.function_id f)) [
      | inl p ↦ elim (Bool-cases (eqb_ℤ r.basic_block_id b)) [
        | inl q ↦ rw (p, q, receive_row) refl
        | inr q ↦ rw (p, q, receive_row) refl
      ]
      | inr p ↦ elim (Bool-cases (eqb_ℤ r.basic_block_id b)) [
        | inl q ↦ rw (p, q, receive_row) refl
        | inr q ↦ rw (p, q, receive_row) refl
      ]
    ]

    -- With more rounds than rows, for a statement that yields rows of eight columns, the loop calls
    -- the callbacks for the functions and basic blocks that change and for each instruction, in
    -- the order of the rows, and returns as the result ends: without an error, or with that of
    -- `sqlite3_finalize` or `sqlite3_step`.
    pub read_matches-replay :
        (rounds : ℕ) (stmt : sqlite.Stmt) (rows : List MatchRow) (ending : Ending) (f b : ℤ) (k : ℕ)
        (s : S)
        → Yields stmt rows ending
        → length rows < rounds
        → k % 8 ≡ 0
        → read_matches sqlite receivers rounds stmt f b k s
          ≡ some (outcome ending (replay receivers (calls f b rows) s))
    unfolding read_matches finalize_ok
    read_matches-replay zero stmt rows ending f b k s y h m = absurd (omega arith)
    read_matches-replay (suc rounds) stmt rows ending f b k s (yields_end e done) h m =
        rw (e, read_matches, done, finalize_ok) refl
    read_matches-replay (suc rounds) stmt rows ending f b k s (yields_not_finalized e fails) h m =
        rw (e, read_matches, fails, finalize_ok) refl
    read_matches-replay (suc rounds) stmt rows ending f b k s (yields_error e) h m =
        rw (e, read_matches) refl
    read_matches-replay (suc rounds) stmt rows ending f b k s
          (yields_row {stmt' = t} {rows = rest} e y) h m =
        rw (e, read_matches)
          (ap
              (λ r.
                read_matches sqlite receivers rounds t r.function_id r.basic_block_id (k + 8)
                  (receive_row sqlite receivers f b r s))
              (read_row-columns t k m)
            ∙ read_matches-replay rounds t rest ending (columns t).function_id
                (columns t).basic_block_id (k + 8) (receive_row sqlite receivers f b (columns t) s)
                y (omega arith) (omega arith)
            ∙ ap (λ s'. some (outcome ending s')) (sym (receive_row-replay f b (columns t) rest s)))
