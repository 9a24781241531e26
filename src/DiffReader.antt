-- ===== src/DiffReader.antt =====
-- vxsig/diff_result_reader.cc: `ParseBinDiff`. SQLite is a parameter. The counter `col` of the
-- columns is a natural number: a file has fewer than 2^28 rows.
pub mod Rows
pub mod Texts
pub mod Enough
use vxsig.Prelude.{
  ℕ, zero, suc, ◌+◌, ◌%◌, Bool, true, false, List, [], ◌∷◌, Option, none, some, ℤ, pos, negsuc,
  to_size, eqb_ℤ, if◌then◌else◌,
}
use vxsig.Signature.{
  Bytes, Status, invalid_argument, failed_precondition, internal_error, Result, ok, failed,
  undefined, ◌>>=ᵣ◌, and_then,
}

-- The three statements of the query text.
pub data Query : Type 0 where
  metadata_query file_query match_query : Query

-- SQLITE_ROW, SQLITE_DONE, or an error.
pub data StepResult : Type 0 where
  row finished step_error : StepResult

pub data Stepped (Stmt : Type 0) : Type 0 where
  stepped : StepResult → Stmt → Stepped Stmt

-- The functions of SQLite that are called; `none` and `false` are results other than SQLITE_OK. A
-- text column is `none` where the pointer is null.
pub record Sqlite : Type 1 where
  pub Db : Type 0
  pub Stmt : Type 0
  pub open_v2 : Bytes → Option Db
  pub prepare_v2 : Db → Query → Option Stmt
  pub bind_int : Stmt → ℤ → Option Stmt
  pub step : Stmt → Stepped Stmt
  pub reset : Stmt → Stmt
  pub finalize : Stmt → Bool
  pub column_int : Stmt → ℕ → ℤ
  pub column_int64 : Stmt → ℕ → ℤ
  pub column_text : Stmt → ℕ → Option Bytes

pub record FileMetaData : Type 0 where
  pub filename : Bytes
  pub original_filename : Bytes
  pub original_hash : Bytes

-- What the loop reads of a row of the result.
pub record MatchRow : Type 0 where
  pub function_id : ℤ
  pub function_match : ℕ × ℕ
  pub basic_block_id : ℤ
  pub basic_block_match : ℕ × ℕ
  pub instruction_match : ℕ × ℕ

-- The callbacks, which change an `S`. The one for instructions may be empty.
pub record Receivers (S : Type 0) : Type 0 where
  pub function_match_receiver : S → ℕ × ℕ → S
  pub basic_block_match_receiver : S → ℕ × ℕ → S
  pub instruction_match_receiver : Option (S → ℕ × ℕ → S)

-- The first metadata are there where the caller asks for them.
pub data Parsed (S : Type 0) : Type 0 where
  parsed : S → Option (FileMetaData × FileMetaData) → Parsed S

-- The call for an instruction, if the callback is not empty.
abbrev pub receive_instruction : {S : Type 0} → Option (S → ℕ × ℕ → S) → S → ℕ × ℕ → S
receive_instruction none s from_match = s
receive_instruction (some receiver) s from_match = receiver s from_match

abbrev pub num_match_cols : ℕ
num_match_cols = 8

module _ (sqlite : Sqlite) where
  -- The columns that are read behind `col` others, of this row and of those before.
  pub read_row : sqlite.Stmt → ℕ → MatchRow
  read_row stmt col = record {
    function_id = sqlite.column_int stmt (col % num_match_cols);
    function_match = (
      to_size (sqlite.column_int64 stmt ((col + 1) % num_match_cols)),
      to_size (sqlite.column_int64 stmt ((col + 2) % num_match_cols)),
    );
    basic_block_id = sqlite.column_int stmt ((col + 3) % num_match_cols);
    basic_block_match = (
      to_size (sqlite.column_int64 stmt ((col + 4) % num_match_cols)),
      to_size (sqlite.column_int64 stmt ((col + 5) % num_match_cols)),
    );
    instruction_match = (
      to_size (sqlite.column_int64 stmt ((col + 6) % num_match_cols)),
      to_size (sqlite.column_int64 stmt ((col + 7) % num_match_cols)),
    );
  }

  -- `std::string::assign` of a text; undefined for a null pointer.
  pub text_of : sqlite.Stmt → ℕ → Result Bytes
  text_of stmt column = elim (sqlite.column_text stmt column) as (λ _. Result Bytes) [
    | none ↦ undefined
    | some text ↦ ok text
  ]

  pub read_metadata : sqlite.Stmt → Result FileMetaData
  unfolding text_of
  read_metadata stmt = text_of stmt 0 >>=ᵣ λ filename. text_of stmt 1 >>=ᵣ λ original_filename.
      text_of stmt 2 >>=ᵣ λ original_hash. ok (record {
        filename = filename;
        original_filename = original_filename;
        original_hash = original_hash;
      })

  -- `sqlite3_step(stmt) != SQLITE_ROW` is an error.
  pub step_row : sqlite.Stmt → Result sqlite.Stmt
  step_row stmt = elim (sqlite.step stmt) as (λ _. Result sqlite.Stmt) [
    | stepped result stmt' ↦ elim result as (λ _. Result sqlite.Stmt) [
      | row ↦ ok stmt'
      | finished ↦ failed internal_error
      | step_error ↦ failed internal_error
    ]
  ]

  pub prepare : sqlite.Db → Query → Result sqlite.Stmt
  prepare db query = elim (sqlite.prepare_v2 db query) as (λ _. Result sqlite.Stmt) [
    | none ↦ failed internal_error
    | some stmt ↦ ok stmt
  ]

  pub bind : sqlite.Stmt → ℤ → Result sqlite.Stmt
  bind stmt file_id = elim (sqlite.bind_int stmt file_id) as (λ _. Result sqlite.Stmt) [
    | none ↦ failed internal_error
    | some stmt' ↦ ok stmt'
  ]

  pub finalize_ok : sqlite.Stmt → Result (Unit {0})
  finalize_ok stmt = if sqlite.finalize stmt then ok tt else failed internal_error

  -- `file1` and `file2`.
  pub read_file_ids : sqlite.Db → Result (ℤ × ℤ)
  unfolding step_row prepare finalize_ok
  read_file_ids db = prepare db metadata_query >>=ᵣ λ stmt. step_row stmt >>=ᵣ λ stmt.
      finalize_ok stmt >>=ᵣ λ _. ok (sqlite.column_int stmt 0, sqlite.column_int stmt 1)

  -- The metadata of the two files, if `metadata` is not null.
  pub read_files : Bool → sqlite.Db → ℤ × ℤ → Result (Option (FileMetaData × FileMetaData))
  unfolding step_row prepare finalize_ok bind read_metadata
  read_files wants_metadata db file_ids = prepare db file_query >>=ᵣ λ stmt.
      bind stmt file_ids.0 >>=ᵣ λ stmt. step_row stmt >>=ᵣ λ stmt.
      let both : Result (Option (FileMetaData × FileMetaData)) = read_metadata stmt >>=ᵣ λ first.
      bind (sqlite.reset stmt) file_ids.1 >>=ᵣ λ stmt. step_row stmt >>=ᵣ λ stmt.
      read_metadata stmt >>=ᵣ λ second. finalize_ok stmt >>=ᵣ λ _. ok (some (first, second)) in
      let neither : Result (Option (FileMetaData × FileMetaData)) =
        finalize_ok stmt >>=ᵣ λ _. ok none in
      if wants_metadata then both else neither

  module _ {S : Type 0} (receivers : Receivers S) where
    -- The callbacks for a row.
    unfoldable pub receive_row : ℤ → ℤ → MatchRow → S → S
    receive_row last_function_id last_basic_block_id r s =
        let in_function =
          if eqb_ℤ r.function_id last_function_id
          then s
          else receivers.function_match_receiver s r.function_match in
        let in_block =
          if eqb_ℤ r.basic_block_id last_basic_block_id
          then in_function
          else receivers.basic_block_match_receiver in_function r.basic_block_match in
        receive_instruction receivers.instruction_match_receiver in_block r.instruction_match

    -- The loop over the rows; `none` where the fuel runs out.
    unfoldable pub read_matches : ℕ → sqlite.Stmt → ℤ → ℤ → ℕ → S → Option (Result S)
    unfolding receive_row read_row
    read_matches zero stmt last_function_id last_basic_block_id col s = none
    read_matches (suc rounds) stmt last_function_id last_basic_block_id col s =
        elim (sqlite.step stmt) as (λ _. Option (Result S)) [
          | stepped result stmt' ↦ elim result as (λ _. Option (Result S)) [
            | finished ↦ some (finalize_ok stmt' >>=ᵣ λ _. ok s)
            | step_error ↦ some (failed failed_precondition)
            | row ↦
                read_matches rounds stmt' (read_row stmt' col).function_id
                  (read_row stmt' col).basic_block_id (col + num_match_cols)
                  (receive_row last_function_id last_basic_block_id (read_row stmt' col) s)
          ]
        ]

    -- `ParseBinDiff`, with `rounds` rounds for the rows.
    unfoldable pub parse_bin_diff : ℕ → Bytes → Bool → S → Option (Result (Parsed S))
    unfolding read_matches read_file_ids read_files prepare
    parse_bin_diff rounds [] wants_metadata s = some (failed invalid_argument)
    parse_bin_diff rounds (c ∷ cs) wants_metadata s =
        elim (sqlite.open_v2 (c ∷ cs)) as (λ _. Option (Result (Parsed S))) [
          | none ↦ some (failed failed_precondition)
          | some db ↦ and_then (some (read_file_ids db)) λ file_ids.
              and_then (some (read_files wants_metadata db file_ids)) λ metadata.
                and_then (some (prepare db match_query)) λ stmt.
                  and_then (read_matches rounds stmt (negsuc 0) (negsuc 0) 0 s)
                    λ s'. some (ok (parsed s' metadata))
        ]
