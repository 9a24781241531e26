-- ===== src/DiffReader/Enough.antt =====
-- With enough rounds for the rows, and with texts that are there, `ParseBinDiff` returns, and keeps
-- what its callbacks keep.
use vxsig.Prelude.{
  ℕ, ◌<◌, ◌≡◌, refl, Bool, List, [], ◌∷◌, Option, some, negsuc, length, Option-cases, inl, inr,
}
use vxsig.Signature.{Bytes, Result, ok, and_then}
use vxsig.Signature.Results.{IsDefined-Returns, Returns, Any, Returns-and_then}
use vxsig.DiffReader.{
  FileMetaData, Sqlite, MatchRow, Receivers, receive_instruction, Parsed, parsed, match_query,
  prepare, read_file_ids, read_files, read_matches, parse_bin_diff,
}
use vxsig.DiffReader.Texts.{HasTexts, read_file_ids-IsDefined, read_files-IsDefined}
use vxsig.DiffReader.Rows.{
  Ending, complete, not_finalized, broken, outcome, Call, function_match, basic_block_match,
  instruction_match, calls, call, replay, Yields, read_matches-replay,
}

-- A result of the third statement has fewer than `rows` rows.
abbrev pub HasFewerRows : Sqlite → ℕ → Type 0
HasFewerRows sqlite rows =
    (db : sqlite.Db) (stmt : sqlite.Stmt)
    → sqlite.prepare_v2 db match_query ≡ some stmt
    → (found : List MatchRow) × (ending : Ending) × Yields sqlite stmt found ending
      × (length found < rows)

module _ {S : Type 0} (P : S → Type 0) (receivers : Receivers S) where
  -- The callbacks keep `P`.
  pub record IsKept : Type 0 where
    pub function_kept : (s : S) (m : ℕ × ℕ) → P s → P (receivers.function_match_receiver s m)
    pub basic_block_kept : (s : S) (m : ℕ × ℕ) → P s → P (receivers.basic_block_match_receiver s m)
    pub instruction_kept :
        (s : S) (m : ℕ × ℕ) → P s → P (receive_instruction receivers.instruction_match_receiver s m)

  abbrev pub IsKeptParsed : Parsed S → Type 0
  IsKeptParsed (parsed s metadata) = P s

  module _ (kept : IsKept) where
    call-kept : (c : Call) (s : S) → P s → P (call receivers c s)
    call-kept (function_match m) s p = kept.function_kept s m p
    call-kept (basic_block_match m) s p = kept.basic_block_kept s m p
    call-kept (instruction_match m) s p = kept.instruction_kept s m p

    replay-kept : (cs : List Call) (s : S) → P s → P (replay receivers cs s)
    replay-kept [] s p = p
    replay-kept (c ∷ cs) s p = replay-kept cs (call receivers c s) (call-kept c s p)

    outcome-kept : (ending : Ending) (s : S) → P s → Returns P (some (outcome ending s))
    outcome-kept complete s p = p
    outcome-kept not_finalized s p = tt
    outcome-kept broken s p = tt

    module _ (sqlite : Sqlite) (rows : ℕ) (fewer : HasFewerRows sqlite rows)
        (texts : HasTexts sqlite) where
      abbrev after_metadata :
          S → sqlite.Db → Option (FileMetaData × FileMetaData) → Option (Result (Parsed S))
      after_metadata s db metadata = and_then (some (prepare sqlite db match_query)) λ stmt.
          and_then (read_matches sqlite receivers rows stmt (negsuc 0) (negsuc 0) 0 s)
            λ s'. some (ok (parsed s' metadata))

      matches-kept :
          (db : sqlite.Db) (metadata : Option (FileMetaData × FileMetaData)) (s : S)
          → P s
          → Returns IsKeptParsed (after_metadata s db metadata)
      unfolding prepare
      matches-kept db metadata s p = elim (Option-cases (sqlite.prepare_v2 db match_query)) [
        | inl none_ ↦ rw (none_, prepare) tt
        | inr (stmt, some_) ↦
            let (found, ending, y, lt) = fewer db stmt some_ in
            let e =
              read_matches-replay sqlite receivers rows stmt found ending (negsuc 0) (negsuc 0) 0 s
                y lt refl in
            rw (some_, prepare, e)
              (Returns-and_then P IsKeptParsed
                (some (outcome ending (replay receivers (calls (negsuc 0) (negsuc 0) found) s)))
                (λ s'. some (ok (parsed s' metadata)))
                (outcome-kept ending _ (replay-kept (calls (negsuc 0) (negsuc 0) found) s p))
                (λ s' p'. p'))
      ]

      pub parse_bin_diff-kept :
          (filename : Bytes) (wants_metadata : Bool) (s : S)
          → P s
          → Returns IsKeptParsed (parse_bin_diff sqlite receivers rows filename wants_metadata s)
      unfolding parse_bin_diff
      parse_bin_diff-kept [] wants_metadata s p = tt
      parse_bin_diff-kept (c ∷ cs) wants_metadata s p =
          elim (Option-cases (sqlite.open_v2 (c ∷ cs))) [
            | inl none_ ↦ rw (none_, parse_bin_diff) tt
            | inr (db, some_) ↦
                rw (some_, parse_bin_diff)
                  (Returns-and_then Any IsKeptParsed (some (read_file_ids sqlite db))
                    (λ file_ids.
                      and_then (some (read_files sqlite wants_metadata db file_ids))
                        (after_metadata s db))
                    (IsDefined-Returns (read_file_ids sqlite db)
                      (read_file_ids-IsDefined sqlite db))
                    (λ file_ids _.
                      Returns-and_then Any IsKeptParsed
                        (some (read_files sqlite wants_metadata db file_ids)) (after_metadata s db)
                        (IsDefined-Returns (read_files sqlite wants_metadata db file_ids)
                          (read_files-IsDefined sqlite texts wants_metadata db file_ids))
                        (λ metadata _. matches-kept db metadata s p)))
          ]
