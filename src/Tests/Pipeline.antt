-- ===== src/Tests/Pipeline.antt =====
-- The way from the files to the signature, on one pair of binaries with a function of two instructions.
use vxsig.Prelude.{
  ℕ, zero, suc, ◌+◌, ◌%◌, ◌^◌, ◌<◌, ◌≡◌, refl, sym, ap, get_elem?, subst, List, [], ◌∷◌, Option,
  some, some-injective, false, negsuc, arith, All, length,
}
use vxsig.Signature.{Bytes, Result, ok}
use vxsig.MatchChain.{empty_column}
use vxsig.MatchChain.Insert.{
  MatchChainInserter, finish_chain, add_function_match, add_basic_block_match,
  add_instruction_match,
}
use vxsig.MatchChain.Insert.Recorded.{IsRecorded}
use vxsig.Siggen.{Chained, add_diff_results_from}
use vxsig.Siggen.Names.{follow_each_other, forms_chain-add_diff_results_from}
use vxsig.Siggen.Recorded.{read_matches-IsRecorded}
use vxsig.MatchChain.Ids.{propagate_ids, build_id_index_from}
use vxsig.MatchChain.Metadata.{add_metadata, add_instruction_data}
use vxsig.Candidates.{filter_basic_block_overlaps}
use vxsig.DiffReader.{MatchRow, read_matches}
use vxsig.DiffReader.Rows.{
  Ending, complete, Yields, yields_end, yields_row, columns, calls, replay, read_matches-replay,
}
use vxsig.DiffReader.Texts.{HasTexts}
use vxsig.DiffReader.Enough.{HasFewerRows}
use vxsig.BinExport.{Instruction, disassemble}
use vxsig.BinExport.Parse.{has_address, cached_address, parse_proto}
use vxsig.BinExport.Parse.Addresses.{InstructionAddresses, direct_address, parse_proto-direct}
use vxsig.BinExport.Operand.{IsOk}
use vxsig.BinExport.Render.{disassemble-IsOk}
use vxsig.Siggen.{new_inserter, match_receivers, column_receivers, forms_chain, parse_diff_results}
use vxsig.Siggen.Chain.{IsChained, parse_diff_results-IsChained}
use vxsig.Siggen.Generate.{Generated, new_table, generate}
use vxsig.Siggen.Generate.Formatted.{format-generate}
use vxsig.Signature.Results.{Returns, IsDefined}
use vxsig.Generic.{is_empty}
use vxsig.Formatter.{yara_formatter, format}
use vxsig.Tests.Instances.{std, printer, no_text, no_flags, hex_address}
use vxsig.Tests.Files.{
  rows_of, match_rows, database, proto, address_of, environment, definition, unsigned, generator,
}

-- The database has fewer than four rows.
database-HasFewerRows : HasFewerRows database 4
database-HasFewerRows db stmt there =
    let same : rows_of match_rows ≡ stmt = some-injective (rows_of match_rows) stmt there in
    subst
      (λ s.
        (found : List MatchRow) × (ending : Ending) × Yields database s found ending
        × (length found < 4))
      same
      (
        _,
        complete,
        yields_row refl (yields_row refl (yields_row refl (yields_end refl refl))),
        omega arith,
      )

-- Its texts are there.
database-HasTexts : HasTexts database
database-HasTexts stmt stmt' of_query stepped_on k below = (_, refl)

parse_diff_results-IsChained_example :
    Returns
      (IsChained 1)
      (parse_diff_results environment ((b'd' ∷ []) ∷ []) (new_table definition ((b'd' ∷ []) ∷ [])))
parse_diff_results-IsChained_example =
    parse_diff_results-IsChained environment database-HasFewerRows database-HasTexts definition
      ((b'd' ∷ []) ∷ [])

read_matches-replay_example :
    read_matches database
      (match_receivers (environment.allocate 0))
      4
      (rows_of match_rows)
      (negsuc 0)
      (negsuc 0)
      0
      (new_inserter empty_column)
    ≡ some (
        ok (
          replay
            (match_receivers (environment.allocate 0))
            (calls (negsuc 0) (negsuc 0) (
              (columns database
                (record { current = 1 ∷ 10 ∷ 10 ∷ 1 ∷ 10 ∷ 10 ∷ 10 ∷ 10 ∷ []; rest = [] }))
              ∷ (columns database
                  (record { current = 1 ∷ 10 ∷ 10 ∷ 1 ∷ 10 ∷ 10 ∷ 12 ∷ 12 ∷ []; rest = [] }))
              ∷ (columns database
                  (record { current = 1 ∷ 10 ∷ 10 ∷ 1 ∷ 10 ∷ 10 ∷ 15 ∷ 15 ∷ []; rest = [] }))
              ∷ []))
            (new_inserter empty_column)))
read_matches-replay_example =
    read_matches-replay database (match_receivers (environment.allocate 0)) 4 (rows_of match_rows) _
      complete (negsuc 0) (negsuc 0) 0 (new_inserter empty_column)
      (yields_row refl (yields_row refl (yields_row refl (yields_end refl refl)))) (omega arith)
      refl

-- The rows of the database.
abbrev found_rows : List MatchRow
found_rows =
    (columns database (record { current = 1 ∷ 10 ∷ 10 ∷ 1 ∷ 10 ∷ 10 ∷ 12 ∷ 12 ∷ []; rest = [] }))
    ∷ (columns database (record { current = 1 ∷ 10 ∷ 10 ∷ 1 ∷ 10 ∷ 10 ∷ 15 ∷ 15 ∷ []; rest = [] }))
    ∷ []

abbrev first_row : MatchRow
first_row =
    columns database (record { current = 1 ∷ 10 ∷ 10 ∷ 1 ∷ 10 ∷ 10 ∷ 10 ∷ 10 ∷ []; rest = [] })

read_matches-IsRecorded_example :
    (inserter : MatchChainInserter) × (read_matches database
        (match_receivers (environment.allocate 0))
        4
        (rows_of match_rows)
        (negsuc 0)
        (negsuc 0)
        0
        (new_inserter empty_column)
      ≡ some (ok inserter))
    × All (IsRecorded inserter.column) (calls (negsuc 0) (negsuc 0) (first_row ∷ found_rows))
read_matches-IsRecorded_example =
    read_matches-IsRecorded database (environment.allocate 0) 4 (rows_of match_rows) first_row
      found_rows empty_column refl refl refl
      (yields_row refl (yields_row refl (yields_row refl (yields_end refl refl)))) (omega arith)

-- Two diffs of which the second does not begin with the second file of the first.
abbrev two_files : List Bytes
two_files = (b'd' ∷ []) ∷ (b'e' ∷ []) ∷ []

abbrev no_chain : Chained
no_chain = record { table = []; diffs = [] }

abbrev chain_of : Option (Result Chained) → Chained
chain_of (some (ok chained)) = chained
chain_of _ = no_chain

abbrev chained : Chained
unfolding add_diff_results_from finish_chain add_function_match add_basic_block_match
    add_instruction_match
chained = chain_of (add_diff_results_from environment 0 two_files (new_table definition two_files))

forms_chain-add_diff_results_from_example :
    (length chained.diffs ≡ length two_files)
    × (forms_chain chained.diffs chained.table ≡ follow_each_other chained.diffs)
unfolding add_diff_results_from finish_chain add_function_match add_basic_block_match
    add_instruction_match
forms_chain-add_diff_results_from_example =
    forms_chain-add_diff_results_from environment two_files (new_table definition two_files) chained
      refl

-- The signature that is generated for the two files.
abbrev default_result : Generated
default_result = record { generator = generator; signature = unsigned }

abbrev result_of : Option (Result Generated) → Generated
result_of (some (ok g)) = g
result_of _ = default_result

abbrev generated : Generated
unfolding generate finish_chain add_function_match add_basic_block_match add_instruction_match
    propagate_ids build_id_index_from disassemble filter_basic_block_overlaps add_metadata
    add_instruction_data forms_chain cached_address
generated = result_of (generate environment generator unsigned)

format-generate_example :
    All (λ p. is_empty p.bytes ≡ false) generated.signature.raw_signature
    × IsDefined (format printer no_text no_flags std yara_formatter generated.signature)
unfolding generate finish_chain add_function_match add_basic_block_match add_instruction_match
    propagate_ids build_id_index_from disassemble filter_basic_block_overlaps add_metadata
    add_instruction_data forms_chain cached_address
format-generate_example =
    format-generate printer no_text no_flags std environment generator unsigned generated
      yara_formatter (omega arith) refl

-- The addresses of the three instructions.
address_of-InstructionAddresses : InstructionAddresses proto address_of
address_of-InstructionAddresses = record { following = follow_ }
  where
    follow_ :
        (i : ℕ) (previous next : Instruction)
        → get_elem? proto.instruction i ≡ some previous
        → get_elem? proto.instruction (i + 1) ≡ some next
        → has_address next ≡ false
        → (address_of i + length previous.raw_bytes) % 2 ^ 64 ≡ address_of (i + 1)
    follow_ zero previous next at_i at_next missing =
        absurd (ground (arith, ap has_address (some-injective _ next at_next)))
    follow_ (suc zero) previous next at_i at_next missing =
        ap (λ (p : Instruction). (12 + length p.raw_bytes) % 2 ^ 64)
          (sym (some-injective _ previous at_i))
    follow_ (suc (suc zero)) previous next at_i at_next missing = absurd (ground arith)
    follow_ (suc (suc (suc i))) previous next at_i at_next missing = absurd (ground arith)

parse_proto-direct_example :
    parse_proto hex_address
      (column_receivers environment)
      proto
      (cached_address address_of)
      empty_column
    ≡ parse_proto hex_address
        (column_receivers environment)
        proto
        (direct_address address_of)
        empty_column
parse_proto-direct_example =
    parse_proto-direct proto address_of hex_address (column_receivers environment)
      address_of-InstructionAddresses
      (λ next at_1. ap has_address (sym (some-injective _ next at_1))) empty_column

disassemble-IsOk_example : IsOk (
    disassemble hex_address proto (record {
      address = some 10;
      mnemonic_index = 0;
      operand_index = 0 ∷ [];
      raw_bytes = 85 ∷ 139 ∷ [];
    }))
disassemble-IsOk_example =
    disassemble-IsOk hex_address proto
      (record {
        address = some 10;
        mnemonic_index = 0;
        operand_index = 0 ∷ [];
        raw_bytes = 85 ∷ 139 ∷ [];
      })
      (b'm' ∷ []) refl ((0 ∷ [], refl, (((_, refl), tt), (_, refl, refl))), tt)
