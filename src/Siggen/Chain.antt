-- ===== src/Siggen/Chain.antt =====
-- `ParseDiffResults` does not stop the process, and no pointer of the table dangles.
use vxsig.Prelude.{
  ℕ, suc, ◌+◌, ◌≡◌, refl, ap, Bool, true, false, List, [], ◌∷◌, Option, some, if◌then◌else◌,
  Bool-cases, inl, inr, All, All-map, length, arith,
}
use vxsig.Signature.{Bytes, SignatureDefinition, failed_precondition, Result, ok, failed, and_then}
use vxsig.Signature.Results.{Returns, Returns-and_then}
use vxsig.MatchChain.{
  MatchChainColumn, empty_column, set_filename, add_filtered_function, set_function_filter,
}
use vxsig.MatchChain.Insert.Linked.{IsLinked, IsLinkedInserter, inserter-IsLinked}
use vxsig.MatchChain.Insert.Finish.{IsReady, finish_chain-IsReady}
use vxsig.DiffReader.{parsed, parse_bin_diff}
use vxsig.DiffReader.Texts.{HasTexts}
use vxsig.DiffReader.Enough.{HasFewerRows, IsKept, IsKeptParsed, parse_bin_diff-kept}
use vxsig.Generic.{is_empty}
use vxsig.Siggen.{
  Environment, match_receivers, new_inserter, filenames, Added, Chained, finish_last, forms_chain,
  add_filtered_functions, filtered_column, add_diff_result, add_diff_results_from,
  parse_diff_results,
}
use vxsig.Siggen.Generate.{empty_columns, new_table}

add_filtered_functions-IsLinked :
    (addresses : List ℕ) (column : MatchChainColumn)
    → IsLinked column
    → IsLinked (add_filtered_functions addresses column)
add_filtered_functions-IsLinked [] column linked = linked
add_filtered_functions-IsLinked (address ∷ addresses) column linked =
    add_filtered_functions-IsLinked addresses (add_filtered_function address column)
      (record { functions = linked.functions; blocks = linked.blocks })

filtered_column-IsLinked :
    (definition : SignatureDefinition) → IsLinked (filtered_column definition)
filtered_column-IsLinked definition =
    add_filtered_functions-IsLinked definition.filtered_function_address
      (set_function_filter definition.function_filter empty_column)
      (record { functions = tt; blocks = tt })

empty_columns-IsReady : (files : List Bytes) → All IsReady (empty_columns files)
empty_columns-IsReady [] = tt
empty_columns-IsReady (file ∷ files) = (
  record { linked = record { functions = tt; blocks = tt }; unfiltered = refl },
  empty_columns-IsReady files,
)

length-empty_columns : (files : List Bytes) → length (empty_columns files) ≡ length files
length-empty_columns [] = refl
length-empty_columns (file ∷ files) = ap suc (length-empty_columns files)

match_receivers-IsKept : (allocate : ℕ → ℕ) → IsKept IsLinkedInserter (match_receivers allocate)
match_receivers-IsKept allocate = record {
  function_kept = λ inserter m linked. (inserter-IsLinked 0 inserter m linked).0;
  basic_block_kept = λ inserter m linked. (inserter-IsLinked 0 inserter m linked).1;
  instruction_kept = λ inserter m linked. (inserter-IsLinked (allocate m.0) inserter m linked).2;
}

new_inserter-IsLinked :
    (column : MatchChainColumn) → IsLinked column → IsLinkedInserter (new_inserter column)
new_inserter-IsLinked column linked = record {
  column = linked;
  current_function = tt;
  current_basic_block = tt;
}

-- The names are no pointers.
set_filename-IsLinked :
    (filename diff_directory : Bytes) (column : MatchChainColumn)
    → IsLinked column
    → IsLinked (set_filename filename diff_directory column)
set_filename-IsLinked filename diff_directory column linked = record {
  functions = linked.functions;
  blocks = linked.blocks;
}

set_filename-IsReady :
    (filename diff_directory : Bytes) (column : MatchChainColumn)
    → IsReady column
    → IsReady (set_filename filename diff_directory column)
set_filename-IsReady filename diff_directory column ready = record {
  linked = set_filename-IsLinked filename diff_directory column ready.linked;
  unfiltered = ready.unfiltered;
}

abbrev IsAdded : Added → Type 0
IsAdded added = IsLinked added.column × IsReady added.next

finish_last-IsAdded :
    (allocate : ℕ → ℕ) (last : Bool) (names : Bytes × Bytes) (diff_directory : Bytes)
    (column next : MatchChainColumn)
    → IsLinked column
    → IsReady next
    → Returns IsAdded (finish_last allocate last names diff_directory column next)
unfolding finish_last
finish_last-IsAdded allocate false names diff_directory column next linked ready =
    (set_filename-IsLinked names.0 diff_directory column linked, ready)
finish_last-IsAdded allocate true names diff_directory column next linked ready =
    let linked' = set_filename-IsLinked names.0 diff_directory column linked in
    let (next', returned, ready', has) =
      finish_chain-IsReady allocate (set_filename names.0 diff_directory column)
        (set_filename names.1 diff_directory next) linked'
        (set_filename-IsReady names.1 diff_directory next ready) in
    rw (returned, finish_last) (linked', ready')

-- The columns without dangling pointers, one more than there are pairs of names.
pub record IsChained (n : ℕ) (table : List MatchChainColumn) : Type 0 where
  pub all_linked : All IsLinked table
  pub one_more : length table ≡ suc n

abbrev IsChainedRest : ℕ → Chained → Type 0
IsChainedRest n chained = IsChained n chained.table

module _ (env : Environment) (fewer : HasFewerRows env.sqlite env.rows)
    (texts : HasTexts env.sqlite) where
  add_diff_result-IsAdded :
      (i : ℕ) (filename : Bytes) (last : Bool) (column next : MatchChainColumn)
      → IsLinked column
      → IsReady next
      → Returns IsAdded (add_diff_result env i filename last column next)
  unfolding add_diff_result
  add_diff_result-IsAdded i filename last column next linked ready =
      let receivers = match_receivers (env.allocate i) in
      Returns-and_then (IsKeptParsed IsLinkedInserter receivers) IsAdded
        (parse_bin_diff env.sqlite receivers env.rows filename true (new_inserter column))
        (λ result. elim result as (λ _. Option (Result Added)) [
          | parsed inserter metadata ↦
              finish_last (env.allocate (i + 1)) last (filenames metadata) (env.dirname filename)
                inserter.column next
        ])
        (parse_bin_diff-kept IsLinkedInserter receivers (match_receivers-IsKept (env.allocate i))
          env.sqlite env.rows fewer texts filename true (new_inserter column)
          (new_inserter-IsLinked column linked))
        (λ result kept.
          elim result
              as (λ r.
                IsKeptParsed IsLinkedInserter receivers r
                → Returns IsAdded (elim r as (λ _. Option (Result Added)) [
                  | parsed inserter metadata ↦
                      finish_last (env.allocate (i + 1)) last (filenames metadata)
                        (env.dirname filename) inserter.column next
                ])) [
                  | parsed inserter metadata ↦ λ kept'.
                      finish_last-IsAdded (env.allocate (i + 1)) last (filenames metadata)
                        (env.dirname filename) inserter.column next kept'.column ready
                ]
            kept)

  add_diff_results_from-IsChained :
      (i : ℕ) (files : List Bytes) (column : MatchChainColumn) (columns : List MatchChainColumn)
      → IsLinked column
      → All IsReady columns
      → length columns ≡ length files
      → Returns
          (IsChainedRest (length files))
          (add_diff_results_from env i files (column ∷ columns))
  unfolding add_diff_results_from
  add_diff_results_from-IsChained i [] column columns linked ready same = record {
    all_linked = (linked, All-map columns (λ c r. r.linked) ready);
    one_more = ap suc same;
  }
  add_diff_results_from-IsChained i (file ∷ files) column [] linked ready same =
      absurd (omega arith)
  add_diff_results_from-IsChained i (file ∷ files) column (next ∷ columns) linked (r, ready) same =
      Returns-and_then IsAdded (IsChainedRest (suc (length files)))
        (add_diff_result env i file (is_empty files) column next)
        (λ added. and_then (add_diff_results_from env (i + 1) files (added.next ∷ columns)) λ rest.
          some (ok (record { table = added.column ∷ rest.table; diffs = added.diff ∷ rest.diffs })))
        (add_diff_result-IsAdded i file (is_empty files) column next linked r)
        (λ added h.
          Returns-and_then (IsChainedRest (length files)) (IsChainedRest (suc (length files)))
            (add_diff_results_from env (i + 1) files (added.next ∷ columns))
            (λ rest.
              some (
                ok (record { table = added.column ∷ rest.table; diffs = added.diff ∷ rest.diffs })))
            (add_diff_results_from-IsChained (i + 1) files added.next columns h.1.linked ready
              (omega arith))
            (λ rest c. record { all_linked = (h.0, c.all_linked); one_more = ap suc c.one_more }))

  -- Where each result has fewer rows than there are rounds and no file of a result has a null text,
  -- `ParseDiffResults` neither stops the process nor has undefined behaviour on the table that
  -- `Generate` makes: the CHECK of `FinishChain` never fails, and there is a next column for each
  -- file. If it succeeds, there is one column more than there are files, and no pointer of a column
  -- dangles.
  pub parse_diff_results-IsChained :
      (definition : SignatureDefinition) (files : List Bytes)
      → Returns
          (IsChained (length files))
          (parse_diff_results env files (new_table definition files))
  unfolding parse_diff_results
  parse_diff_results-IsChained definition files =
      Returns-and_then (IsChainedRest (length files)) (IsChained (length files))
        (add_diff_results_from env 0 files (new_table definition files))
        (λ chained.
          if forms_chain chained.diffs chained.table
          then some (ok chained.table)
          else some (failed failed_precondition))
        (add_diff_results_from-IsChained 0 files (filtered_column definition) (empty_columns files)
          (filtered_column-IsLinked definition) (empty_columns-IsReady files)
          (length-empty_columns files))
        (λ chained h. elim (Bool-cases (forms_chain chained.diffs chained.table)) [
          | inl yes_ ↦ rw yes_ h
          | inr no_ ↦ rw no_ tt
        ])
