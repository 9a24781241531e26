-- ===== src/Siggen/Names.antt =====
-- The test that the files form a chain.
use vxsig.Prelude.{
  ℕ, suc, ◌+◌, ◌≡◌, refl, ap, ap₂, subst, Bool, true, false, ◌&&◌, List, [], ◌∷◌, Option, some,
  Option-cases, inl, inr, length, arith,
}
use vxsig.Signature.{Bytes, same_bytes, Result, ok, and_then}
use vxsig.Signature.Results.{Leaves, Leaves-and_then, Leaves-bind}
use vxsig.MatchChain.{MatchChainColumn, set_filename}
use vxsig.MatchChain.Insert.{finish_chain}
use vxsig.MatchChain.Insert.Filename.{KeepsFilename, finish_chain-KeepsFilename}
use vxsig.DiffReader.{parsed, parse_bin_diff}
use vxsig.Siggen.{
  Environment, match_receivers, new_inserter, filenames, Added, Chained, finish_last, forms_chain,
  add_diff_result, add_diff_results_from,
}

-- The second file of each diff is the first one of the next.
abbrev pub follow_each_other : List (Bytes × Bytes) → Bool
follow_each_other [] = true
follow_each_other (d ∷ []) = true
follow_each_other (d ∷ e ∷ ds) = same_bytes e.0 d.1 && follow_each_other (e ∷ ds)

same_bytes_refl : (b : Bytes) → same_bytes b b ≡ true
same_bytes_refl [] = refl
same_bytes_refl (x ∷ b) = ground (arith, same_bytes_refl b)

-- The columns have the names of the diffs: each the first one, the last the second one.
IsNamed : List (Bytes × Bytes) → List MatchChainColumn → Type 0
IsNamed [] table = Unit
IsNamed (d ∷ ds) [] = ⊥
IsNamed (d ∷ []) (c ∷ []) = ⊥
IsNamed (d ∷ []) (c ∷ n ∷ cs) = (c.filename ≡ d.0) × (n.filename ≡ d.1)
IsNamed (d ∷ e ∷ ds) (c ∷ cs) = (c.filename ≡ d.0) × IsNamed (e ∷ ds) cs

head_named :
    (e : Bytes × Bytes) (ds : List (Bytes × Bytes)) (n : MatchChainColumn)
    (cs : List MatchChainColumn)
    → IsNamed (e ∷ ds) (n ∷ cs)
    → n.filename ≡ e.0
unfolding IsNamed
head_named e [] n [] h = absurd h
head_named e [] n (m ∷ cs) h = h.0
head_named e (d ∷ ds) n cs h = h.0

forms_chain-IsNamed :
    (ds : List (Bytes × Bytes)) (table : List MatchChainColumn)
    → IsNamed ds table
    → forms_chain ds table ≡ follow_each_other ds
unfolding forms_chain IsNamed
forms_chain-IsNamed [] table h = refl
forms_chain-IsNamed (d ∷ ds) [] h = absurd h
forms_chain-IsNamed (d ∷ []) (c ∷ []) h = absurd h
forms_chain-IsNamed (d ∷ []) (c ∷ n ∷ cs) (p, q) =
    rw (p, q, forms_chain, same_bytes_refl d.0, same_bytes_refl d.1) refl
forms_chain-IsNamed (d ∷ e ∷ ds) (c ∷ []) (p, q) = absurd q
forms_chain-IsNamed (d ∷ e ∷ ds) (c ∷ n ∷ cs) (p, q) =
    let named : n.filename ≡ e.0 = head_named e ds n cs q in
    let rest = forms_chain-IsNamed (e ∷ ds) (n ∷ cs) q in
    let first : same_bytes c.filename d.0 ≡ true = rw p (same_bytes_refl d.0) in
    ap₂ (λ a b. a && b) (ap₂ (λ a b. a && b) first (ap (λ b. same_bytes b d.1) named)) rest

-- What `AddDiffResult` leaves of the names.
abbrev NextIsNamed : Bool → Added → Type 0
NextIsNamed true added = added.next.filename ≡ added.diff.1
NextIsNamed false added = Unit

abbrev IsNamedAdded : Bool → Added → Type 0
IsNamedAdded last added = (added.column.filename ≡ added.diff.0) × NextIsNamed last added

finish_last-IsNamedAdded :
    (allocate : ℕ → ℕ) (last : Bool) (names : Bytes × Bytes) (diff_directory : Bytes)
    (column next : MatchChainColumn)
    → Leaves (IsNamedAdded last) (finish_last allocate last names diff_directory column next)
unfolding finish_last
finish_last-IsNamedAdded allocate false names diff_directory column next = (refl, tt)
finish_last-IsNamedAdded allocate true names diff_directory column next =
    let prev = set_filename names.0 diff_directory column in
    let last = set_filename names.1 diff_directory next in
    elim (Option-cases (finish_chain allocate prev last)) [
      | inl none_ ↦ rw (none_, finish_last) tt
      | inr (finished, some_) ↦
          let same : finished.filename ≡ names.1 =
            subst (KeepsFilename last) some_ (finish_chain-KeepsFilename allocate prev last) in
          rw (some_, finish_last) (refl, same)
    ]

module _ (env : Environment) where
  add_diff_result-IsNamedAdded :
      (i : ℕ) (filename : Bytes) (last : Bool) (column next : MatchChainColumn)
      → Leaves (IsNamedAdded last) (add_diff_result env i filename last column next)
  unfolding add_diff_result
  add_diff_result-IsNamedAdded i filename last column next =
      Leaves-and_then (IsNamedAdded last)
        (parse_bin_diff env.sqlite (match_receivers (env.allocate i)) env.rows filename true
          (new_inserter column))
        (λ result. elim result as (λ _. Option (Result Added)) [
          | parsed inserter metadata ↦
              finish_last (env.allocate (i + 1)) last (filenames metadata) (env.dirname filename)
                inserter.column next
        ])
        (λ result.
          elim result
            as (λ r. Leaves (IsNamedAdded last) (elim r as (λ _. Option (Result Added)) [
              | parsed inserter metadata ↦
                  finish_last (env.allocate (i + 1)) last (filenames metadata)
                    (env.dirname filename) inserter.column next
            ])) [
              | parsed inserter metadata ↦
                  finish_last-IsNamedAdded (env.allocate (i + 1)) last (filenames metadata)
                    (env.dirname filename) inserter.column next
            ])

  -- The names of a chain of diffs, one for each file.
  IsNamedChain : ℕ → Chained → Type 0
  IsNamedChain n chained = (length chained.diffs ≡ n) × IsNamed chained.diffs chained.table

  -- A column in front of the rest of the chain.
  IsNamed-cons :
      (n : ℕ) (d : Bytes × Bytes) (c : MatchChainColumn) (ds : List (Bytes × Bytes))
      (cs : List MatchChainColumn)
      → c.filename ≡ d.0
      → length ds ≡ suc n
      → IsNamed ds cs
      → IsNamed (d ∷ ds) (c ∷ cs)
  unfolding IsNamed
  IsNamed-cons n d c [] cs h same named = absurd (omega arith)
  IsNamed-cons n d c (e ∷ ds) cs h same named = (h, named)

  add_diff_results_from-IsNamedChain :
      (i : ℕ) (files : List Bytes) (table : List MatchChainColumn)
      → Leaves (IsNamedChain (length files)) (add_diff_results_from env i files table)
  unfolding add_diff_results_from IsNamedChain IsNamed
  add_diff_results_from-IsNamedChain i [] table = (refl, tt)
  add_diff_results_from-IsNamedChain i (file ∷ files) [] = tt
  add_diff_results_from-IsNamedChain i (file ∷ files) (column ∷ []) = tt
  add_diff_results_from-IsNamedChain i (file ∷ []) (column ∷ next ∷ columns) =
      Leaves-bind (IsNamedAdded true) (IsNamedChain 1) (add_diff_result env i file true column next)
        (λ added.
          some
            (ok (record { table = added.column ∷ added.next ∷ columns; diffs = added.diff ∷ [] })))
        (add_diff_result-IsNamedAdded i file true column next) (λ added h. (refl, h))
  add_diff_results_from-IsNamedChain i (file ∷ f ∷ files) (column ∷ next ∷ columns) =
      let n = length files in
      Leaves-bind (IsNamedAdded false) (IsNamedChain (suc (suc n)))
        (add_diff_result env i file false column next)
        (λ added.
          and_then (add_diff_results_from env (i + 1) (f ∷ files) (added.next ∷ columns)) λ rest.
            some
              (ok (record { table = added.column ∷ rest.table; diffs = added.diff ∷ rest.diffs })))
        (add_diff_result-IsNamedAdded i file false column next)
        (λ added h.
          Leaves-bind (IsNamedChain (suc n)) (IsNamedChain (suc (suc n)))
            (add_diff_results_from env (i + 1) (f ∷ files) (added.next ∷ columns))
            (λ rest.
              some (
                ok (record { table = added.column ∷ rest.table; diffs = added.diff ∷ rest.diffs })))
            (add_diff_results_from-IsNamedChain (i + 1) (f ∷ files) (added.next ∷ columns))
            (λ rest r. (
              ap suc r.0,
              IsNamed-cons n added.diff added.column rest.diffs rest.table h.0 r.0 r.1,
            )))

  -- When the diffs of the files have been read, one pair of names for each, the files are found to form a chain
  -- exactly if the second name of each pair is the first one of the next pair.
  pub forms_chain-add_diff_results_from :
      (files : List Bytes) (table : List MatchChainColumn) (chained : Chained)
      → add_diff_results_from env 0 files table ≡ some (ok chained)
      → (length chained.diffs ≡ length files)
        × (forms_chain chained.diffs chained.table ≡ follow_each_other chained.diffs)
  unfolding IsNamedChain
  forms_chain-add_diff_results_from files table chained e =
      let (same, named) : IsNamedChain (length files) chained =
        subst (Leaves (IsNamedChain (length files))) e
          (add_diff_results_from-IsNamedChain 0 files table) in
      (same, forms_chain-IsNamed chained.diffs chained.table named)
