-- ===== src/DiffReader/Texts.antt =====
-- The statements before the one of the matches: with their texts, no null pointer is read.
use vxsig.Prelude.{
  ℕ, ◌<◌, ◌≡◌, refl, Bool, true, false, some, ℤ, arith, Option-cases, Bool-cases, inl, inr,
}
use vxsig.Signature.{Bytes, Result, ok, ◌>>=ᵣ◌}
use vxsig.Signature.Results.{IsDefined}
use vxsig.DiffReader.{
  metadata_query, file_query, row, finished, step_error, Stepped, stepped, Sqlite, FileMetaData,
  text_of, read_metadata, step_row, prepare, bind, finalize_ok, read_file_ids, read_files,
}

module _ (sqlite : Sqlite) where
  -- A statement of the second query, and what it becomes by the calls.
  pub data OfFileQuery : sqlite.Stmt → Type 0 where
    prepared :
        {db : sqlite.Db} {stmt : sqlite.Stmt}
        → sqlite.prepare_v2 db file_query ≡ some stmt
        → OfFileQuery stmt
    bound :
        {stmt stmt' : sqlite.Stmt} {id : ℤ}
        → OfFileQuery stmt
        → sqlite.bind_int stmt id ≡ some stmt'
        → OfFileQuery stmt'
    stepped_on :
        {stmt stmt' : sqlite.Stmt}
        → OfFileQuery stmt
        → sqlite.step stmt ≡ stepped row stmt'
        → OfFileQuery stmt'
    was_reset : {stmt : sqlite.Stmt} → OfFileQuery stmt → OfFileQuery (sqlite.reset stmt)

  -- The three columns of the row have a text.
  abbrev HasThree : sqlite.Stmt → Type 0
  HasThree stmt = (k : ℕ) → k < 3 → (text : Bytes) × (sqlite.column_text stmt k ≡ some text)

  -- No row of the second query has a null in its columns.
  abbrev pub HasTexts : Type 0
  HasTexts =
      (stmt stmt' : sqlite.Stmt)
      → OfFileQuery stmt
      → sqlite.step stmt ≡ stepped row stmt'
      → (k : ℕ) → k < 3
      → (text : Bytes) × (sqlite.column_text stmt' k ≡ some text)

  text_of-some :
      (stmt : sqlite.Stmt) (k : ℕ) (text : Bytes)
      → sqlite.column_text stmt k ≡ some text
      → text_of sqlite stmt k ≡ ok text
  unfolding text_of
  text_of-some stmt k text e = rw (e, text_of) refl

  module _ {B : Type 0} where
    prepare-IsDefined :
        (db : sqlite.Db) (query : _) (f : sqlite.Stmt → Result B)
        → ((stmt : sqlite.Stmt) → sqlite.prepare_v2 db query ≡ some stmt → IsDefined (f stmt))
        → IsDefined (prepare sqlite db query >>=ᵣ f)
    unfolding prepare
    prepare-IsDefined db query f h = elim (Option-cases (sqlite.prepare_v2 db query)) [
      | inl none_ ↦ rw (none_, prepare) tt
      | inr (stmt, some_) ↦ rw (some_, prepare) (h stmt some_)
    ]

    bind-IsDefined :
        (stmt : sqlite.Stmt) (id : ℤ) (f : sqlite.Stmt → Result B)
        → ((stmt' : sqlite.Stmt) → sqlite.bind_int stmt id ≡ some stmt' → IsDefined (f stmt'))
        → IsDefined (bind sqlite stmt id >>=ᵣ f)
    unfolding bind
    bind-IsDefined stmt id f h = elim (Option-cases (sqlite.bind_int stmt id)) [
      | inl none_ ↦ rw (none_, bind) tt
      | inr (stmt', some_) ↦ rw (some_, bind) (h stmt' some_)
    ]

    step_row-IsDefined :
        (stmt : sqlite.Stmt) (f : sqlite.Stmt → Result B)
        → ((stmt' : sqlite.Stmt) → sqlite.step stmt ≡ stepped row stmt' → IsDefined (f stmt'))
        → IsDefined (step_row sqlite stmt >>=ᵣ f)
    unfolding step_row
    step_row-IsDefined stmt f h = by_result (sqlite.step stmt) refl
      where
        by_result :
            (s : Stepped sqlite.Stmt)
            → sqlite.step stmt ≡ s
            → IsDefined (step_row sqlite stmt >>=ᵣ f)
        by_result (stepped row stmt') e = rw (e, step_row) (h stmt' e)
        by_result (stepped finished stmt') e = rw (e, step_row) tt
        by_result (stepped step_error stmt') e = rw (e, step_row) tt

    finalize_ok-IsDefined :
        (stmt : sqlite.Stmt) (f : Unit {0} → Result B)
        → IsDefined (f tt)
        → IsDefined (finalize_ok sqlite stmt >>=ᵣ f)
    unfolding finalize_ok
    finalize_ok-IsDefined stmt f h = elim (Bool-cases (sqlite.finalize stmt)) [
      | inl done ↦ rw (done, finalize_ok) h
      | inr error ↦ rw (error, finalize_ok) tt
    ]

    read_metadata-IsDefined :
        (stmt : sqlite.Stmt) (f : FileMetaData → Result B)
        → HasThree stmt
        → ((m : FileMetaData) → IsDefined (f m))
        → IsDefined (read_metadata sqlite stmt >>=ᵣ f)
    unfolding read_metadata
    read_metadata-IsDefined stmt f texts h =
        let (a, at_0) = texts 0 (omega arith) in
        let (b, at_1) = texts 1 (omega arith) in
        let (c, at_2) = texts 2 (omega arith) in
        rw
          (
            text_of-some stmt 0 a at_0,
            read_metadata,
            text_of-some stmt 1 b at_1,
            text_of-some stmt 2 c at_2,
          )
          (h _)

  pub read_file_ids-IsDefined : (db : sqlite.Db) → IsDefined (read_file_ids sqlite db)
  unfolding read_file_ids
  read_file_ids-IsDefined db =
      prepare-IsDefined db metadata_query _
        λ stmt _. step_row-IsDefined stmt _ λ stmt' _. finalize_ok-IsDefined stmt' _ tt

  module _ (texts : HasTexts) where
    pub read_files-IsDefined :
        (wants_metadata : Bool) (db : sqlite.Db) (ids : ℤ × ℤ)
        → IsDefined (read_files sqlite wants_metadata db ids)
    unfolding read_files
    read_files-IsDefined true db ids = prepare-IsDefined db file_query _ λ s p.
        bind-IsDefined s ids.0 _ λ s1 b1. step_row-IsDefined s1 _ λ s2 r2.
          read_metadata-IsDefined s2 _ (texts s1 s2 (bound (prepared p) b1) r2) λ m1.
            bind-IsDefined (sqlite.reset s2) ids.1 _ λ s3 b3. step_row-IsDefined s3 _ λ s4 r4.
              read_metadata-IsDefined s4 _
                (texts s3 s4 (bound (was_reset (stepped_on (bound (prepared p) b1) r2)) b3) r4)
                λ m2. finalize_ok-IsDefined s4 _ tt
    read_files-IsDefined false db ids = prepare-IsDefined db file_query _ λ s p.
        bind-IsDefined s ids.0 _
          λ s1 b1. step_row-IsDefined s1 _ λ s2 r2. finalize_ok-IsDefined s2 _ tt
