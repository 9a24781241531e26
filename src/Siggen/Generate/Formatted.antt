-- ===== src/Siggen/Generate/Formatted.antt =====
-- The signature that `Generate` returns, and the formatters.
use vxsig.Prelude.{
  ℕ, ◌<◌, ◌^◌, ◌-◌, ◌≡◌, refl, subst, Bool, false, ◌||◌, List, [], Option, none, some, Option-cases,
  Bool-cases, inl, inr, All, All-map, length, ℤ, pos, ltb_ℤ,
}
use vxsig.Signature.{
  Bytes, Piece, SignatureDefinition, Signature, Result, ok, failed, undefined, and_then,
}
use vxsig.Signature.Results.{IsDefined, IsDefined-bind, Leaves, Leaves-and_then}
use vxsig.Signature.Subset.{Algorithms}
use vxsig.Format.{HexPrinter, MasksFit}
use vxsig.ClamAv
use vxsig.ClamAv.Bounds
use vxsig.Yara
use vxsig.Yara.Tokens
use vxsig.Formatter.{SignatureFormatter, clam_av_formatter, yara_formatter, format}
use vxsig.MatchChain.{MatchChainColumn}
use vxsig.Generic.{ByteWithExtra, is_empty}
use vxsig.Generic.Pieces.{IsRawPiece, to_raw_signature_proto-IsRawPiece}
use vxsig.Generic.Penalty.{penalize_short_atoms}
use vxsig.Generic.Matches.{candidates_regex, penalize_and_convert, generic_signature_from_matches}
use vxsig.Siggen.{Environment, AvSignatureGenerator, parse_diff_results}
use vxsig.Siggen.Generate.{
  new_table, load_column_data, Generated, non_empty, or_stop, compute_candidates, finish_signature,
  fill_signature_metadata, generate_with, generate_without_overlaps, generate_from, generate_loaded,
  generate,
}
use vxsig.Candidates.{filter_basic_block_overlaps}

penalize_and_convert-IsRawPiece :
    (hex : ℕ → Bytes) (min_length : ℤ) (regex : List ByteWithExtra)
    → Leaves (All IsRawPiece) (penalize_and_convert hex min_length regex)
penalize_and_convert-IsRawPiece hex min_length regex =
    elim (Option-cases (penalize_short_atoms min_length regex)) [
      | inl none_ ↦ rw (none_, penalize_and_convert) tt
      | inr (penalized, some_) ↦
          rw (some_, penalize_and_convert) (to_raw_signature_proto-IsRawPiece hex penalized)
    ]

generic_signature_from_matches-IsRawPiece :
    (hex : ℕ → Bytes) (table : List MatchChainColumn) (ids : List ℕ) (masking : Bool)
    (min_length : ℤ)
    → Leaves (All IsRawPiece) (generic_signature_from_matches hex table ids masking min_length)
unfolding generic_signature_from_matches
generic_signature_from_matches-IsRawPiece hex table ids masking min_length =
    elim (Bool-cases (is_empty ids || ltb_ℤ min_length (pos 1))) [
      | inl bad ↦ rw (bad, generic_signature_from_matches) tt
      | inr good ↦
          rw (good, generic_signature_from_matches)
            (Leaves-and_then (All IsRawPiece) (candidates_regex table masking ids [])
              (penalize_and_convert hex min_length)
              (penalize_and_convert-IsRawPiece hex min_length))
    ]

-- The pieces can be formatted, and the name is that of the signature before.
abbrev pub IsFormattable : Signature → Generated → Type 0
IsFormattable signature g =
    All IsRawPiece g.signature.raw_signature
    × (g.signature.definition.detection_name ≡ signature.definition.detection_name)

module _ (env : Environment) (generator : AvSignatureGenerator) (signature : Signature) where
  generate_with-IsFormattable :
      (table : List MatchChainColumn) (ids : List ℕ)
      → Leaves (IsFormattable signature) (generate_with env generator signature table ids)
  unfolding generate_with finish_signature fill_signature_metadata
  generate_with-IsFormattable table ids = after _ (
      generic_signature_from_matches-IsRawPiece env.hex table ids
        signature.definition.disable_nibble_masking signature.definition.min_piece_length)
    where
      after :
          (r : Option (Result (List Piece)))
          → Leaves (All IsRawPiece) r
          → Leaves (IsFormattable signature) (
              and_then r λ raw_signature. some (
                ok (record {
                  generator = record generator {
                    match_chain_table = table;
                    bb_candidate_ids = ids;
                  };
                  signature = finish_signature env signature raw_signature;
                })))
      after none h = tt
      after (some (ok raw)) h = (h, refl)
      after (some (failed s)) h = tt
      after (some undefined) h = tt

  generate_loaded-IsFormattable :
      (table : List MatchChainColumn)
      → Leaves (IsFormattable signature) (generate_loaded env generator signature table)
  unfolding generate_loaded generate_from generate_without_overlaps
  generate_loaded-IsFormattable table =
      let P = IsFormattable signature in
      Leaves-and_then P (load_column_data env table) (generate_from env generator signature)
        λ loaded.
          Leaves-and_then P (compute_candidates env generator.bb_candidate_ids loaded)
            (generate_without_overlaps env generator signature)
            λ computed.
              Leaves-and_then P
                (or_stop (filter_basic_block_overlaps computed.table computed.bb_candidate_ids))
                (λ left.
                  and_then (non_empty left) (generate_with env generator signature computed.table))
                λ left.
                  Leaves-and_then P (non_empty left)
                    (generate_with env generator signature computed.table)
                    (generate_with-IsFormattable computed.table)

  generate-IsFormattable : Leaves (IsFormattable signature) (generate env generator signature)
  unfolding generate
  generate-IsFormattable = elim (Bool-cases (is_empty generator.diff_results)) [
    | inl none_ ↦ rw (none_, generate) tt
    | inr some_ ↦
        rw (some_, generate)
          (Leaves-and_then (IsFormattable signature)
            (parse_diff_results env generator.diff_results
              (new_table signature.definition generator.diff_results))
            (generate_loaded env generator signature) generate_loaded-IsFormattable)
  ]

module _ (hex : HexPrinter) (to_string : ℤ → Bytes) (flags : Yara.DebugFlags)
    (std : Algorithms) where
  yara_text-IsDefined :
      (definition : SignatureDefinition) (raw : List Piece) (r : Result Bytes)
      → Yara.Tokens.Outcome hex to_string flags std definition raw r
      → IsDefined r
  yara_text-IsDefined definition raw (ok text) h = tt
  yara_text-IsDefined definition raw (failed s) h = tt
  yara_text-IsDefined definition raw undefined h = h

  clam_av_text-IsDefined :
      (definition : SignatureDefinition) (raw : List Piece) (r : Result Bytes)
      → ClamAv.Bounds.Outcome hex std definition raw r
      → IsDefined r
  clam_av_text-IsDefined definition raw (ok text) h = tt
  clam_av_text-IsDefined definition raw (failed s) h = tt
  clam_av_text-IsDefined definition raw undefined h = h

  format-IsDefined :
      (formatter : SignatureFormatter) (signature : Signature)
      → All MasksFit signature.raw_signature
      → length signature.definition.detection_name < 2 ^ 31 - 8
      → IsDefined (format hex to_string flags std formatter signature)
  unfolding format
  format-IsDefined clam_av_formatter signature fit short =
      IsDefined-bind (ClamAv.do_format hex std signature.definition signature.raw_signature)
        (λ text. ok (record signature { clam_av_data = text }))
        (clam_av_text-IsDefined signature.definition signature.raw_signature _ (
          ClamAv.Bounds.do_format-Outcome hex std signature.definition signature.raw_signature fit
            short))
        (λ text. tt)
  format-IsDefined yara_formatter signature fit short =
      IsDefined-bind
        (Yara.do_format hex to_string flags std signature.definition signature.raw_signature)
        (λ text. ok (record signature { yara_data = text }))
        (yara_text-IsDefined signature.definition signature.raw_signature _ (
          Yara.Tokens.rule-Outcome hex to_string flags std signature.definition
            signature.raw_signature fit))
        (λ text. tt)

  -- Formatting a signature that `Generate` has returned, for one with a name below 2 ^ 31 - 8 bytes, is free of
  -- undefined behaviour in either format: no store leaves the text. No piece of the signature is empty.
  pub format-generate :
      (env : Environment) (generator : AvSignatureGenerator) (signature : Signature) (g : Generated)
      (formatter : SignatureFormatter)
      → length signature.definition.detection_name < 2 ^ 31 - 8
      → generate env generator signature ≡ some (ok g)
      → All (λ p. is_empty p.bytes ≡ false) g.signature.raw_signature
        × IsDefined (format hex to_string flags std formatter g.signature)
  format-generate env generator signature g formatter short e =
      let (pieces, name) : IsFormattable signature g =
        subst (Leaves (IsFormattable signature)) e
          (generate-IsFormattable env generator signature) in
      (
        All-map g.signature.raw_signature (λ p h. h.0) pieces,
        format-IsDefined formatter g.signature
            (All-map g.signature.raw_signature (λ p h. h.1) pieces) (rw name short),
      )
