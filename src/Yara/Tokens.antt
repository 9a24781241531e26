-- ===== src/Yara/Tokens.antt =====
-- A YARA rule keeps to the limit of tokens, and its masks stay in it.
use vxsig.Prelude.{
  ℕ, ◌≤◌, ◌≡◌, refl, sym, subst, ap, ◌∙◌, inl, inr, false, List, [], ◌∷◌, ◌++◌, append-nil,
  append_assoc, ℤ, arith, Bool-cases, length-take, All, All-map,
}
use vxsig.Signature.{Bytes, Piece, SignatureDefinition, Result, ok, failed, undefined, ◌>>=ᵣ◌}
use vxsig.Signature.Subset.{Algorithms, get_relevant_signature_subset}
use vxsig.Signature.Subset.Selected
use vxsig.Format.{HexPrinter, MasksFit}
use vxsig.Format.Copied.{copied-MasksFit}
use vxsig.Yara.Text.{condition_text}
use vxsig.Yara.{
  DebugFlags, yara_min_tokens, HexString, rule_head, copy_budget, is_exhausted, append_pieces,
  do_format,
}
use vxsig.Yara.Lines.{
  Lines, IsWithin, budget_room, no_room, no_piece, cut_off, added, append_piece-added,
  added-IsWithin,
}
use vxsig.Yara.Head.{Head, rule_head-Head}

module _ (hex : HexPrinter) (to_string : ℤ → Bytes) (flags : DebugFlags) where
  -- From a number of tokens that keeps to the limit of 5000, and with masks that lie in their
  -- pieces, the loop over the pieces ends. The text is longer at its end only, by the lines of the
  -- pieces up to the limit, with a wildcard in front of each, but of the first one only if it is
  -- due. The number of tokens grows by one for each wildcard and for each byte in these lines, and
  -- keeps to the limit.
  pub append_pieces-IsWithin :
      (pieces : List Piece) (s : HexString)
      → All MasksFit pieces
      → s.num_hex_string_tokens ≤ 5000
      → (t : HexString) × (append_pieces hex to_string flags pieces s ≡ ok t)
        × IsWithin hex to_string flags pieces s t
  unfolding append_pieces
  append_pieces-IsWithin [] s fit le = (s, refl, (le, ([], sym (append-nil s.data_), no_piece)))
  append_pieces-IsWithin (piece ∷ pieces) s fit le =
      elim (Bool-cases (is_exhausted s.num_hex_string_tokens s.needs_wildcard)) [
        | inl over ↦ (
          s,
          rw over refl,
          (
            le,
            (
              [],
              sym (append-nil s.data_),
              cut_off (no_room s.num_hex_string_tokens s.needs_wildcard over),
            ),
          ),
        )
        | inr more ↦
            let (digits, e, masked) = append_piece-added hex to_string flags piece s fit.0 in
            let room = budget_room s.num_hex_string_tokens s.needs_wildcard more in
            let budget = copy_budget s.num_hex_string_tokens s.needs_wildcard in
            let (u, e', within) =
              append_pieces-IsWithin pieces (added hex to_string flags piece s digits) fit.1
                (omega (arith, length-take budget piece.bytes)) in
            (
              u,
              rw (more, e) e',
              added-IsWithin hex to_string flags piece pieces s u digits more masked within,
            )
      ]

  module _ (std : Algorithms) (definition : SignatureDefinition) (raw : List Piece) where
    -- How `DoFormat` ends: with the head of the rule, the lines of the pieces that are selected, and
    -- the condition; or with the error of the selection.
    abbrev pub Outcome : Result Bytes → Type 0
    Outcome (ok text) =
        (subset : List Piece) × (head body : Bytes) × (num : ℕ) × (get_relevant_signature_subset raw
            std definition yara_min_tokens
          ≡ ok subset)
        × Head to_string definition head
        × Lines hex to_string flags 0 false subset num body
        × (num ≤ 5000)
        × (text ≡ head ++ (body ++ condition_text))
    Outcome (failed s) = get_relevant_signature_subset raw std definition yara_min_tokens ≡ failed s
    Outcome undefined = ⊥

    abbrev initial : HexString
    initial = record {
      data_ = rule_head to_string definition;
      num_hex_string_tokens = 0;
      needs_wildcard = false;
    }

    subset-Outcome :
        (r : Result (List Piece))
        → get_relevant_signature_subset raw std definition yara_min_tokens ≡ r
        → Selected.Outcome raw std definition yara_min_tokens r
        → All MasksFit raw
        → Outcome (
            r >>=ᵣ λ subset. append_pieces hex to_string flags subset initial >>=ᵣ λ s.
            ok (s.data_ ++ condition_text))
    subset-Outcome (ok out) e (b, (js, subset)) fit =
        let (t, returned, (le, (body, grown, lines))) =
          append_pieces-IsWithin out initial
            (subst (All MasksFit) (sym subset.copied)
              (copied-MasksFit raw js (All-map js (λ i. (λ h. h.0)) subset.relevant) fit))
            (omega arith) in
        rw returned (
          out,
          rule_head to_string definition,
          body,
          t.num_hex_string_tokens,
          e,
          rule_head-Head to_string definition,
          lines,
          le,
          ap (λ d. d ++ condition_text) grown
              ∙ append_assoc (rule_head to_string definition) body condition_text,
        )
    subset-Outcome (failed s) e h fit = e
    subset-Outcome undefined e h fit = absurd h

    pub rule-Outcome : All MasksFit raw → Outcome (do_format hex to_string flags std definition raw)
    unfolding do_format
    rule-Outcome fit =
        subset-Outcome (get_relevant_signature_subset raw std definition yara_min_tokens) refl
          (Selected.get_relevant_signature_subset-Outcome raw std definition yara_min_tokens) fit
