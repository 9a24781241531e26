-- ===== src/ClamAv/Bounds.antt =====
-- A ClamAV signature fits the line buffer, and its masks stay in it.
use vxsig.Prelude.{
  ℕ, ◌+◌, ◌-◌, ◌*◌, ◌^◌, ◌≤◌, ◌<◌, ◌≡◌, ◌⊎◌, refl, sym, ap, subst, ◌∙◌, inl, inr, Bool, true, false,
  List, [], ◌∷◌, ◌++◌, append-nil, append_assoc, arith, ltb, ltb→lt, if◌then◌else◌, Bool-cases,
  length, take, length-append, length-take, All, All-map,
}
use vxsig.Signature.{
  Bytes, Piece, SignatureDefinition, out_of_range, Result, ok, failed, undefined, ◌>>=ᵣ◌,
}
use vxsig.Signature.Subset.{Algorithms, get_relevant_signature_subset}
use vxsig.Signature.Subset.Selected
use vxsig.Format.{HexPrinter, MasksFit, mask_lem}
use vxsig.Format.Copied.{copied-MasksFit}
use vxsig.ClamAv.{
  separator, clam_av_max_line_len, clam_av_min_bytes, target_and_offset, copy_budget, is_exhausted,
  append_pieces, check_length, do_format,
}

-- The budget leaves room for the wildcard and two digits for each byte, or the loop ends.
copy_budget_room :
    (size : ℕ) (wild : Bool)
    → size < 2 ^ 31
    → is_exhausted (copy_budget size wild) ≡ false
    → size + (if wild then 2 else 0) + 2 * copy_budget size wild ≤ clam_av_max_line_len
unfolding copy_budget is_exhausted
copy_budget_room size true h e = ground arith
copy_budget_room size false h e = ground arith

-- The buffer of the source counts the array "*" with its end, as two characters.
length-wildcard : (wild : Bool) → length (separator wild) ≤ (if wild then 2 else 0)
length-wildcard true = omega arith
length-wildcard false = omega arith

module _ (hex : HexPrinter) where
  -- The text grows to at most the length of a line, or not at all, and keeps what it starts with.
  abbrev Grows : Bytes → Result Bytes → Type 0
  Grows text (ok text') =
      ((body : Bytes) × (text' ≡ text ++ body))
      × ((text' ≡ text) ⊎ (length text' ≤ clam_av_max_line_len))
  Grows text (failed s) = ⊥
  Grows text undefined = ⊥

  Grows-trans :
      (text body : Bytes) (r : Result Bytes)
      → length (text ++ body) ≤ clam_av_max_line_len
      → Grows (text ++ body) r
      → Grows text r
  Grows-trans text body (ok t) fits ((more, e), size) = (
    (body ++ more, e ∙ append_assoc text body more),
    inr (elim size [
      | inl same ↦ subst (λ u. length u ≤ clam_av_max_line_len) (sym same) fits
      | inr le ↦ le
    ]),
  )
  Grows-trans text body (failed s) fits h = h
  Grows-trans text body undefined fits h = h

  append_pieces-Grows :
      (ps : List Piece) (wild : Bool) (text : Bytes)
      → All MasksFit ps
      → length text < 2 ^ 31
      → Grows text (append_pieces hex ps wild text)
  unfolding append_pieces
  append_pieces-Grows [] wild text fit small = (([], sym (append-nil text)), inl refl)
  append_pieces-Grows (p ∷ ps) wild text fit small =
      elim (Bool-cases (is_exhausted (copy_budget (length text) wild))) [
        | inl over ↦ rw over (([], sym (append-nil text)), inl refl)
        | inr more ↦
            let budget = copy_budget (length text) wild in
            let front = text ++ separator wild in
            let copied = take budget p.bytes in
            let digits = hex.length-bytes_to_hex copied in
            let len = length-take budget p.bytes in
            let room = copy_budget_room (length text) wild small more in
            let (tail, e, l) =
              mask_lem front budget (length p.bytes) p.masked_nibble (hex.bytes_to_hex copied) fit.0
                (omega arith) in
            let fits : length (text ++ (separator wild ++ tail)) ≤ clam_av_max_line_len = omega (
              arith,
              length-append text (separator wild ++ tail),
              length-append (separator wild) tail,
              length-wildcard wild,
            ) in
            let text2 : front ++ tail ≡ text ++ (separator wild ++ tail) =
              append_assoc text (separator wild) tail in
            rw (more, e, text2)
              (Grows-trans text (separator wild ++ tail) _ fits (
                append_pieces-Grows ps true (text ++ (separator wild ++ tail)) fit.1 (omega arith)))
      ]

  module _ (std : Algorithms) (definition : SignatureDefinition) (raw : List Piece) where
    -- How `DoFormat` ends.
    abbrev pub Outcome : Result Bytes → Type 0
    Outcome (ok text) =
        (length text ≤ clam_av_max_line_len)
        × ((body : Bytes) × (text ≡ (definition.detection_name ++ target_and_offset) ++ body))
    Outcome (failed s) =
        (get_relevant_signature_subset raw std definition clam_av_min_bytes ≡ failed s)
        ⊎ ((s ≡ out_of_range) × (clam_av_max_line_len < length definition.detection_name + 5))
    Outcome undefined = ⊥

    check_length-Outcome :
        (r : Result Bytes)
        → Grows (definition.detection_name ++ target_and_offset) r
        → Outcome (r >>=ᵣ check_length hex)
    unfolding check_length
    check_length-Outcome (ok text) (body, size) =
        elim (Bool-cases (ltb clam_av_max_line_len (length text))) [
          | inl long ↦ rw long (elim size [
            | inl same ↦ inr (
              refl,
              omega (
                arith,
                ltb→lt clam_av_max_line_len (length text) long,
                ap length same,
                length-append definition.detection_name target_and_offset,
              ),
            )
            | inr le ↦ absurd (omega (arith, ltb→lt clam_av_max_line_len (length text) long))
          ])
          | inr short ↦ rw short (ground arith, body)
        ]
    check_length-Outcome (failed s) h = absurd h
    check_length-Outcome undefined h = absurd h

    subset-Outcome :
        (r : Result (List Piece))
        → get_relevant_signature_subset raw std definition clam_av_min_bytes ≡ r
        → Selected.Outcome raw std definition clam_av_min_bytes r
        → All MasksFit raw
        → length definition.detection_name < 2 ^ 31 - 8
        → Outcome (
            r >>=ᵣ λ subset.
            append_pieces hex subset false (definition.detection_name ++ target_and_offset)
            >>=ᵣ check_length hex)
    subset-Outcome (ok out) e (b, (js, subset)) fit short =
        let name = length-append definition.detection_name target_and_offset in
        check_length-Outcome _ (
          append_pieces-Grows out false (definition.detection_name ++ target_and_offset)
            (subst (All MasksFit) (sym subset.copied)
              (copied-MasksFit raw js (All-map js (λ i. (λ h. h.0)) subset.relevant) fit))
            (omega arith))
    subset-Outcome (failed s) e h fit short = inl e
    subset-Outcome undefined e h fit short = absurd h

    -- For a signature whose masks lie in their pieces, and a name below 2 ^ 31 - 8 bytes, formatting
    -- returns a text of at most 8191 bytes that starts with the name and ":0:*:", or the error of
    -- the selection of pieces, or an error because the name alone is too long. No store leaves the text.
    pub do_format-Outcome :
        All MasksFit raw
        → length definition.detection_name < 2 ^ 31 - 8
        → Outcome (do_format hex std definition raw)
    unfolding do_format
    do_format-Outcome fit short =
        subset-Outcome (get_relevant_signature_subset raw std definition clam_av_min_bytes) refl
          (Selected.get_relevant_signature_subset-Outcome raw std definition clam_av_min_bytes) fit
          short
