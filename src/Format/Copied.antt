-- ===== src/Format/Copied.antt =====
-- The pieces that formatting copies from a signature keep their masks.
use vxsig.Prelude.{ℕ, zero, suc, ◌<◌, List, [], ◌∷◌, map, arith, length, All}
use vxsig.Signature.{Piece}
use vxsig.Signature.Subset.{piece_at}
use vxsig.Format.{MasksFit}

piece_at-MasksFit :
    (ps : List Piece) (i : ℕ) → i < length ps → All MasksFit ps → MasksFit (piece_at ps i)
piece_at-MasksFit [] i h f = absurd (omega arith)
piece_at-MasksFit (p ∷ ps) zero h f = f.0
piece_at-MasksFit (p ∷ ps) (suc i) h f = piece_at-MasksFit ps i (omega arith) f.1

pub copied-MasksFit :
    (raw : List Piece) (js : List ℕ)
    → All (λ i. i < length raw) js
    → All MasksFit raw
    → All MasksFit (map (piece_at raw) js)
copied-MasksFit raw [] lt fit = tt
copied-MasksFit raw (j ∷ js) lt fit =
    (piece_at-MasksFit raw j lt.0 fit, copied-MasksFit raw js lt.1 fit)
