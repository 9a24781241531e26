-- ===== src/BinExport/Render.antt =====
-- `RenderExpression` reaches no expression out of range, and as many rounds as there are indices
-- left are enough.
use vxsig.Prelude.{
  ℕ, zero, suc, ◌+◌, ◌-◌, ◌≤◌, ◌<◌, ◌≡◌, refl, true, List, [], ◌∷◌, none, some, get_elem?, length,
  All, ltb, ◌==◌, Bool-cases, inl, inr, arith,
}
use vxsig.Signature.{Bytes, Result, ok}
use vxsig.MatchChain.{ImmediateSize, k_byte}
use vxsig.BinExport.{
  ExpressionType, symbol_, immediate_int, immediate_float, operator, register, size_prefix,
  dereference, Expression, Instruction, BinExport2, at, parent_of, Rendered, append_text,
  prefix_size, render_by_type, expression_at, count_children, indices_from, render_expression,
  render_roots, render_operands, disassemble,
}
use vxsig.BinExport.Operand.{
  IsOk, IsOk-bind, is_size_prefix, IsExpression, IsOperand, get_elem?-IsExpression,
  size_prefix-followed, All-indices_from, length-indices_from, Renders, render_children-IsOk,
}

module _ (hex : ℕ → Bytes) (proto : BinExport2) (operand : List ℕ) where
  count_children-ok :
      (parent : ℕ) (l : List ℕ)
      → All (IsExpression proto) l
      → (n : ℕ) × (count_children hex proto operand parent l ≡ ok n) × (n ≤ length l)
  unfolding count_children
  count_children-ok parent [] h = (0, refl, omega arith)
  count_children-ok parent (child ∷ rest) ((e, found), h) =
      let (n, same, le) = count_children-ok parent rest h in
      elim (Bool-cases (parent_of e == parent)) [
        | inl child_ ↦ (suc n, rw (found, count_children, at, child_, same) refl, omega arith)
        | inr other ↦ (0, rw (found, count_children, at, other) refl, omega arith)
      ]

  render_by_type-IsOk :
      (inner : ℕ → ImmediateSize → Rendered → Result Rendered) (type_ : ExpressionType)
      (e : Expression) (index i : ℕ) (immediate_size : ImmediateSize) (r : Rendered)
      → ((size : ImmediateSize) → Renders (λ k. inner k size) (index + 1) (length operand))
      → (is_size_prefix type_ ≡ true → index + 1 < length operand)
      → All (IsExpression proto) operand
      → get_elem? operand index ≡ some i
      → index < length operand
      → IsOk (render_by_type hex proto operand inner type_ e index immediate_size r)
  unfolding render_by_type
  render_by_type-IsOk inner operator e index i size r h prefix valid at_index lt =
      let behind = indices_from (index + 1) operand in
      let (n, counted, le) =
        count_children-ok i behind
          (All-indices_from (IsExpression proto) (index + 1) operand valid) in
      rw (at_index, render_by_type, at, counted)
        (render_children-IsOk (λ k. inner k size) e.symbol n (index + 1) (length operand) r (h size)
          (omega (arith, length-indices_from (index + 1) operand)))
  render_by_type-IsOk inner symbol_ e index i size r h prefix valid at_index lt = (_, refl)
  render_by_type-IsOk inner register e index i size r h prefix valid at_index lt = (_, refl)
  render_by_type-IsOk inner size_prefix e index i size r h prefix valid at_index lt =
      h (prefix_size e.symbol size) (index + 1) _ (omega arith) (prefix refl)
  render_by_type-IsOk inner dereference e index i size r h prefix valid at_index lt =
      elim (Bool-cases (ltb (index + 1) (length operand))) [
        | inl more ↦
            rw (more, render_by_type)
              (IsOk-bind _ (λ r'. ok (append_text (b']' ∷ []) r'))
                (h size (index + 1) _ (omega arith) (ground arith)) (λ r'. (_, refl)))
        | inr last ↦ rw (last, render_by_type) (_, refl)
      ]
  render_by_type-IsOk inner immediate_int e index i size r h prefix valid at_index lt = (_, refl)
  render_by_type-IsOk inner immediate_float e index i size r h prefix valid at_index lt = (_, refl)

  render_expression-IsOk :
      (rounds index : ℕ) (immediate_size : ImmediateSize) (r : Rendered)
      → IsOperand proto operand
      → index < length operand
      → length operand ≤ rounds + index
      → IsOk (render_expression hex proto operand rounds index immediate_size r)
  unfolding render_expression expression_at
  render_expression-IsOk zero index size r valid lt enough = absurd (omega arith)
  render_expression-IsOk (suc rounds) index size r (valid, ends) lt enough =
      let (i, e, at_index, found) = get_elem?-IsExpression proto operand index valid lt in
      rw (at_index, render_expression, expression_at, at, found)
        (render_by_type-IsOk (render_expression hex proto operand rounds) e.expression_type e index
          i size r
          (λ s k t lo hi. render_expression-IsOk rounds k s t (valid, ends) hi (omega arith))
          (λ is. size_prefix-followed proto operand index i e ends at_index found is) valid at_index
          lt)

  render_roots-IsOk :
      (n j : ℕ) (r : Rendered)
      → IsOperand proto operand
      → n + j ≡ length operand
      → IsOk (render_roots hex proto operand n j r)
  unfolding render_roots expression_at
  render_roots-IsOk zero j r valid same = (r, refl)
  render_roots-IsOk (suc n) j r valid same =
      let (i, e, at_j, found) = get_elem?-IsExpression proto operand j valid.0 (omega arith) in
      rw (at_j, render_roots, expression_at, at, found)
        (IsOk-bind _ (render_roots hex proto operand n (j + 1))
          (elim e.parent_index
            as (λ p. IsOk (elim p as (λ _. Result Rendered) [
              | none ↦ render_expression hex proto operand (length operand - j) j k_byte r
              | some parent ↦ ok r
            ])) [
              | none ↦
                  render_expression-IsOk (length operand - j) j k_byte r valid (omega arith)
                    (omega arith)
              | some parent ↦ (r, refl)
            ])
          (λ r'. render_roots-IsOk n (j + 1) r' valid (omega arith)))

-- An instruction whose indices are in range, for operands that can be rendered.
abbrev pub IsOperandIndex : BinExport2 → ℕ → Type 0
IsOperandIndex proto k =
    (operand : List ℕ) × (get_elem? proto.operand k ≡ some operand) × IsOperand proto operand

module _ (hex : ℕ → Bytes) (proto : BinExport2) where
  render_operands-IsOk :
      (indices : List ℕ) (r : Rendered)
      → All (IsOperandIndex proto) indices
      → IsOk (render_operands hex proto indices r)
  unfolding render_operands
  render_operands-IsOk [] r h = (r, refl)
  render_operands-IsOk (k ∷ indices) r ((operand, found, valid), h) =
      rw (found, render_operands, at)
        (IsOk-bind (render_roots hex proto operand (length operand) 0 r) _
          (render_roots-IsOk hex proto operand (length operand) 0 r valid (omega arith))
          (λ r'. render_operands-IsOk indices _ h))

  -- An instruction is disassembled, without an access out of range and in as many rounds as its operands have
  -- indices, if its mnemonic, its operands and their expressions are in range and no operand ends
  -- in a size prefix.
  pub disassemble-IsOk :
      (instruction : Instruction) (name : Bytes)
      → get_elem? proto.mnemonic instruction.mnemonic_index ≡ some name
      → All (IsOperandIndex proto) instruction.operand_index
      → IsOk (disassemble hex proto instruction)
  unfolding disassemble
  disassemble-IsOk instruction name named operands =
      rw (named, disassemble, at) (render_operands-IsOk instruction.operand_index _ operands)
