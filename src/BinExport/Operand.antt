-- ===== src/BinExport/Operand.antt =====
-- Operands that can be rendered, and the loop over the children of an operator.
use vxsig.Prelude.{
  ℕ, zero, suc, ◌+◌, ◌-◌, ◌≤◌, ◌<◌, ◌≡◌, refl, Bool, true, false, List, [], ◌∷◌, some,
  some-injective, get_elem?, length, All, if◌then◌else◌, ◌==◌, Bool-cases, inl, inr, arith,
}
use vxsig.Signature.{Bytes, same_bytes, Result, ok, ◌>>=ᵣ◌}
use vxsig.BinExport.{
  ExpressionType, size_prefix, Expression, BinExport2, Rendered, append_text, render_more,
  render_children, indices_from,
}

-- A result without an error.
abbrev pub IsOk {ℓ} : {A : Type ℓ} → Result A → Type ℓ
IsOk {A} r = (a : A) × (r ≡ ok a)

pub IsOk-bind {ℓ κ} :
    {A : Type ℓ} {B : Type κ} (r : Result A) (f : A → Result B)
    → IsOk r
    → ((a : A) → IsOk (f a))
    → IsOk (r >>=ᵣ f)
IsOk-bind r f (a, e) h = rw e (h a)

abbrev pub is_size_prefix : ExpressionType → Bool
is_size_prefix size_prefix = true
is_size_prefix _ = false

module _ (proto : BinExport2) where
  -- The index of an expression.
  abbrev pub IsExpression : ℕ → Type 0
  IsExpression i = (e : Expression) × (get_elem? proto.expression i ≡ some e)

  -- The last expression of an operand is no size prefix.
  abbrev pub EndsWell : List ℕ → Type 0
  EndsWell [] = Unit
  EndsWell (i ∷ []) =
      (e : Expression) × (get_elem? proto.expression i ≡ some e)
      × (is_size_prefix e.expression_type ≡ false)
  EndsWell (i ∷ j ∷ is) = EndsWell (j ∷ is)

  -- An operand that can be rendered.
  abbrev pub IsOperand : List ℕ → Type 0
  IsOperand operand = All IsExpression operand × EndsWell operand

  pub get_elem?-IsExpression :
      (l : List ℕ) (k : ℕ)
      → All IsExpression l
      → k < length l
      → (i : ℕ) × (e : Expression) × (get_elem? l k ≡ some i)
        × (get_elem? proto.expression i ≡ some e)
  get_elem?-IsExpression [] k h lt = absurd (omega arith)
  get_elem?-IsExpression (i ∷ l) zero ((e, found), h) lt = (i, e, refl, found)
  get_elem?-IsExpression (i ∷ l) (suc k) (v, h) lt = get_elem?-IsExpression l k h (omega arith)

  pub size_prefix-followed :
      (l : List ℕ) (k i : ℕ) (e : Expression)
      → EndsWell l
      → get_elem? l k ≡ some i
      → get_elem? proto.expression i ≡ some e
      → is_size_prefix e.expression_type ≡ true
      → k + 1 < length l
  size_prefix-followed [] k i e ends at_k at_i prefix = absurd (ground arith)
  size_prefix-followed (x ∷ []) zero i e (e', found, other) at_k at_i prefix =
      let same : x ≡ i = some-injective x i at_k in
      let found' : get_elem? proto.expression i ≡ some e' = rw (← same) found in
      let found'' : some e ≡ some e' = rw (← at_i) found' in
      let same' : e ≡ e' = some-injective e e' found'' in absurd (ground arith)
  size_prefix-followed (x ∷ []) (suc k) i e ends at_k at_i prefix = absurd (ground arith)
  size_prefix-followed (x ∷ y ∷ l) zero i e ends at_k at_i prefix = omega arith
  size_prefix-followed (x ∷ y ∷ l) (suc k) i e ends at_k at_i prefix =
      omega (arith, size_prefix-followed (y ∷ l) k i e ends at_k at_i prefix)

pub All-indices_from : (P : ℕ → Type 0) (k : ℕ) (l : List ℕ) → All P l → All P (indices_from k l)
All-indices_from P zero l h = h
All-indices_from P (suc k) [] h = tt
All-indices_from P (suc k) (x ∷ l) h = All-indices_from P k l h.1

pub length-indices_from : (k : ℕ) (l : List ℕ) → length (indices_from k l) ≡ length l - k
length-indices_from zero l = omega arith
length-indices_from (suc k) [] = omega arith
length-indices_from (suc k) (x ∷ l) = omega (arith, length-indices_from k l)

-- A function that renders every index from `lo` to below `hi`.
abbrev pub Renders : (ℕ → Rendered → Result Rendered) → ℕ → ℕ → Type 0
Renders render lo hi = (i : ℕ) (r : Rendered) → lo ≤ i → i < hi → IsOk (render i r)

pub render_more-IsOk :
    (render : ℕ → Rendered → Result Rendered) (separator : Bytes) (n index hi : ℕ) (r : Rendered)
    → Renders render index hi
    → index + n ≤ hi
    → IsOk (render_more render separator n index r)
unfolding render_more
render_more-IsOk render separator zero index hi r h le = (r, refl)
render_more-IsOk render separator (suc n) index hi r h le =
    IsOk-bind (render index (append_text separator r)) (render_more render separator n (index + 1))
      (h index (append_text separator r) (omega arith) (omega arith))
      (λ r'.
        render_more-IsOk render separator n (index + 1) hi r' (λ i s lo lt. h i s (omega arith) lt)
          (omega arith))

pub render_children-IsOk :
    (render : ℕ → Rendered → Result Rendered) (symbol : Bytes) (n index hi : ℕ) (r : Rendered)
    → Renders render index hi
    → index + n ≤ hi
    → IsOk (render_children render symbol n index r)
unfolding render_children
render_children-IsOk render symbol zero index hi r h le = (_, refl)
render_children-IsOk render symbol (suc n) index hi r h le =
    let others : Renders render (index + 1) hi = λ i s lo lt. h i s (omega arith) lt in
    elim (Bool-cases (same_bytes symbol (b'{' ∷ []))) [
      | inl list ↦
          rw (list, render_children)
            (IsOk-bind _ (λ r'. ok (append_text (b'}' ∷ []) r'))
              (IsOk-bind (render index (append_text (b'{' ∷ []) r))
                (render_more render (b',' ∷ []) n (index + 1))
                (h index _ (omega arith) (omega arith))
                (λ r'.
                  render_more-IsOk render (b',' ∷ []) n (index + 1) hi r' others (omega arith)))
              (λ r'. (_, refl)))
      | inr infix_ ↦
          rw (infix_, render_children)
            (IsOk-bind (render index (if n == 0 then append_text symbol r else r))
              (render_more render symbol n (index + 1)) (h index _ (omega arith) (omega arith))
              (λ r'. render_more-IsOk render symbol n (index + 1) hi r' others (omega arith)))
    ]
