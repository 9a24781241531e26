-- ===== src/BinExport.antt =====
-- vxsig/binexport_reader.cc: `ParseBinExport`. The messages of BinExport2 are records of the fields
-- that are read; a field that is not there is its default, but where its presence is asked for.
-- Indices are natural numbers. `absl::Hex` and `GetInstructionAddress` are parameters.
pub mod Parse
pub mod Operand
pub mod Render
use vxsig.Prelude.{
  ℕ, zero, suc, ◌+◌, ◌-◌, Bool, true, false, not, ◌&&◌, ◌||◌, List, [], ◌∷◌, ◌++◌, reverse, Option,
  none, some, get_elem?, ltb, ◌==◌, if◌then◌else◌, length,
}
use vxsig.Signature.{Bytes, same_bytes, Result, ok, failed, undefined, ◌>>=ᵣ◌}
use vxsig.MatchChain.{VertexType, ImmediateSize, k_byte, k_word, k_d_word, k_q_word}

-- `BinExport2::Expression::Type`.
pub data ExpressionType : Type 0 where
  symbol_ immediate_int immediate_float operator register size_prefix dereference : ExpressionType

pub record Expression : Type 0 where
  pub symbol : Bytes
  pub expression_type : ExpressionType
  pub parent_index : Option ℕ
  pub immediate : ℕ

-- An instruction, its operands by index.
pub record Instruction : Type 0 where
  pub address : Option ℕ
  pub mnemonic_index : ℕ
  pub operand_index : List ℕ
  pub raw_bytes : Bytes

pub record IndexRange : Type 0 where
  pub begin_index : ℕ
  pub end_index : Option ℕ

pub record Vertex : Type 0 where
  pub address : ℕ
  pub vertex_type : VertexType

-- An operand is its `expression_index`, a basic block its `instruction_index`, a flow graph its
-- `basic_block_index`, and a mnemonic its name.
pub record BinExport2 : Type 0 where
  pub executable_id : Bytes
  pub architecture_name : Bytes
  pub expression : List Expression
  pub operand : List (List ℕ)
  pub mnemonic : List Bytes
  pub instruction : List Instruction
  pub basic_block : List (List IndexRange)
  pub flow_graph : List (List ℕ)
  pub vertex : List Vertex

-- An access to a repeated field.
abbrev pub at {ℓ} : {A : Type ℓ} → List A → ℕ → Result A
at {A} items i = elim (get_elem? items i) as (λ _. Result A) [
  | none ↦ undefined
  | some item ↦ ok item
]

-- `parent_index()`.
abbrev pub parent_of : Expression → ℕ
parent_of e = elim e.parent_index as (λ _. ℕ) [ none ↦ 0 | some parent ↦ parent ]

-- `absl::EndsWith`, by the texts backwards.
abbrev pub starts_text : Bytes → Bytes → Bool
starts_text s [] = true
starts_text [] (b ∷ t) = false
starts_text (a ∷ s) (b ∷ t) = (a == b) && starts_text s t

abbrev pub ends_with : Bytes → Bytes → Bool
ends_with text suffix = starts_text (reverse text) (reverse suffix)

-- "b8", "b4" and so on.
abbrev pub size_symbol : ℕ → Bytes
size_symbol digit = b'b' ∷ digit ∷ []

-- The size that a prefix asks for.
pub prefix_size : Bytes → ImmediateSize → ImmediateSize
prefix_size symbol immediate_size =
    if same_bytes symbol (size_symbol b'8')
    then k_q_word
    else if same_bytes symbol (size_symbol b'4')
    then k_d_word
    else if same_bytes symbol (size_symbol b'2')
    then k_word
    else if same_bytes symbol (size_symbol b'1')
    then k_byte
    else immediate_size

-- A prefix is not printed where it is the machine's word.
pub prefix_text : Bytes → Bytes → Bytes
prefix_text architecture_name symbol =
    if same_bytes symbol
      (size_symbol (if ends_with architecture_name (b'6' ∷ b'4' ∷ []) then b'8' else b'4'))
    then []
    else symbol ++ b' ' ∷ []

-- `*output` and `*immediates`.
pub record Rendered : Type 0 where
  pub output : Bytes
  pub immediates : List (ℕ × ImmediateSize)

abbrev pub append_text : Bytes → Rendered → Rendered
append_text text r = record r { output = r.output ++ text }

abbrev pub append_immediate : Bytes → ℕ → ImmediateSize → Rendered → Rendered
append_immediate text immediate immediate_size r = record {
  output = r.output ++ (b'0' ∷ b'x' ∷ text);
  immediates = r.immediates ++ (immediate, immediate_size) ∷ [];
}

-- The loop over the other children of an operator, `n` from `index` on, each behind a separator.
pub render_more : (ℕ → Rendered → Result Rendered) → Bytes → ℕ → ℕ → Rendered → Result Rendered
render_more render separator zero index r = ok r
render_more render separator (suc n) index r =
    render index (append_text separator r) >>=ᵣ render_more render separator n (index + 1)

-- The children of an operator, the first from `index` on: a register list, a prefix or an infix
-- operator. Without children only a list is printed.
pub render_children : (ℕ → Rendered → Result Rendered) → Bytes → ℕ → ℕ → Rendered → Result Rendered
unfolding render_more
render_children render symbol zero index r = ok (
    if same_bytes symbol (b'{' ∷ [])
    then append_text (b'}' ∷ []) (append_text (b'{' ∷ []) r)
    else r)
render_children render symbol (suc n) index r =
    let register_list : Result Rendered =
      render index (append_text (b'{' ∷ []) r)
      >>=ᵣ render_more render (b',' ∷ []) n (index + 1)
      >>=ᵣ λ r'. ok (append_text (b'}' ∷ []) r') in
    let prefix_or_infix : Result Rendered =
      render index (if n == 0 then append_text symbol r else r)
      >>=ᵣ render_more render symbol n (index + 1) in
    if same_bytes symbol (b'{' ∷ []) then register_list else prefix_or_infix

-- The indices from `i` on.
abbrev pub indices_from : ℕ → List ℕ → List ℕ
indices_from zero l = l
indices_from (suc i) [] = []
indices_from (suc i) (x ∷ l) = indices_from i l

module _ (hex : ℕ → Bytes) (proto : BinExport2) (operand : List ℕ) where
  -- `proto.expression(operand.expression_index(i))`.
  pub expression_at : ℕ → Result Expression
  expression_at i = at operand i >>=ᵣ at proto.expression

  -- The number of children: of `rest`, the indices behind the operator, those up to the first with
  -- another parent.
  pub count_children : ℕ → List ℕ → Result ℕ
  count_children parent [] = ok 0
  count_children parent (child ∷ rest) = at proto.expression child >>=ᵣ λ e.
      let more : Result ℕ = count_children parent rest >>=ᵣ λ n. ok (suc n) in
      if parent_of e == parent then more else ok 0

  -- The `switch` of `RenderExpression`, for the expression at an index; `inner` is the recursion.
  pub render_by_type :
      (ℕ → ImmediateSize → Rendered → Result Rendered)
      → ExpressionType
      → Expression
      → ℕ
      → ImmediateSize
      → Rendered
      → Result Rendered
  unfolding count_children render_children prefix_size prefix_text
  render_by_type inner operator e index immediate_size r = at operand index >>=ᵣ λ self.
      count_children self (indices_from (index + 1) operand) >>=ᵣ λ n.
      render_children (λ i. inner i immediate_size) e.symbol n (index + 1) r
  render_by_type inner symbol_ e index immediate_size r = ok (append_text e.symbol r)
  render_by_type inner register e index immediate_size r = ok (append_text e.symbol r)
  render_by_type inner size_prefix e index immediate_size r =
      inner (index + 1) (prefix_size e.symbol immediate_size)
        (append_text (prefix_text proto.architecture_name e.symbol) r)
  render_by_type inner dereference e index immediate_size r =
      let opened = append_text (b'[' ∷ []) r in
      (if ltb (index + 1) (length operand)
        then inner (index + 1) immediate_size opened
        else ok opened)
      >>=ᵣ λ r'. ok (append_text (b']' ∷ []) r')
  render_by_type inner _ e index immediate_size r =
      ok (append_immediate (hex e.immediate) e.immediate immediate_size r)

  -- `RenderExpression`. An expression is rendered at a greater index than its parent, so that as
  -- many rounds as there are indices left are enough; with none left, the access is out of range.
  pub render_expression : ℕ → ℕ → ImmediateSize → Rendered → Result Rendered
  unfolding expression_at render_by_type
  render_expression zero index immediate_size r = undefined
  render_expression (suc rounds) index immediate_size r = expression_at index >>=ᵣ λ e.
      render_by_type (render_expression rounds) e.expression_type e index immediate_size r

  -- The loop over the expressions of an operand, from `j` on: the roots are rendered.
  pub render_roots : ℕ → ℕ → Rendered → Result Rendered
  unfolding render_expression
  render_roots zero j r = ok r
  render_roots (suc n) j r = expression_at j >>=ᵣ λ e.
      elim e.parent_index as (λ _. Result Rendered) [
        | none ↦ render_expression (length operand - j) j k_byte r
        | some parent ↦ ok r
      ]
      >>=ᵣ render_roots n (j + 1)

module _ (hex : ℕ → Bytes) (proto : BinExport2) where
  -- The loop over the operands of an instruction, with ", " between them.
  pub render_operands : List ℕ → Rendered → Result Rendered
  unfolding render_roots
  render_operands [] r = ok r
  render_operands (i ∷ indices) r = at proto.operand i >>=ᵣ λ operand.
      render_roots hex proto operand (length operand) 0 r >>=ᵣ λ r'.
      render_operands indices
        (elim indices as (λ _. Rendered) [ [] ↦ r' | ◌∷◌ k ks ↦ append_text (b',' ∷ b' ' ∷ []) r' ])

  -- The mnemonic, and the operands.
  unfoldable pub disassemble : Instruction → Result Rendered
  unfolding render_operands
  disassemble instruction = at proto.mnemonic instruction.mnemonic_index >>=ᵣ λ name.
      render_operands instruction.operand_index
        (record { output = name ++ b' ' ∷ []; immediates = [] })
