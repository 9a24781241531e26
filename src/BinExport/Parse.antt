-- ===== src/BinExport/Parse.antt =====
-- `ParseBinExport`: the loops over the call graph and the flow graphs. The parser of protocol buffers
-- and `GetInstructionAddress` are parameters.
pub mod Addresses
use vxsig.Prelude.{
  ℕ, zero, suc, ◌+◌, ◌-◌, ◌%◌, ◌^◌, Bool, not, ◌||◌, List, [], ◌∷◌, Option, none, some, ◌==◌,
  if◌then◌else◌, length,
}
use vxsig.Signature.{Bytes, Status, internal_error, Result, ok, failed, undefined, ◌>>=ᵣ◌, and_then}
use vxsig.MatchChain.{VertexType, ImmediateSize}
use vxsig.BinExport.{Instruction, IndexRange, Vertex, BinExport2, at, disassemble}

-- The callbacks, which change an `S`; the first one may stop the process. Its MD index, which is -1
-- for every function, is left out.
pub record Receivers (S : Type 0) : Type 0 where
  pub function_receiver : S → Bytes → ℕ → VertexType → Option S
  pub instruction_receiver : S → ℕ → ℕ → Bytes → Bytes → List (ℕ × ImmediateSize) → S

-- `sha256`, where the id of the executable is one.
abbrev pub sha256_of : Bytes → Bytes
sha256_of hash = if length hash == 64 then hash else []

-- The variables of the loop over a flow graph.
pub record Walk (S : Type 0) : Type 0 where
  pub computed_instruction_address : ℕ
  pub last_instruction_index : ℕ
  pub state : S

abbrev pub start : {S : Type 0} → S → Walk S
start s = record { computed_instruction_address = 0; last_instruction_index = 0; state = s }

abbrev pub has_address : Instruction → Bool
has_address instruction = elim instruction.address as (λ _. Bool) [
  | none ↦ Bool.false
  | some a ↦ Bool.true
]

abbrev pub end_of : IndexRange → ℕ
end_of range = elim range.end_index as (λ _. ℕ) [ none ↦ range.begin_index + 1 | some end ↦ end ]

-- How `instruction_address` is found, from the two variables, for an instruction and its index.
abbrev pub AddressOf : Type 0
AddressOf = ℕ → ℕ → ℕ → Instruction → ℕ

-- The address is computed for the instruction behind the last one, if it has none of its own.
unfoldable pub cached_address : (ℕ → ℕ) → AddressOf
cached_address get_instruction_address computed_instruction_address last_instruction_index i
      instruction =
    if not (last_instruction_index + 1 == i) || has_address instruction
    then get_instruction_address i
    else computed_instruction_address

module _ {S : Type 0} (hex : ℕ → Bytes) (receivers : Receivers S) (proto : BinExport2) where
  -- The loop over the vertices of the call graph.
  pub receive_functions : List Vertex → S → Option S
  receive_functions [] s = some s
  receive_functions (vertex ∷ vertices) s =
      elim (receivers.function_receiver s (sha256_of proto.executable_id) vertex.address
          vertex.vertex_type)
        as (λ _. Option S) [ none ↦ none | some s' ↦ receive_functions vertices s' ]

  -- What is done with an instruction at its address.
  unfoldable pub receive_instruction :
      ℕ → Instruction → (basic_block_address instruction_address : ℕ) → Walk S → Result (Walk S)
  receive_instruction i instruction basic_block_address instruction_address walk =
      disassemble hex proto instruction >>=ᵣ λ rendered. ok (record {
        computed_instruction_address =
            (instruction_address + length instruction.raw_bytes) % 2 ^ 64;
        last_instruction_index = i;
        state =
            receivers.instruction_receiver walk.state basic_block_address instruction_address
              instruction.raw_bytes rendered.output rendered.immediates;
      })

  module _ (address_of : AddressOf) where
    -- The loop over the instructions of a range, from `i` on.
    unfoldable pub parse_range :
        ℕ → (begin_index i basic_block_address : ℕ) → Walk S → Result (Walk S)
    unfolding receive_instruction
    parse_range zero begin_index i basic_block_address walk = ok walk
    parse_range (suc rounds) begin_index i basic_block_address walk =
        at proto.instruction i >>=ᵣ λ instruction.
        let instruction_address =
          address_of walk.computed_instruction_address walk.last_instruction_index i instruction in
        let block_address = if i == begin_index then instruction_address else basic_block_address in
        receive_instruction i instruction block_address instruction_address walk
        >>=ᵣ parse_range rounds begin_index (i + 1) block_address

    -- The loop over the ranges of a basic block.
    unfoldable pub parse_ranges : List IndexRange → Walk S → Result (Walk S)
    unfolding parse_range
    parse_ranges [] walk = ok walk
    parse_ranges (range ∷ ranges) walk =
        parse_range (end_of range - range.begin_index) range.begin_index range.begin_index 0 walk
        >>=ᵣ parse_ranges ranges

    -- A basic block without instructions stops the process.
    unfoldable pub parse_basic_block : List IndexRange → Walk S → Option (Result (Walk S))
    unfolding parse_ranges
    parse_basic_block [] walk = none
    parse_basic_block (range ∷ ranges) walk = some (parse_ranges (range ∷ ranges) walk)

    -- The loop over the basic blocks of a flow graph.
    unfoldable pub parse_basic_blocks : List ℕ → Walk S → Option (Result (Walk S))
    unfolding parse_basic_block
    parse_basic_blocks [] walk = some (ok walk)
    parse_basic_blocks (index ∷ indices) walk =
        and_then (some (at proto.basic_block index))
          λ block. and_then (parse_basic_block block walk) (parse_basic_blocks indices)

    unfoldable pub parse_flow_graphs : List (List ℕ) → S → Option (Result S)
    unfolding parse_basic_blocks
    parse_flow_graphs [] s = some (ok s)
    parse_flow_graphs (flow_graph ∷ flow_graphs) s =
        and_then (parse_basic_blocks flow_graph (start s))
          λ walk. parse_flow_graphs flow_graphs walk.state

    unfoldable pub parse_proto : S → Option (Result S)
    unfolding receive_functions parse_flow_graphs
    parse_proto s = elim (receive_functions proto.vertex s) as (λ _. Option (Result S)) [
      | none ↦ none
      | some s' ↦ parse_flow_graphs proto.flow_graph s'
    ]

-- What is called for a file: its parser, and the addresses of its instructions.
pub record BinExportFiles : Type 0 where
  pub parse_from_istream : Bytes → Option BinExport2
  pub get_instruction_address : BinExport2 → ℕ → ℕ

-- `ParseBinExport`.
unfoldable pub parse_bin_export :
    {S : Type 0} → (ℕ → Bytes) → BinExportFiles → Receivers S → Bytes → S → Option (Result S)
unfolding parse_proto
parse_bin_export {S} hex files receivers filename s =
    elim (files.parse_from_istream filename) as (λ _. Option (Result S)) [
      | none ↦ some (failed internal_error)
      | some proto ↦
          parse_proto hex receivers proto (cached_address (files.get_instruction_address proto)) s
    ]
