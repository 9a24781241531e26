-- ===== src/MatchChain/Metadata.antt =====
-- The two callbacks of `AddFunctionData`, which puts the data of a .BinExport file into a column.
use vxsig.Prelude.{ℕ, List, [], ◌∷◌, Option, none, some, if◌then◌else◌}
use vxsig.SortedMap.{modify}
use vxsig.Signature.{Bytes, same_bytes}
use vxsig.MatchChain.{
  VertexType, ImmediateSize, MatchedFunction, MatchedInstruction, MatchChainColumn, with_functions,
  with_instructions, find_function_by_address, find_instruction_by_address,
}

abbrev set_type : VertexType → MatchedFunction → MatchedFunction
set_type vertex_type function = record function { vertex_type = vertex_type }

-- `set_sha256` where there is none; else QCHECK_EQ, which stops the process.
pub check_sha256 : Bytes → MatchChainColumn → Option MatchChainColumn
check_sha256 sha256 column = elim column.sha256 as (λ _. Option MatchChainColumn) [
  | [] ↦ some (record column { sha256 = sha256 })
  | ◌∷◌ c cs ↦ if same_bytes (c ∷ cs) sha256 then some column else none
]

-- `metadata_callback`; a function that is not in the column is left out.
unfoldable pub add_metadata : Bytes → ℕ → VertexType → MatchChainColumn → Option MatchChainColumn
unfolding check_sha256
add_metadata sha256 address vertex_type column =
    elim (find_function_by_address column address) as (λ _. Option MatchChainColumn) [
      | none ↦ some column
      | some function ↦ check_sha256 sha256 (
          with_functions column (modify address (set_type vertex_type) column.functions_by_address))
    ]

abbrev set_bytes :
    Bytes → Bytes → List (ℕ × ImmediateSize) → MatchedInstruction → MatchedInstruction
set_bytes bytes disassembly immediates instr =
    elim instr.raw_instruction_bytes as (λ _. MatchedInstruction) [
      | [] ↦ record instr {
        raw_instruction_bytes = bytes;
        disassembly = disassembly;
        immediates = immediates;
      }
      | ◌∷◌ c cs ↦ instr
    ]

-- `basic_block_callback`; an instruction keeps the bytes that it has.
unfoldable pub add_instruction_data :
    ℕ → Bytes → Bytes → List (ℕ × ImmediateSize) → MatchChainColumn → MatchChainColumn
add_instruction_data instr_address instr_bytes disassembly immediates column =
    elim (find_instruction_by_address column instr_address) as (λ _. MatchChainColumn) [
      | none ↦ column
      | some instr ↦ with_instructions column (
          modify instr_address (set_bytes instr_bytes disassembly immediates)
            column.instructions_by_address)
    ]
