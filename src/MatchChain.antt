-- ===== src/MatchChain.antt =====
-- vxsig/match_chain_table.h and vxsig/match_chain_table.cc: the columns of the match chain table.
-- An object of a column is referred to by its address, the key of the map that owns it; the sets of
-- pointers, which compare by address, are the addresses in ascending order. An unset id is 0.
pub mod Insert
pub mod Ids
pub mod Metadata
use vxsig.Prelude.{ℕ, List, [], ◌∷◌, Option, ℤ, pos, ◌>>=◌}
use vxsig.SortedMap.{Map, find}
use vxsig.Signature.{Bytes, FunctionFilterMode, filter_none}

-- `BinExport2::CallGraph::Vertex::Type`.
pub data VertexType : Type 0 where
  normal library imported thunk invalid : VertexType

-- `ImmediateSize`.
pub data ImmediateSize : Type 0 where
  k_byte k_word k_d_word k_q_word : ImmediateSize

pub record MatchedMemoryAddress : Type 0 where
  pub address : ℕ
  pub address_in_next : ℕ
  pub id : ℕ

abbrev pub new_address : ℕ × ℕ → MatchedMemoryAddress
new_address from_match = record { address = from_match.0; address_in_next = from_match.1; id = 0 }

-- `location` is the address of the object itself, by which pointers to it compare.
pub record MatchedInstruction : Type 0 where
  pub location : ℕ
  pub matched : MatchedMemoryAddress
  pub raw_instruction_bytes : Bytes
  pub disassembly : Bytes
  pub immediates : List (ℕ × ImmediateSize)

pub record MatchedBasicBlock : Type 0 where
  pub matched : MatchedMemoryAddress
  pub instructions : List ℕ
  pub weight : ℤ

pub record MatchedFunction : Type 0 where
  pub matched : MatchedMemoryAddress
  pub basic_blocks : List ℕ
  pub vertex_type : VertexType

abbrev pub new_instruction : ℕ → ℕ × ℕ → MatchedInstruction
new_instruction location from_match = record {
  location = location;
  matched = new_address from_match;
  raw_instruction_bytes = [];
  disassembly = [];
  immediates = [];
}

abbrev pub new_basic_block : ℕ × ℕ → MatchedBasicBlock
new_basic_block from_match = record {
  matched = new_address from_match;
  instructions = [];
  weight = pos 0;
}

abbrev pub new_function : ℕ × ℕ → MatchedFunction
new_function from_match = record {
  matched = new_address from_match;
  basic_blocks = [];
  vertex_type = normal;
}

-- `MatchChainColumn`.
pub record MatchChainColumn : Type 0 where
  pub function_filter : FunctionFilterMode
  pub filtered_functions : List ℕ
  pub functions_by_address : Map MatchedFunction
  pub basic_blocks_by_address : Map MatchedBasicBlock
  pub instructions_by_address : Map MatchedInstruction
  pub functions_by_id : Map ℕ
  pub basic_blocks_by_id : Map ℕ
  pub filename : Bytes
  pub sha256 : Bytes
  pub diff_directory : Bytes

-- The default constructor.
abbrev pub empty_column : MatchChainColumn
empty_column = record {
  function_filter = filter_none;
  filtered_functions = [];
  functions_by_address = [];
  basic_blocks_by_address = [];
  instructions_by_address = [];
  functions_by_id = [];
  basic_blocks_by_id = [];
  filename = [];
  sha256 = [];
  diff_directory = [];
}

-- `set_filename` and `set_diff_directory`, `set_function_filter`, `AddFilteredFunction`.
abbrev pub set_filename : Bytes → Bytes → MatchChainColumn → MatchChainColumn
set_filename filename diff_directory column = record column {
  filename = filename;
  diff_directory = diff_directory;
}

abbrev pub set_function_filter : FunctionFilterMode → MatchChainColumn → MatchChainColumn
set_function_filter value column = record column { function_filter = value }

abbrev pub add_filtered_function : ℕ → MatchChainColumn → MatchChainColumn
add_filtered_function address column = record column {
  filtered_functions = address ∷ column.filtered_functions;
}

-- The column with other objects.
abbrev pub with_functions : MatchChainColumn → Map MatchedFunction → MatchChainColumn
with_functions column functions = record column { functions_by_address = functions }

abbrev pub with_basic_blocks : MatchChainColumn → Map MatchedBasicBlock → MatchChainColumn
with_basic_blocks column blocks = record column { basic_blocks_by_address = blocks }

abbrev pub with_instructions : MatchChainColumn → Map MatchedInstruction → MatchChainColumn
with_instructions column instructions = record column { instructions_by_address = instructions }

-- `FindFunctionByAddress`, `FindBasicBlockByAddress` and `FindInstructionByAddress`.
abbrev pub find_function_by_address : MatchChainColumn → ℕ → Option MatchedFunction
find_function_by_address column address = find column.functions_by_address address

abbrev pub find_basic_block_by_address : MatchChainColumn → ℕ → Option MatchedBasicBlock
find_basic_block_by_address column address = find column.basic_blocks_by_address address

abbrev pub find_instruction_by_address : MatchChainColumn → ℕ → Option MatchedInstruction
find_instruction_by_address column address = find column.instructions_by_address address

-- `FindFunctionById` and `FindBasicBlockById`: the pointer, and the object behind it.
abbrev pub find_function_by_id : MatchChainColumn → ℕ → Option MatchedFunction
find_function_by_id column id = find column.functions_by_id id >>= find_function_by_address column

abbrev pub find_basic_block_by_id : MatchChainColumn → ℕ → Option MatchedBasicBlock
find_basic_block_by_id column id =
    find column.basic_blocks_by_id id >>= find_basic_block_by_address column
