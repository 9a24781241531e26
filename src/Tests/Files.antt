-- ===== src/Tests/Files.antt =====
-- Two binaries with a function of three instructions, and the database of their matches.
use vxsig.Prelude.{
  ℕ, ◌+◌, List, [], ◌∷◌, none, some, true, false, ℤ, pos, negsuc, get_or, if◌then◌else◌, ◌==◌,
}
use vxsig.Signature.{Bytes, trim_none, filter_none, SignatureDefinition, Signature}
use vxsig.MatchChain.{VertexType}
use vxsig.DiffReader.{
  Query, metadata_query, file_query, match_query, row, finished, Stepped, stepped, Sqlite,
}
use vxsig.BinExport.{register, BinExport2}
use vxsig.BinExport.Parse.{BinExportFiles}
use vxsig.Siggen.{Environment, AvSignatureGenerator, new_generator, add_diff_results}
use vxsig.Tests.Instances.{no_text, hex_address}

-- A statement: what it asks for, the row it stands at, and those to come.
pub record Rows : Type 0 where
  pub current : List ℕ
  pub rest : List (List ℕ)

abbrev pub rows_of : List (List ℕ) → Rows
rows_of rows = record { current = []; rest = rows }

abbrev pub match_rows : List (List ℕ)
match_rows =
    (1 ∷ 10 ∷ 10 ∷ 1 ∷ 10 ∷ 10 ∷ 10 ∷ 10 ∷ [])
    ∷ (1 ∷ 10 ∷ 10 ∷ 1 ∷ 10 ∷ 10 ∷ 12 ∷ 12 ∷ [])
    ∷ (1 ∷ 10 ∷ 10 ∷ 1 ∷ 10 ∷ 10 ∷ 15 ∷ 15 ∷ [])
    ∷ []

abbrev rows_for : Query → List (List ℕ)
rows_for metadata_query = (1 ∷ 2 ∷ []) ∷ []
rows_for file_query = []
rows_for match_query = match_rows

abbrev next_row : Rows → Stepped Rows
next_row stmt = elim stmt.rest as (λ _. Stepped Rows) [
  | [] ↦ stepped finished stmt
  | ◌∷◌ r rows ↦ stepped row (record { current = r; rest = rows })
]

abbrev id_of : ℤ → ℕ
id_of (pos n) = n
id_of (negsuc n) = 0

-- A database with one match, whose files are named by their ids.
abbrev pub database : Sqlite
database = record {
  Db = Bytes;
  Stmt = Rows;
  open_v2 = λ filename. some filename;
  prepare_v2 = λ db query. some (rows_of (rows_for query));
  bind_int = λ stmt id. some (rows_of ((id_of id ∷ []) ∷ []));
  step = next_row;
  reset = λ stmt. stmt;
  finalize = λ stmt. true;
  column_int = λ stmt k. pos (get_or stmt.current k 0);
  column_int64 = λ stmt k. pos (get_or stmt.current k 0);
  column_text = λ stmt k. some (get_or stmt.current 0 0 ∷ []);
}

abbrev pub proto : BinExport2
proto = record {
  executable_id = [];
  architecture_name = [];
  expression =
      (record {
        symbol = b'a' ∷ [];
        expression_type = register;
        parent_index = none;
        immediate = 0;
      })
      ∷ [];
  operand = (0 ∷ []) ∷ [];
  mnemonic = (b'm' ∷ []) ∷ [];
  instruction =
      (record {
        address = some 10;
        mnemonic_index = 0;
        operand_index = 0 ∷ [];
        raw_bytes = 85 ∷ 139 ∷ [];
      })
      ∷ (record {
        address = some 12;
        mnemonic_index = 0;
        operand_index = [];
        raw_bytes = 1 ∷ 2 ∷ 3 ∷ [];
      })
      ∷ (record { address = none; mnemonic_index = 0; operand_index = []; raw_bytes = 4 ∷ [] })
      ∷ [];
  basic_block = ((record { begin_index = 0; end_index = some 3 }) ∷ []) ∷ [];
  flow_graph = (0 ∷ []) ∷ [];
  vertex = (record { address = 10; vertex_type = VertexType.normal }) ∷ [];
}

abbrev pub address_of : ℕ → ℕ
address_of i = if i == 0 then 10 else if i == 1 then 12 else 15

abbrev pub files : BinExportFiles
files = record {
  parse_from_istream = λ filename. some proto;
  get_instruction_address = λ proto i. address_of i;
}

abbrev pub environment : Environment
environment = record {
  sqlite = database;
  rows = 4;
  bin_export = files;
  hex = hex_address;
  to_string = no_text;
  dirname = λ filename. [];
  join_path = λ directory filename. filename;
  allocate = λ column address. column + address;
  sort = λ l. l;
  build_date = [];
}

abbrev pub definition : SignatureDefinition
definition = record {
  unique_signature_id = [];
  detection_name = b'n' ∷ [];
  trim_length = pos 100;
  trim_algorithm = trim_none;
  variant = pos 0;
  min_piece_length = pos 4;
  tag = [];
  meta = [];
  item_id = [];
  disable_nibble_masking = false;
  filtered_function_address = [];
  function_filter = filter_none;
}

abbrev pub unsigned : Signature
unsigned = record { raw_signature = []; clam_av_data = []; yara_data = []; definition = definition }

abbrev pub generator : AvSignatureGenerator
generator = add_diff_results ((b'd' ∷ []) ∷ []) new_generator
