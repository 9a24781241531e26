-- ===== src/Siggen/Generate/Main.antt =====
-- vxsig/siggen_main.cc: `SiggenMain`. Flags, the parser of the names of the algorithms, the splitter
-- and the parser of numbers are parameters; `none` is a failed check, which stops the process.
use vxsig.Prelude.{
  ℕ, Bool, ◌&&◌, not, List, [], ◌∷◌, Option, none, some, ◌>>=◌, if◌then◌else◌, ℤ, pos,
}
use vxsig.Signature.{
  Bytes, TrimAlgorithm, filter_exclude, filter_include, SignatureDefinition, Signature, Result, ok,
  failed, undefined, and_then,
}
use vxsig.Signature.Subset.{Algorithms}
use vxsig.Format.{HexPrinter}
use vxsig.Yara
use vxsig.Formatter.{create, format, yara}
use vxsig.Generic.{is_empty}
use vxsig.Siggen.{Environment, new_generator, add_diff_results}
use vxsig.Siggen.Generate.{generate}

-- The flags of the command line.
pub record Flags : Type 0 where
  pub detection_name : Bytes
  pub trim_length : ℤ
  pub trim_algorithm : Bytes
  pub disable_nibble_masking : Bool
  pub function_includes : Bytes
  pub function_excludes : Bytes

-- What is called for the flags.
pub record FlagParsers : Type 0 where
  pub signature_trim_algorithm_parse : Bytes → Option TrimAlgorithm
  pub str_split : Bytes → List Bytes
  pub safe_strtou64_base : Bytes → Option ℕ

-- The addresses of a filter.
pub parse_addresses : FlagParsers → List Bytes → Option (List ℕ)
parse_addresses parsers [] = some []
parse_addresses parsers (function ∷ functions) = parsers.safe_strtou64_base function >>= λ address.
    parse_addresses parsers functions >>= λ addresses. some (address ∷ addresses)

-- The definition that the flags ask for. What they do not set has its default, 4 for the length.
unfoldable pub definition_of : FlagParsers → Flags → Option SignatureDefinition
unfolding parse_addresses
definition_of parsers flags =
    parsers.signature_trim_algorithm_parse flags.trim_algorithm >>= λ algorithm.
    let includes = not (is_empty flags.function_includes) in
    let filter_list = if includes then flags.function_includes else flags.function_excludes in
    let definition : Option SignatureDefinition =
      parse_addresses parsers (if is_empty filter_list then [] else parsers.str_split filter_list)
      >>= λ addresses. some (record {
        unique_signature_id = [];
        detection_name = flags.detection_name;
        trim_length = flags.trim_length;
        trim_algorithm = algorithm;
        variant = pos 0;
        min_piece_length = pos 4;
        tag = [];
        meta = [];
        item_id = [];
        disable_nibble_masking = flags.disable_nibble_masking;
        filtered_function_address = addresses;
        function_filter = if includes then filter_include else filter_exclude;
      }) in
    if includes && not (is_empty flags.function_excludes) then none else definition

abbrev pub new_signature : SignatureDefinition → Signature
new_signature definition = record {
  raw_signature = [];
  clam_av_data = [];
  yara_data = [];
  definition = definition;
}

-- An error stops the process.
abbrev pub or_stop : {A : Type 0} → Option (Result A) → Option (Result A)
or_stop none = none
or_stop (some (ok a)) = some (ok a)
or_stop (some (failed s)) = none
or_stop (some undefined) = some undefined

module _ (env : Environment) (parsers : FlagParsers) (hex : HexPrinter) (debug : Yara.DebugFlags)
    (std : Algorithms) where
  -- `SiggenMain` on the arguments behind the program's name: the signature's text, which is printed
  -- between two lines that mark it.
  unfoldable pub siggen_main : Flags → List Bytes → Option (Result Bytes)
  unfolding definition_of generate create format
  siggen_main flags files =
      let printed : Option (Result Bytes) = definition_of parsers flags >>= λ definition.
      create yara >>= λ formatter.
      and_then
        (or_stop (generate env (add_diff_results files new_generator) (new_signature definition)))
        λ generated.
          and_then
            (or_stop (some (format hex env.to_string debug std formatter generated.signature)))
            λ signature. some (ok signature.yara_data) in
      if is_empty files then none else printed
