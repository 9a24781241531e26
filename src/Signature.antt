-- ===== src/Signature.antt =====
-- The messages of vxsig/vxsig.proto that the formatters read, and the result of their functions.
-- A byte is a number below 256, a string the list of its bytes. An unset field is its default,
-- but for `Piece.weight`, whose presence the program asks for.
pub mod Subset
pub mod Results
use vxsig.Prelude.{
  ℕ, Bool, true, false, ◌&&◌, List, [], ◌∷◌, Option, none, some, ℤ, pos, ◌==◌, if◌then◌else◌,
  length,
}

abbrev pub Bytes : Type 0
Bytes = List ℕ

-- `==` on strings.
abbrev pub same_bytes : Bytes → Bytes → Bool
same_bytes [] [] = true
same_bytes (a ∷ s) (b ∷ t) = (a == b) && same_bytes s t
same_bytes _ _ = false

-- `RawSignature::Piece`. The indices of the masked nibbles, counted from 0 where they are written,
-- are not negative.
pub record Piece : Type 0 where
  pub bytes : Bytes
  pub weight : Option ℤ
  pub origin_disassembly : List Bytes
  pub masked_nibble : List ℕ

-- `piece.weight()`.
abbrev pub weight_of : Piece → ℤ
weight_of p = elim p.weight [ none ↦ pos 0 | some w ↦ w ]

abbrev pub size_of : Piece → ℕ
size_of p = length p.bytes

abbrev pub no_piece : Piece
no_piece = record { bytes = []; weight = none; origin_disassembly = []; masked_nibble = [] }

-- `SignatureDefinition::SignatureTrimAlgorithm`; a closed enum, so that no other value is read.
pub data TrimAlgorithm : Type 0 where
  trim_none trim_last trim_first trim_random trim_weighted trim_weighted_greedy : TrimAlgorithm

-- `SignatureDefinition::Meta`, with its `oneof`.
pub data MetaValue : Type 0 where
  string_value : Bytes → MetaValue
  int_value : ℤ → MetaValue
  bool_value : Bool → MetaValue
  value_not_set : MetaValue

pub record Meta : Type 0 where
  pub key : Bytes
  pub value : MetaValue

-- `SignatureDefinition::FunctionFilterMode`.
pub data FunctionFilterMode : Type 0 where
  filter_none filter_exclude filter_include : FunctionFilterMode

-- The fields of `SignatureDefinition` that the program reads, but for those of the hasher.
pub record SignatureDefinition : Type 0 where
  pub unique_signature_id : Bytes
  pub detection_name : Bytes
  pub trim_length : ℤ
  pub trim_algorithm : TrimAlgorithm
  pub variant : ℤ
  pub min_piece_length : ℤ
  pub tag : List Bytes
  pub meta : List Meta
  pub item_id : List Bytes
  pub disable_nibble_masking : Bool
  pub filtered_function_address : List ℕ
  pub function_filter : FunctionFilterMode

-- `Signature`: the data of an engine's signature is the empty text where it is not there.
pub record Signature : Type 0 where
  pub raw_signature : List Piece
  pub clam_av_data : Bytes
  pub yara_data : Bytes
  pub definition : SignatureDefinition

pub data Status : Type 0 where
  invalid_argument failed_precondition internal_error out_of_range : Status

-- What a function that returns an `absl::Status` leaves: its output, an error, or undefined
-- behaviour (an access out of bounds).
pub data Result {ℓ} (A : Type ℓ) : Type ℓ where
  ok : A → Result A
  failed : Status → Result A
  undefined : Result A

infixl 5 ◌>>=ᵣ◌
abbrev pub ◌>>=ᵣ◌ {ℓ κ} : {A : Type ℓ} {B : Type κ} → Result A → (A → Result B) → Result B
ok a >>=ᵣ f = f a
failed s >>=ᵣ f = failed s
undefined >>=ᵣ f = undefined

-- The result of code that may also stop the process, which is `none`: an error ends the function.
abbrev pub and_then {ℓ κ} :
    {A : Type ℓ} {B : Type κ} → Option (Result A) → (A → Option (Result B)) → Option (Result B)
and_then none f = none
and_then (some (ok a)) f = f a
and_then (some (failed s)) f = some (failed s)
and_then (some undefined) f = some undefined
