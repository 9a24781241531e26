-- ===== src/SignatureId.antt =====
-- vxsig/signature_definition_hash.cc: `SignatureDefinitionHasher`.
-- CityHash64, the serialization of a message and the "%04x" of `absl::StrAppendFormat` are parameters.
pub mod Prefixes
use vxsig.Prelude.{
  ℕ, zero, suc, ◌+◌, ◌-◌, ◌*◌, ◌/◌, ◌%◌, ◌^◌, ◌<◌, ◌≡◌, List, [], ◌∷◌, ◌++◌, length, get_or, ℤ, pos,
  to_size,
}
use vxsig.Signature.{Bytes}

-- The fields of `SignatureDefinition` that the hasher reads or clears; `other` is the rest.
pub record HashedDefinition : Type 0 where
  pub unique_signature_id : Bytes
  pub signature_group : List Bytes
  pub item_id : List Bytes
  pub variant : ℤ
  pub other : Bytes

-- The functions that are called. Four digits are enough for a number below 2 ^ 16.
pub record Hashing : Type 0 where
  pub city_hash_64 : Bytes → ℕ
  pub serialize : HashedDefinition → Bytes
  pub hex4 : ℕ → Bytes
  pub length-hex4 : (n : ℕ) → n < 65536 → length (hex4 n) ≡ 4

-- `^` on numbers of `w` bits.
pub xor : ℕ → ℕ → ℕ → ℕ
xor zero a b = 0
xor (suc w) a b = (a % 2 + b % 2) % 2 + 2 * xor w (a / 2) (b / 2)

-- `kSignatureItemPrefix`.
abbrev pub signature_item_prefix : Bytes
signature_item_prefix = b's' ∷ b'i' ∷ b'g' ∷ b'_' ∷ []

-- The constructor from a group and a variant.
abbrev pub of_group : Bytes → ℤ → HashedDefinition
of_group group variant = record {
  unique_signature_id = [];
  signature_group = group ∷ [];
  item_id = [];
  variant = variant;
  other = [];
}

module _ (h : Hashing) where
  -- `StringAppendShortenedHexInt`.
  pub string_append_shortened_hex_int : Bytes → ℕ → Bytes
  string_append_shortened_hex_int result value = result ++ h.hex4 (value % 65536)

  -- The loop of `GetItemIdsHash`.
  pub hash_items : ℕ → List Bytes → ℕ
  hash_items result [] = result
  hash_items result (item_id ∷ item_ids) =
      hash_items (xor 64 result (h.city_hash_64 item_id)) item_ids

  module _ (sig_def : HashedDefinition) where
    pub get_signature_id_prefix_up_to_group : Bytes
    unfolding string_append_shortened_hex_int
    get_signature_id_prefix_up_to_group =
        string_append_shortened_hex_int signature_item_prefix
          (h.city_hash_64 (get_or sig_def.signature_group 0 []))

    pub get_item_ids_hash : ℕ
    unfolding hash_items
    get_item_ids_hash = hash_items 0 sig_def.item_id

    pub get_signature_id_prefix_up_to_item_ids_hash : Bytes
    unfolding string_append_shortened_hex_int get_signature_id_prefix_up_to_group get_item_ids_hash
    get_signature_id_prefix_up_to_item_ids_hash =
        string_append_shortened_hex_int get_signature_id_prefix_up_to_group get_item_ids_hash

    pub get_signature_id_prefix_up_to_variant : Bytes
    unfolding string_append_shortened_hex_int get_signature_id_prefix_up_to_item_ids_hash
    get_signature_id_prefix_up_to_variant =
        string_append_shortened_hex_int get_signature_id_prefix_up_to_item_ids_hash
          (to_size sig_def.variant)

    pub get_signature_id_prefix_up_to_params_hash : Bytes
    unfolding string_append_shortened_hex_int get_signature_id_prefix_up_to_variant
    get_signature_id_prefix_up_to_params_hash =
        let def_copy = record sig_def { unique_signature_id = []; item_id = [] } in
        string_append_shortened_hex_int (get_signature_id_prefix_up_to_variant ++ b'_' ∷ [])
          (h.city_hash_64 (h.serialize def_copy))

    pub get_signature_id : ℤ → Bytes
    unfolding string_append_shortened_hex_int get_signature_id_prefix_up_to_params_hash
    get_signature_id rand =
        string_append_shortened_hex_int get_signature_id_prefix_up_to_params_hash (to_size rand)
