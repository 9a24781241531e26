-- ===== src/SignatureId/Prefixes.antt =====
-- Signature ids: their form, and that the order of the items is ignored.
use mathlib.Core.List.{Permᴰ}
use vxsig.Prelude.{
  to_size, ℕ, zero, suc, ◌+◌, ◌*◌, ◌/◌, ◌%◌, ◌<◌, ◌≡◌, refl, sym, ap, ap₂, ◌∙◌, List, [], ◌∷◌, ◌++◌,
  append_assoc, arith, length, length-append, ℤ,
}
use vxsig.Signature.{Bytes}
use vxsig.SignatureId.{
  HashedDefinition, Hashing, xor, signature_item_prefix, string_append_shortened_hex_int,
  hash_items, get_signature_id_prefix_up_to_group, get_item_ids_hash,
  get_signature_id_prefix_up_to_item_ids_hash, get_signature_id_prefix_up_to_variant,
  get_signature_id_prefix_up_to_params_hash, get_signature_id,
}

high : (bit rest : ℕ) → bit < 2 → (bit + 2 * rest) / 2 ≡ rest
high bit rest h = omega arith

low_comm :
    (a b c x y : ℕ) → (((a + b) % 2 + 2 * x) % 2 + c) % 2 ≡ (((a + c) % 2 + 2 * y) % 2 + b) % 2
low_comm a b c x y = omega arith

xor_right_comm : (w a b c : ℕ) → xor w (xor w a b) c ≡ xor w (xor w a c) b
unfolding xor
xor_right_comm zero a b c = refl
xor_right_comm (suc w) a b c =
    ap₂ (λ x y. x + 2 * y)
      (low_comm (a % 2) (b % 2) (c % 2) (xor w (a / 2) (b / 2)) (xor w (a / 2) (c / 2)))
      (ap (λ x. xor w x (c / 2)) (high ((a % 2 + b % 2) % 2) (xor w (a / 2) (b / 2)) (omega arith))
        ∙ (xor_right_comm w (a / 2) (b / 2) (c / 2)
            ∙ sym (
                ap (λ x. xor w x (b / 2))
                  (high ((a % 2 + c % 2) % 2) (xor w (a / 2) (c / 2)) (omega arith)))))

module _ (h : Hashing) where
  hash_items-perm :
      {xs ys : List Bytes} → Permᴰ xs ys → (r : ℕ) → hash_items h r xs ≡ hash_items h r ys
  unfolding hash_items
  hash_items-perm Permᴰ.nil r = refl
  hash_items-perm (Permᴰ.cons {l₁} {l₂} e p) r =
      ap (λ x. hash_items h (xor 64 r (h.city_hash_64 x)) l₁) e ∙ hash_items-perm p (xor 64 r _)
  hash_items-perm (Permᴰ.swap {l = l} e f) r =
      ap₂ (λ x y. hash_items h (xor 64 (xor 64 r (h.city_hash_64 x)) (h.city_hash_64 y)) l) e f
      ∙ ap (λ x. hash_items h x l) (xor_right_comm 64 r _ _)
  hash_items-perm (Permᴰ.trans p q) r = hash_items-perm p r ∙ hash_items-perm q r

  -- The hash of the item ids is the same for every order of the items.
  pub get_item_ids_hash-perm :
      (d : HashedDefinition) (item_ids : List Bytes)
      → Permᴰ item_ids d.item_id
      → get_item_ids_hash h (record d { item_id = item_ids }) ≡ get_item_ids_hash h d
  unfolding get_item_ids_hash
  get_item_ids_hash-perm d item_ids p = hash_items-perm p 0

  -- The id of a signature continues its prefixes, and each of them the one before: the prefix up to
  -- the group has 8 characters, the next two have 4 more each, the one up to the parameters has 5
  -- more, and the id has 4 more.
  pub get_signature_id-IsPrefixed :
      (d : HashedDefinition) (rand : ℤ)
      → (items variant params last : Bytes) × (get_signature_id_prefix_up_to_item_ids_hash h d
          ≡ get_signature_id_prefix_up_to_group h d ++ items)
        × (get_signature_id_prefix_up_to_variant h d
            ≡ get_signature_id_prefix_up_to_item_ids_hash h d ++ variant)
        × (get_signature_id_prefix_up_to_params_hash h d
            ≡ get_signature_id_prefix_up_to_variant h d ++ params)
        × (get_signature_id h d rand ≡ get_signature_id_prefix_up_to_params_hash h d ++ last)
        × (length (get_signature_id_prefix_up_to_group h d) ≡ 8)
        × (length items ≡ 4)
        × (length variant ≡ 4)
        × (length params ≡ 5)
        × (length last ≡ 4)
  unfolding get_signature_id get_signature_id_prefix_up_to_params_hash
      get_signature_id_prefix_up_to_variant get_signature_id_prefix_up_to_item_ids_hash
      get_signature_id_prefix_up_to_group string_append_shortened_hex_int
  get_signature_id-IsPrefixed d rand =
      let copy = record d { unique_signature_id = []; item_id = [] } in
      let digits = h.hex4 (h.city_hash_64 (h.serialize copy) % 65536) in
      let four = λ (n : ℕ). h.length-hex4 (n % 65536) (omega arith) in
      (
        h.hex4 (get_item_ids_hash h d % 65536),
        h.hex4 (to_size d.variant % 65536),
        b'_' ∷ digits,
        h.hex4 (to_size rand % 65536),
        refl,
        refl,
        append_assoc (get_signature_id_prefix_up_to_variant h d) (b'_' ∷ []) digits,
        refl,
        omega (arith, length-append signature_item_prefix (h.hex4 (_ % 65536)), four _),
        four _,
        four _,
        ap suc (four (h.city_hash_64 (h.serialize copy))),
        four _,
      )
