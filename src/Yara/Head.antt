-- ===== src/Yara/Head.antt =====
-- What stands before the hexadecimal string of a YARA rule, described without the code.
use vxsig.Prelude.{
  ℕ, ◌≤◌, ◌≡◌, ◌≢◌, ◌⊎◌, refl, sym, inl, inr, Bool, true, false, List, [], ◌∷◌, ◌++◌, map, arith, ℤ,
  ◌==◌, ==_iff, subst, drop_or_full, length-take, none, some, if◌then◌else◌, Bool-cases, length,
  take, drop, take-append-drop,
}
use vxsig.Signature.{
  Bytes, Meta, MetaValue, string_value, int_value, bool_value, value_not_set, SignatureDefinition,
}
use vxsig.Yara.Text.{open_text, meta_text, true_text, false_text, equals_text, strings_text}
use vxsig.Yara.{make_valid_identifier, tags_text, meta_value, meta_lines, rule_head}

-- Every "-" is a "_".
pub data Replaced : Bytes → Bytes → Type 0 where
  nil : Replaced [] []
  dash : {xs ys : Bytes} → Replaced xs ys → Replaced (b'-' ∷ xs) (b'_' ∷ ys)
  same : {c : ℕ} {xs ys : Bytes} → c ≢ b'-' → Replaced xs ys → Replaced (c ∷ xs) (c ∷ ys)

-- A text as an identifier: its first 128 bytes, or all if it is shorter, with every "-" replaced.
pub record IsIdentifier (text identifier : Bytes) : Type 0 where
  pub front : Bytes
  pub rest : Bytes
  pub split : front ++ rest ≡ text
  pub cut : (rest ≡ []) ⊎ (length front ≡ 128)
  pub short : length front ≤ 128
  pub replaced : Replaced front identifier

-- The tags, the first behind a colon.
pub data Tags : Bool → List Bytes → Bytes → Type 0 where
  no_tag : {first : Bool} → Tags first [] []
  first_tag :
      {tag identifier text : Bytes} {tags : List Bytes}
      → IsIdentifier tag identifier
      → Tags false tags text
      → Tags true (tag ∷ tags) (b' ' ∷ b':' ∷ b' ' ∷ identifier ++ text)
  next_tag :
      {tag identifier text : Bytes} {tags : List Bytes}
      → IsIdentifier tag identifier
      → Tags false tags text
      → Tags false (tag ∷ tags) (b' ' ∷ identifier ++ text)

-- The name of a rule: the detection name, or the id where this is empty.
pub data IsName (definition : SignatureDefinition) : Bytes → Type 0 where
  detection : definition.detection_name ≢ [] → IsName definition definition.detection_name
  unnamed : definition.detection_name ≡ [] → IsName definition definition.unique_signature_id

module _ (to_string : ℤ → Bytes) where
  -- The value of an entry that is set.
  pub data Value : MetaValue → Bytes → Type 0 where
    a_string :
        {text identifier : Bytes}
        → IsIdentifier text identifier
        → Value (string_value text) (b'"' ∷ identifier ++ b'"' ∷ [])
    an_integer : {i : ℤ} → Value (int_value i) (to_string i)
    is_true : Value (bool_value true) true_text
    is_false : Value (bool_value false) false_text

  -- The entries, a line for each that is set.
  pub data Entries : List Meta → Bytes → Type 0 where
    no_entry : Entries [] []
    unset :
        {entry : Meta} {entries : List Meta} {text : Bytes}
        → entry.value ≡ value_not_set
        → Entries entries text
        → Entries (entry ∷ entries) text
    entry_line :
        {entry : Meta} {printed : Bytes} {entries : List Meta} {text : Bytes}
        → Value entry.value printed
        → Entries entries text
        → Entries
            (entry ∷ entries)
            (b' ' ∷ b' ' ∷ b' ' ∷ b' ' ∷ entry.key ++ (equals_text ++ (printed ++ 10 ∷ text)))

  -- The section of the entries, which is left out if there are none.
  pub data Section : List Meta → Bytes → Type 0 where
    without : Section [] []
    with_entries :
        {entry : Meta} {entries : List Meta} {text : Bytes}
        → Entries (entry ∷ entries) text
        → Section (entry ∷ entries) (meta_text ++ text)

  pub record Head (definition : SignatureDefinition) (text : Bytes) : Type 0 where
    pub name : Bytes
    pub identifier : Bytes
    pub tags : Bytes
    pub entries : Bytes
    pub is_name : IsName definition name
    pub is_identifier : IsIdentifier name identifier
    pub are_tags : Tags true definition.tag tags
    pub are_entries : Section definition.meta entries
    pub parts :
        text
        ≡ b'r' ∷ b'u' ∷ b'l' ∷ b'e' ∷ b' ' ∷ identifier
          ++ (tags ++ (open_text ++ (entries ++ strings_text)))

map-Replaced : (xs : Bytes) → Replaced xs (map (λ c. if c == b'-' then b'_' else c) xs)
map-Replaced [] = nil
map-Replaced (x ∷ xs) = elim (Bool-cases (x == b'-')) [
  | inl is ↦ rw is (
      subst (λ c. Replaced (c ∷ xs) (b'_' ∷ map (λ c. if c == b'-' then b'_' else c) xs))
        (sym ((==_iff x b'-').0 is)) (dash (map-Replaced xs)))
  | inr is_not ↦ rw is_not (same (λ e. absurd (ground arith)) (map-Replaced xs))
]

make_valid_identifier-IsIdentifier : (text : Bytes) → IsIdentifier text (make_valid_identifier text)
unfolding make_valid_identifier
make_valid_identifier-IsIdentifier text = record {
  front = take 128 text;
  rest = drop 128 text;
  split = take-append-drop 128 text;
  cut = drop_or_full 128 text;
  short = omega (arith, length-take 128 text);
  replaced = map-Replaced (take 128 text);
}

tags_text-Tags : (first : Bool) (tags : List Bytes) → Tags first tags (tags_text first tags)
unfolding tags_text
tags_text-Tags first [] = no_tag
tags_text-Tags true (tag ∷ tags) =
    first_tag (make_valid_identifier-IsIdentifier tag) (tags_text-Tags false tags)
tags_text-Tags false (tag ∷ tags) =
    next_tag (make_valid_identifier-IsIdentifier tag) (tags_text-Tags false tags)

detection-IsName :
    (definition : SignatureDefinition) (detection_name : Bytes)
    → definition.detection_name ≡ detection_name
    → IsName definition (elim detection_name as (λ _. Bytes) [
      | [] ↦ definition.unique_signature_id
      | ◌∷◌ c cs ↦ c ∷ cs
    ])
detection-IsName definition [] e = unnamed e
detection-IsName definition (c ∷ cs) e =
    subst (IsName definition) e (detection (λ none_. absurd (ground arith)))

module _ (to_string : ℤ → Bytes) where
  meta_value-Value :
      (value : MetaValue)
      → ((meta_value to_string value ≡ none) × (value ≡ value_not_set))
        ⊎ ((printed : Bytes) × (meta_value to_string value ≡ some printed)
            × Value to_string value printed)
  unfolding meta_value
  meta_value-Value (string_value text) =
      inr (_, refl, a_string (make_valid_identifier-IsIdentifier text))
  meta_value-Value (int_value i) = inr (_, refl, an_integer)
  meta_value-Value (bool_value true) = inr (_, refl, is_true)
  meta_value-Value (bool_value false) = inr (_, refl, is_false)
  meta_value-Value value_not_set = inl (refl, refl)

  meta_lines-Entries :
      (entries : List Meta) → Entries to_string entries (meta_lines to_string entries)
  unfolding meta_lines
  meta_lines-Entries [] = no_entry
  meta_lines-Entries (entry ∷ entries) = elim (meta_value-Value entry.value) [
    | inl (is_none, not_set) ↦ rw (is_none, meta_lines) (unset not_set (meta_lines-Entries entries))
    | inr (printed, is_some, is_value) ↦
        rw (is_some, meta_lines) (entry_line is_value (meta_lines-Entries entries))
  ]

  meta-Section :
      (entries : List Meta)
      → Section to_string entries (elim entries as (λ _. Bytes) [
        | [] ↦ []
        | ◌∷◌ entry rest ↦ meta_text ++ meta_lines to_string (entry ∷ rest)
      ])
  meta-Section [] = without
  meta-Section (entry ∷ entries) = with_entries (meta_lines-Entries (entry ∷ entries))

  pub rule_head-Head :
      (definition : SignatureDefinition)
      → Head to_string definition (rule_head to_string definition)
  unfolding rule_head
  rule_head-Head definition = record {
    name = _;
    identifier = _;
    tags = _;
    entries = _;
    is_name = detection-IsName definition definition.detection_name refl;
    is_identifier = make_valid_identifier-IsIdentifier _;
    are_tags = tags_text-Tags true definition.tag;
    are_entries = meta-Section definition.meta;
    parts = refl;
  }
