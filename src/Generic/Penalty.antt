-- ===== src/Generic/Penalty.antt =====
-- `PenalizeShortAtoms`.
pub mod Zeroed
use vxsig.Prelude.{
  ℕ, zero, suc, ◌+◌, ◌-◌, Bool, true, false, ◌&&◌, List, [], ◌∷◌, Option, none, some, ltb,
  if◌then◌else◌, length, get_or, set, ℤ, pos, pos_part, ltb_ℤ,
}
use vxsig.Generic.{
  ByteType, ByteWithExtra, is_wildcard, is_single_wildcard, is_regular, wildcard_byte,
}

-- `(*regex)[i].type`, read where `i` is below the size.
abbrev pub type_at : List ByteWithExtra → ℕ → ByteType
type_at regex i = (get_or regex i wildcard_byte).type_of

-- The inner loops: from `i`, over the bytes of a type. At most `rounds` are left.
pub skip_while : (ByteType → Bool) → List ByteWithExtra → ℕ → ℕ → ℕ
skip_while is_type regex zero i = i
skip_while is_type regex (suc rounds) i =
    let further = skip_while is_type regex rounds (i + 1) in
    if ltb i (length regex) && is_type (type_at regex i) then further else i

-- `(*regex)[j].weight = 0`.
pub zero_weight : List ByteWithExtra → ℕ → List ByteWithExtra
zero_weight regex j = set regex j (record (get_or regex j wildcard_byte) { weight = pos 0 })

-- The same for `n` bytes from `j`.
pub zero_weights : ℕ → ℕ → List ByteWithExtra → List ByteWithExtra
unfolding zero_weight
zero_weights zero j regex = regex
zero_weights (suc n) j regex = zero_weights n (j + 1) (zero_weight regex j)

-- The variables of the loop.
pub record AtomScan : Type 0 where
  pub regex : List ByteWithExtra
  pub i : ℕ
  pub num_regular : ℕ
  pub piece_start : ℕ

-- The rest of a round, from the byte behind the atom.
pub penalize_atom : ℕ → AtomScan → AtomScan
unfolding zero_weights skip_while
penalize_atom min_piece_length s =
    let penalize_piece = ltb s.num_regular min_piece_length in
    let next = skip_while is_single_wildcard s.regex (length s.regex) (s.i + 1) in
    record {
      regex =
          if penalize_piece
          then zero_weights (next - (s.i + 1)) (s.i + 1)
              (zero_weights (s.i - s.piece_start) s.piece_start s.regex)
          else s.regex;
      i = next;
      num_regular = s.num_regular;
      piece_start = s.piece_start;
    }

-- Where the first inner loop ends.
abbrev pub after_atom : AtomScan → ℕ → AtomScan
after_atom s end = record {
  regex = s.regex;
  i = end;
  num_regular = s.num_regular + (end - s.i);
  piece_start = s.piece_start;
}

abbrev pub initial_scan : List ByteWithExtra → AtomScan
initial_scan regex = record { regex = regex; i = 0; num_regular = 0; piece_start = 0 }

-- A round of the outer loop.
pub penalize_round : ℕ → AtomScan → AtomScan
unfolding penalize_atom skip_while
penalize_round min_piece_length s =
    let end = skip_while is_regular s.regex (length s.regex) s.i in
    if ltb end (length s.regex) && is_wildcard (type_at s.regex end)
    then record { regex = s.regex; i = end + 1; num_regular = 0; piece_start = end + 1 }
    else penalize_atom min_piece_length (after_atom s end)

pub penalize_from : ℕ → ℕ → AtomScan → Option (List ByteWithExtra)
unfolding penalize_round
penalize_from min_piece_length zero s = if ltb s.i (length s.regex) then none else some s.regex
penalize_from min_piece_length (suc rounds) s =
    let rest = penalize_from min_piece_length rounds (penalize_round min_piece_length s) in
    if ltb s.i (length s.regex) then rest else some s.regex

-- `none` is the CHECK that fails, or a loop that is not finished after a round for each byte.
unfoldable pub penalize_short_atoms : ℤ → List ByteWithExtra → Option (List ByteWithExtra)
unfolding penalize_from
penalize_short_atoms min_piece_length regex =
    let penalized = penalize_from (pos_part min_piece_length) (length regex) (initial_scan regex) in
    if ltb_ℤ min_piece_length (pos 1) then none else penalized
