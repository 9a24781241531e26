-- ===== src/Generic/Penalty/Zeroed.antt =====
-- `PenalizeShortAtoms` ends, and changes nothing but weights, to 0.
use vxsig.Prelude.{
  ℕ, zero, suc, ◌+◌, ◌-◌, ◌<◌, ◌≤◌, ◌≡◌, ◌⊎◌, refl, ap, ◌∙◌, inl, inr, Bool, false, ◌&&◌, List, [],
  ◌∷◌, some, arith, ltb, Bool-cases, length, ℤ, pos, pos_part, ltb_ℤ,
}
use vxsig.Generic.{ByteType, ByteWithExtra, is_wildcard, is_single_wildcard, is_regular}
use vxsig.Generic.Penalty.{
  type_at, skip_while, zero_weight, zero_weights, AtomScan, penalize_atom, penalize_round,
  penalize_from, penalize_short_atoms, after_atom, initial_scan,
}

abbrev pub weightless : ByteWithExtra → ByteWithExtra
weightless b = record b { weight = pos 0 }

-- The same bytes, with a weight that is the same or 0.
abbrev pub Zeroed : List ByteWithExtra → List ByteWithExtra → Type 0
Zeroed [] [] = Unit
Zeroed (b ∷ bs) (c ∷ cs) = ((c ≡ b) ⊎ (c ≡ weightless b)) × Zeroed bs cs
Zeroed _ _ = ⊥

Zeroed-refl : (bs : List ByteWithExtra) → Zeroed bs bs
Zeroed-refl [] = tt
Zeroed-refl (b ∷ bs) = (inl refl, Zeroed-refl bs)

Zeroed-trans : (xs bs cs : List ByteWithExtra) → Zeroed xs bs → Zeroed bs cs → Zeroed xs cs
Zeroed-trans [] [] [] h k = tt
Zeroed-trans [] [] (c ∷ cs) h k = absurd k
Zeroed-trans [] (b ∷ bs) cs h k = absurd h
Zeroed-trans (a ∷ xs) [] cs h k = absurd h
Zeroed-trans (a ∷ xs) (b ∷ bs) [] h k = absurd k
Zeroed-trans (a ∷ xs) (b ∷ bs) (c ∷ cs) h k = (one h.0 k.0, Zeroed-trans xs bs cs h.1 k.1)
  where
    one :
        ((b ≡ a) ⊎ (b ≡ weightless a))
        → ((c ≡ b) ⊎ (c ≡ weightless b))
        → (c ≡ a) ⊎ (c ≡ weightless a)
    one (inl e) (inl f) = inl (f ∙ e)
    one (inl e) (inr f) = inr (f ∙ ap weightless e)
    one (inr e) (inl f) = inr (f ∙ e)
    one (inr e) (inr f) = inr (f ∙ ap weightless e)

length-Zeroed : (xs bs : List ByteWithExtra) → Zeroed xs bs → length bs ≡ length xs
length-Zeroed [] [] h = refl
length-Zeroed [] (b ∷ bs) h = absurd h
length-Zeroed (a ∷ xs) [] h = absurd h
length-Zeroed (a ∷ xs) (b ∷ bs) h = ap suc (length-Zeroed xs bs h.1)

zero_weight-Zeroed : (bs : List ByteWithExtra) (j : ℕ) → Zeroed bs (zero_weight bs j)
unfolding zero_weight
zero_weight-Zeroed [] j = tt
zero_weight-Zeroed (b ∷ bs) zero = (inr refl, Zeroed-refl bs)
zero_weight-Zeroed (b ∷ bs) (suc j) = (inl refl, zero_weight-Zeroed bs j)

zero_weights-Zeroed : (n j : ℕ) (bs : List ByteWithExtra) → Zeroed bs (zero_weights n j bs)
unfolding zero_weights
zero_weights-Zeroed zero j bs = Zeroed-refl bs
zero_weights-Zeroed (suc n) j bs =
    Zeroed-trans bs _ _ (zero_weight-Zeroed bs j) (zero_weights-Zeroed n (j + 1) (zero_weight bs j))

skip_while_upper :
    (f : ByteType → Bool) (bs : List ByteWithExtra) (rounds i : ℕ) → i ≤ skip_while f bs rounds i
unfolding skip_while
skip_while_upper f bs zero i = omega arith
skip_while_upper f bs (suc rounds) i = ground (arith, skip_while_upper f bs rounds (i + 1))

-- A round moves forward, and changes weights.
IsRound : AtomScan → AtomScan → Type 0
IsRound s t = (s.i < t.i) × Zeroed s.regex t.regex

penalize_atom-IsRound : (m : ℕ) (s : AtomScan) → IsRound s (penalize_atom m s)
unfolding penalize_atom IsRound
penalize_atom-IsRound m s = (
  ground (arith, skip_while_upper is_single_wildcard s.regex (length s.regex) (s.i + 1)),
  elim (Bool-cases (ltb s.num_regular m)) [
    | inl short ↦
        let next = skip_while is_single_wildcard s.regex (length s.regex) (s.i + 1) in
        let atom = zero_weights (s.i - s.piece_start) s.piece_start s.regex in
        rw short (
          Zeroed-trans s.regex atom _
            (zero_weights-Zeroed (s.i - s.piece_start) s.piece_start s.regex)
            (zero_weights-Zeroed (next - (s.i + 1)) (s.i + 1) atom))
    | inr long ↦ rw long (Zeroed-refl s.regex)
  ],
)

penalize_round-IsRound : (m : ℕ) (s : AtomScan) → IsRound s (penalize_round m s)
unfolding penalize_round IsRound
penalize_round-IsRound m s =
    let end = skip_while is_regular s.regex (length s.regex) s.i in
    let le = skip_while_upper is_regular s.regex (length s.regex) s.i in
    elim (Bool-cases (ltb end (length s.regex) && is_wildcard (type_at s.regex end))) [
      | inl wild ↦ rw wild (omega arith, Zeroed-refl s.regex)
      | inr atom ↦
          let (lt, z) = penalize_atom-IsRound m (after_atom s end) in rw atom (omega (arith, lt), z)
    ]

penalize_from-Zeroed :
    (m rounds : ℕ) (s : AtomScan)
    → length s.regex ≤ s.i + rounds
    → (out : List ByteWithExtra) × (penalize_from m rounds s ≡ some out) × Zeroed s.regex out
unfolding penalize_from IsRound
penalize_from-Zeroed m zero s enough = (s.regex, ground arith, Zeroed-refl s.regex)
penalize_from-Zeroed m (suc rounds) s enough = elim (Bool-cases (ltb s.i (length s.regex))) [
  | inr over ↦ (s.regex, rw over refl, Zeroed-refl s.regex)
  | inl more ↦
      let t = penalize_round m s in
      let (lt, z) = penalize_round-IsRound m s in
      let same = length-Zeroed s.regex t.regex z in
      let (out, e, z') = penalize_from-Zeroed m rounds t (omega arith) in
      (out, rw more e, Zeroed-trans s.regex t.regex out z z')
]

-- For a minimum of at least 1, the loops end, and each byte keeps its value, its type and its
-- origin, and keeps its weight or gets the weight 0.
pub penalize_short_atoms-Zeroed :
    (min_piece_length : ℤ) (regex : List ByteWithExtra)
    → ltb_ℤ min_piece_length (pos 1) ≡ false
    → (out : List ByteWithExtra) × (penalize_short_atoms min_piece_length regex ≡ some out)
      × Zeroed regex out
unfolding penalize_short_atoms
penalize_short_atoms-Zeroed min_piece_length regex h =
    let (out, e, z) =
      penalize_from-Zeroed (pos_part min_piece_length) (length regex) (initial_scan regex)
        (omega arith) in
    (out, rw h e, z)
