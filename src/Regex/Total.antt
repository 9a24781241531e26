-- ===== src/Regex/Total.antt =====
-- `RegexFromSubsequence` stops on no CHECK where the common subsequence is one.
use vxsig.Prelude.{
  ℕ, ◌≡◌, refl, Bool, false, if◌then◌else◌, List, [], ◌∷◌, ◌++◌, some, Eq, length, All,
}
use vxsig.Subsequence.{Subsequence}
use vxsig.Regex.{
  Gap, initial_gap, collect, is_interrupted, advance_all, first?, regex_from,
  regex_from_subsequence,
}
use vxsig.Regex.Find.{find_behind-Subsequence}

module _ {ℓ} {A : Type ℓ} ⦃e : Eq A⦄ where
  is_interrupted-total :
      (cs rest : List A) (b : Bool)
      → Subsequence cs rest
      → (b' : Bool) × (is_interrupted (first? cs) rest b ≡ some b')
  unfolding is_interrupted first?
  is_interrupted-total [] rest b p = (b, refl)
  is_interrupted-total (c ∷ cs) [] b p = elim p [ ]
  is_interrupted-total (c ∷ cs) (z ∷ rest) b p = (_, refl)

  advance_all-total :
      (x : A) (cs : List A) (starts : List (List A)) (gap : Gap)
      → All (Subsequence (x ∷ cs)) starts
      → (starts' : List (List A)) × (gap' : Gap) × (advance_all x (first? cs) starts gap
          ≡ some (starts', gap'))
        × All (Subsequence cs) starts'
  unfolding advance_all
  advance_all-total x cs [] gap h = ([], gap, refl, tt)
  advance_all-total x cs (s ∷ starts) gap h =
      let (n, rest, e1, p) = find_behind-Subsequence s x cs h.0 in
      let (b, e2) = is_interrupted-total cs rest gap.insert_wildcard p in
      let (starts', gap', e3, all) = advance_all-total x cs starts (collect gap n b) h.1 in
      (rest ∷ starts', gap', rw (e1, e2, e3), (p, all))

  module _ {κ} {B : Type κ} (copy : A → B) (wildcard_inserter : ℕ → ℕ → List B) where
    regex_from-total :
        (cs : List A) (size : ℕ) (defer : Bool) (starts : List (List A))
        → All (Subsequence cs) starts
        → (items : List B) × (regex_from copy wildcard_inserter size defer starts cs ≡ some items)
    unfolding regex_from
    regex_from-total [] size defer starts h = ([], refl)
    regex_from-total (x ∷ cs) size defer starts h =
        let (starts', gap', e1, all) = advance_all-total x cs starts (initial_gap size) h in
        let (rest, e2) = regex_from-total cs size gap'.insert_wildcard starts' all in
        (
          (if defer then wildcard_inserter gap'.min_cont gap'.max_cont else []) ++ (copy x ∷ rest),
          rw (e1, e2),
        )

    -- If each sequence contains the common subsequence, an expression is built: no CHECK fails, and
    -- no sequence is read at its end.
    pub regex_from_subsequence-total :
        (cs : List A) (sequences : List (List A))
        → All (Subsequence cs) sequences
        → (items : List B) × (regex_from_subsequence copy wildcard_inserter cs sequences
            ≡ some items)
    unfolding regex_from_subsequence
    regex_from_subsequence-total cs sequences h = regex_from-total cs (length cs) false sequences h
