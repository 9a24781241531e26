-- ===== src/Regex/Last.antt =====
-- The last sequence decides where `RegexFromSubsequence` puts wildcards.
use mathlib.Core.Option.{some-injective}
use vxsig.Prelude.{
  ℕ, ◌≡◌, sym, ap, subst, ◌∙◌, Bool, false, List, [], ◌∷◌, ◌++◌, map, some, arith, Eq, length,
  get_elem?-append_last, All, All-append,
}
use vxsig.Subsequence.{Subsequence}
use vxsig.Regex.{find_behind, Gap, is_interrupted, first?, regex_from, regex_from_subsequence}
use vxsig.Regex.Find.{
  find_behind-Subsequence, find_behind-cons, LastMoved, last_moved, advance_all-LastMoved,
}
use vxsig.Regex.Total.{regex_from_subsequence-total}
use vxsig.Regex.Matching.{
  Item, literal, Follows, end, item, Starts, empty, first, Occurs, unbounded, built, Emitted,
  emitted, built-Emitted, regex_from_subsequence-Occurs,
}

module _ {ℓ} {A : Type ℓ} ⦃e : Eq A⦄ where
  Follows-refl : (cs l : List A) → Subsequence cs l → Follows cs l l
  Follows-refl [] l p = end
  Follows-refl (x ∷ cs) l p =
      let (n, rest, found, q) = find_behind-Subsequence l x cs p in
      item found found (λ z. z) (Follows-refl cs rest q)

  Starts-refl : (cs l : List A) → Subsequence cs l → Starts cs l l
  Starts-refl [] l p = empty
  Starts-refl (x ∷ cs) l p =
      let (n, rest, found, q) = find_behind-Subsequence l x cs p in
      first found found (Follows-refl cs rest q)

  -- If the sequences contain the common subsequence, the expression is built, and it matches
  -- somewhere in the last of them.
  pub regex_from_subsequence-Occurs_last :
      (cs : List A) (init : List (List A)) (l : List A)
      → All (Subsequence cs) init
      → Subsequence cs l
      → (items : List (Item A)) × (regex_from_subsequence literal unbounded cs (init ++ (l ∷ []))
          ≡ some items)
        × Occurs items l
  regex_from_subsequence-Occurs_last cs init l all p =
      let (items, h) =
        regex_from_subsequence-total literal unbounded cs (init ++ (l ∷ []))
          (All-append (Subsequence cs) init (l ∷ []) all (p, tt)) in
      (
        items,
        h,
        regex_from_subsequence-Occurs cs init l l (length init) items h
            (get_elem?-append_last init l) (Starts-refl cs l p),
      )

  -- The items of `cs` stand at the beginning of `l`.
  pub data Adjacent : List A → List A → Type ℓ where
    stop : {l : List A} → Adjacent [] l
    more :
        {x : A} {cs l l' : List A}
        → find_behind l x ≡ some (0, l')
        → Adjacent cs l'
        → Adjacent (x ∷ cs) l

  clear_flag :
      (c : A) (cs l : List A) (before flag : Bool)
      → Adjacent (c ∷ cs) l
      → is_interrupted (some c) l before ≡ some flag
      → flag ≡ false
  unfolding is_interrupted
  clear_flag c cs [] before flag adj h = absurd (ground arith)
  clear_flag c cs (z ∷ l) before flag (more found adj) h =
      ground (arith, (find_behind-cons z l c found).0)

  module _ (size : ℕ) where
    abbrev Claim : List A → Type ℓ
    Claim cs =
        (init : List (List A)) (l : List A) (items : List (Item A))
        → Adjacent cs l
        → built size false (init ++ (l ∷ [])) cs ≡ some items
        → items ≡ map literal cs

    tail_literal :
        (cs : List A) (x : A) (l l' : List A) (m : ℕ) (starts' : List (List A)) (gap' : Gap)
        (tail : List (Item A))
        → Claim cs
        → LastMoved x (first? cs) l starts' gap'
        → find_behind l x ≡ some (m, l')
        → Adjacent cs l'
        → built size gap'.insert_wildcard starts' cs ≡ some tail
        → tail ≡ map literal cs
    unfolding regex_from first?
    tail_literal [] x l l' m starts' gap' tail ih moved found adj h = sym (some-injective _ _ h)
    tail_literal (c ∷ cs) x l l' m starts' gap' tail ih (last_moved init' m' rest before e1 e2)
          found adj h =
        let same : l' ≡ rest = ap (λ t. t.1) (some-injective _ _ (sym found ∙ e1)) in
        let at_rest : Adjacent (c ∷ cs) rest = subst (Adjacent (c ∷ cs)) same adj in
        ih init' rest tail at_rest (
          subst (λ b. built size b (init' ++ (rest ∷ [])) (c ∷ cs) ≡ some tail)
            (clear_flag c cs rest before gap'.insert_wildcard at_rest e2) h)

    Emitted-literal :
        (x : A) (cs : List A) (init : List (List A)) (l l' : List A) (m : ℕ) {items : List (Item A)}
        → Claim cs
        → find_behind l x ≡ some (m, l')
        → Adjacent cs l'
        → Emitted size x cs false (init ++ (l ∷ [])) items
        → items ≡ map literal (x ∷ cs)
    Emitted-literal x cs init l l' m ih found adj (emitted starts' gap gap' tail e1 e2) =
        ap (◌∷◌ (literal x)) (
          tail_literal cs x l l' m starts' gap' tail ih
            (advance_all-LastMoved init l x (first? cs) gap e1) found adj e2)

    built-literal : (cs : List A) → Claim cs
    unfolding regex_from
    built-literal [] init l items adj h = sym (some-injective _ _ h)
    built-literal (x ∷ cs) init l items (more {l'} found adj) h =
        Emitted-literal x cs init l l' 0 (built-literal cs) found adj
          (built-Emitted size x cs false (init ++ (l ∷ [])) h)

  -- If the last sequence goes on, behind the first common item, with the others and nothing between
  -- them, an expression that is built holds no wildcard, whatever lies between them elsewhere.
  pub regex_from_subsequence-literal :
      (x : A) (cs : List A) (init : List (List A)) (l l' : List A) (m : ℕ) (items : List (Item A))
      → find_behind l x ≡ some (m, l')
      → Adjacent cs l'
      → regex_from_subsequence literal unbounded (x ∷ cs) (init ++ (l ∷ [])) ≡ some items
      → items ≡ map literal (x ∷ cs)
  unfolding regex_from_subsequence
  regex_from_subsequence-literal x cs init l l' m items found adj h =
      let size = length (x ∷ cs) in
      Emitted-literal size x cs init l l' m (built-literal size cs) found adj
        (built-Emitted size x cs false (init ++ (l ∷ [])) h)
