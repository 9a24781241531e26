-- ===== src/Regex/Matching.antt =====
-- Which of the sequences the expression of `RegexFromSubsequence` matches.
use mathlib.Core.Option.{some-injective}
use vxsig.Prelude.{
  ℕ, ◌≤◌, ◌≡◌, refl, sym, ap, subst, ◌∙◌, Bool, true, false, List, [], ◌∷◌, ◌++◌, Option, some,
  arith, Eq, ◌=?◌, length, get_elem?, if◌then◌else◌, >>=-eq-some,
}
use vxsig.Regex.{
  find_behind, Gap, is_interrupted, advance_all, first?, regex_from, regex_from_subsequence,
}
use vxsig.Regex.Find.{
  find_behind-split, find_behind-cons, IsMoved, advance_all-IsMoved, LastMoved, last_moved,
  advance_all-LastMoved,
}

-- An item of an expression: a byte, or a wildcard for at least and at most so many bytes.
pub data Item {ℓ} (A : Type ℓ) : Type ℓ where
  literal : A → Item A
  wildcard : ℕ → ℕ → Item A

module _ {ℓ} {A : Type ℓ} ⦃e : Eq A⦄ where
  -- The expression matches the beginning of the sequence.
  pub data Matches : List (Item A) → List A → Type ℓ where
    nothing : {s : List A} → Matches [] s
    byte :
        {x y : A} {items : List (Item A)} {s : List A}
        → (y =? x) ≡ true
        → Matches items s
        → Matches (literal x ∷ items) (y ∷ s)
    bytes :
        {lo hi : ℕ} {items : List (Item A)} {s : List A} (gap : List A)
        → lo ≤ length gap
        → length gap ≤ hi
        → Matches items s
        → Matches (wildcard lo hi ∷ items) (gap ++ s)

  -- The expression matches somewhere in the sequence.
  abbrev pub Occurs : List (Item A) → List A → Type ℓ
  Occurs items s = (before rest : List A) × (s ≡ before ++ rest) × Matches items rest

  -- Behind a common item, `s` goes on with the next one wherever `l` does.
  pub data Follows : List A → List A → List A → Type ℓ where
    end : {s l : List A} → Follows [] s l
    item :
        {x : A} {cs s s' l l' : List A} {n m : ℕ}
        → find_behind s x ≡ some (n, s')
        → find_behind l x ≡ some (m, l')
        → (m ≡ 0 → n ≡ 0)
        → Follows cs s' l'
        → Follows (x ∷ cs) s l

  -- The same, for the beginning, where nothing has been matched.
  pub data Starts : List A → List A → List A → Type ℓ where
    empty : {s l : List A} → Starts [] s l
    first :
        {x : A} {cs s s' l l' : List A} {n m : ℕ}
        → find_behind s x ≡ some (n, s')
        → find_behind l x ≡ some (m, l')
        → Follows cs s' l'
        → Starts (x ∷ cs) s l

  abbrev pub unbounded : ℕ → ℕ → List (Item A)
  unbounded lo hi = wildcard lo hi ∷ []

  -- Without the flag the last sequence goes on with the next item.
  abbrev Flagged : Bool → List A → List A → Type ℓ
  Flagged defer [] l = Unit
  Flagged defer (c ∷ cs) l =
      (m : ℕ) (l' : List A) → find_behind l c ≡ some (m, l') → defer ≡ false → m ≡ 0

  is_interrupted-Flagged :
      (cs rest : List A) (before flag : Bool)
      → is_interrupted (first? cs) rest before ≡ some flag
      → Flagged flag cs rest
  unfolding is_interrupted first?
  is_interrupted-Flagged [] rest before flag h = tt
  is_interrupted-Flagged (c ∷ cs) [] before flag h = absurd (ground arith)
  is_interrupted-Flagged (c ∷ cs) (z ∷ rest) before flag h =
      λ m l' found clear. (find_behind-cons z rest c found).1 (ground arith)

  -- One round: the wildcard, if any, and the item match what the search passed over.
  round-Matches :
      (s : List A) (x : A) (n lo hi : ℕ) (s' : List A) (defer : Bool) (tail : List (Item A))
      → find_behind s x ≡ some (n, s')
      → lo ≤ n
      → n ≤ hi
      → (defer ≡ false → n ≡ 0)
      → Matches tail s'
      → Matches ((if defer then unbounded lo hi else []) ++ (literal x ∷ tail)) s
  round-Matches s x n lo hi s' true tail found l h clear m =
      let (gap, y, e1, e2, e3) = find_behind-split s x found in
      subst (Matches (wildcard lo hi ∷ literal x ∷ tail)) (sym e3)
        (bytes gap (omega arith) (omega arith) (byte e2 m))
  round-Matches s x n lo hi s' false tail found l h clear m =
      let (gap, y, e1, e2, e3) = find_behind-split s x found in
      subst (Matches (literal x ∷ tail))
        (sym (e3 ∙ ap (λ g. g ++ (y ∷ s')) (length_zero gap (e1 ∙ clear refl)))) (byte e2 m)
    where
      length_zero : (g : List A) → length g ≡ 0 → g ≡ []
      length_zero [] h = refl
      length_zero (z ∷ g) h = absurd (omega arith)

  module _ (size : ℕ) where
    abbrev pub built : Bool → List (List A) → List A → Option (List (Item A))
    built = regex_from literal unbounded size

    pub data Emitted (x : A) (cs : List A) (defer : Bool) (starts : List (List A))
        : List (Item A) → Type ℓ where
      emitted :
          (starts' : List (List A)) (gap gap' : Gap) (tail : List (Item A))
          → advance_all x (first? cs) starts gap ≡ some (starts', gap')
          → built gap'.insert_wildcard starts' cs ≡ some tail
          → Emitted x cs defer starts
              ((if defer then unbounded gap'.min_cont gap'.max_cont else []) ++ (literal x ∷ tail))

    pub built-Emitted :
        (x : A) (cs : List A) (defer : Bool) (starts : List (List A)) {items : List (Item A)}
        → built defer starts (x ∷ cs) ≡ some items
        → Emitted x cs defer starts items
    unfolding regex_from
    built-Emitted x cs defer starts h =
        let ((starts', gap'), e1, h1) = >>=-eq-some (advance_all x (first? cs) starts _) _ h in
        let (tail, e2, h2) = >>=-eq-some (built gap'.insert_wildcard starts' cs) _ h1 in
        subst (Emitted x cs defer starts) (some-injective _ _ h2)
          (emitted starts' _ gap' tail e1 e2)

    -- The statement for what is left of the common subsequence.
    abbrev Claim : List A → Type ℓ
    Claim cs =
        (init : List (List A)) (s l : List A) (k : ℕ) (defer : Bool) (items : List (Item A))
        → get_elem? (init ++ (l ∷ [])) k ≡ some s
        → Flagged defer cs l
        → Follows cs s l
        → built defer (init ++ (l ∷ [])) cs ≡ some items
        → Matches items s

    rest_Matches :
        (cs : List A) (x : A) (starts' : List (List A)) (gap' : Gap) (l s' l' : List A) (k m : ℕ)
        (tail : List (Item A))
        → Claim cs
        → LastMoved x (first? cs) l starts' gap'
        → find_behind l x ≡ some (m, l')
        → get_elem? starts' k ≡ some s'
        → Follows cs s' l'
        → built gap'.insert_wildcard starts' cs ≡ some tail
        → Matches tail s'
    rest_Matches cs x starts' gap' l s' l' k m tail ih (last_moved init' m' rest before e1 e2) found
          at_k f h =
        let same : l' ≡ rest = ap (λ t. t.1) (some-injective _ _ (sym found ∙ e1)) in
        ih init' s' rest k gap'.insert_wildcard tail at_k
          (is_interrupted-Flagged cs rest before gap'.insert_wildcard e2)
          (subst (Follows cs s') same f) h

    IsMoved-found :
        (x : A) (s : List A) {s' : List A} {n : ℕ} (k : ℕ) (starts' : List (List A)) (gap' : Gap)
        → find_behind s x ≡ some (n, s')
        → IsMoved x starts' gap' k s
        → (get_elem? starts' k ≡ some s') × (gap'.min_cont ≤ n) × (n ≤ gap'.max_cont)
    IsMoved-found x s k starts' gap' found (n', rest, f1, at_k, lo, hi) =
        let pair = some-injective _ _ (sym f1 ∙ found) in
        let count : n' ≡ _ = ap (λ t. t.0) pair in
        (
          at_k ∙ ap some (ap (λ t. t.1) pair),
          subst (λ i. gap'.min_cont ≤ i) count lo,
          subst (λ i. i ≤ gap'.max_cont) count hi,
        )

    Emitted-Matches :
        (x : A) (cs : List A) (init : List (List A)) (s l s' l' : List A) (k n m : ℕ) (defer : Bool)
        {items : List (Item A)}
        → Claim cs
        → get_elem? (init ++ (l ∷ [])) k ≡ some s
        → (defer ≡ false → n ≡ 0)
        → find_behind s x ≡ some (n, s')
        → find_behind l x ≡ some (m, l')
        → Follows cs s' l'
        → Emitted x cs defer (init ++ (l ∷ [])) items
        → Matches items s
    Emitted-Matches x cs init s l s' l' k n m defer ih at_k clear found_s found_l f
          (emitted starts' gap gap' tail e1 e2) =
        let (at_k', lo, hi) =
          IsMoved-found x s k starts' gap' found_s
            (advance_all-IsMoved (init ++ (l ∷ [])) x (first? cs) gap e1 k s at_k) in
        round-Matches s x n gap'.min_cont gap'.max_cont s' defer tail found_s lo hi clear (
          rest_Matches cs x starts' gap' l s' l' k m tail ih
            (advance_all-LastMoved init l x (first? cs) gap e1) found_l at_k' f e2)

    built-Matches : (cs : List A) → Claim cs
    unfolding regex_from
    built-Matches [] init s l k defer items at_k flagged f h =
        subst (λ i. Matches i s) (some-injective _ _ h) nothing
    built-Matches (x ∷ cs) init s l k defer items at_k flagged
          (item {s'} {l'} {n} {m} found_s found_l cond f) h =
        Emitted-Matches x cs init s l s' l' k n m defer (built-Matches cs) at_k
          (λ clear. cond (flagged m l' found_l clear)) found_s found_l f
          (built-Emitted x cs defer (init ++ (l ∷ [])) h)

    Emitted-Occurs :
        (x : A) (cs : List A) (init : List (List A)) (s l s' l' : List A) (k n m : ℕ)
        {items : List (Item A)}
        → get_elem? (init ++ (l ∷ [])) k ≡ some s
        → find_behind s x ≡ some (n, s')
        → find_behind l x ≡ some (m, l')
        → Follows cs s' l'
        → Emitted x cs false (init ++ (l ∷ [])) items
        → Occurs items s
    Emitted-Occurs x cs init s l s' l' k n m at_k found_s found_l f
          (emitted starts' gap gap' tail e1 e2) =
        let (before, y, c1, c2, c3) = find_behind-split s x found_s in
        let (at_k', lo, hi) =
          IsMoved-found x s k starts' gap' found_s
            (advance_all-IsMoved (init ++ (l ∷ [])) x (first? cs) gap e1 k s at_k) in
        (
          before,
          y ∷ s',
          c3,
          byte c2 (
              rest_Matches cs x starts' gap' l s' l' k m tail (built-Matches cs)
                (advance_all-LastMoved init l x (first? cs) gap e1) found_l at_k' f e2),
        )

  -- The expression, with its bounds, matches each sequence that goes on with the next common item
  -- wherever the last sequence does.
  pub regex_from_subsequence-Occurs :
      (cs : List A) (init : List (List A)) (s l : List A) (k : ℕ) (items : List (Item A))
      → regex_from_subsequence literal unbounded cs (init ++ (l ∷ [])) ≡ some items
      → get_elem? (init ++ (l ∷ [])) k ≡ some s
      → Starts cs s l
      → Occurs items s
  unfolding regex_from_subsequence regex_from
  regex_from_subsequence-Occurs [] init s l k items h at_k st =
      ([], s, refl, subst (λ i. Matches i s) (some-injective _ _ h) nothing)
  regex_from_subsequence-Occurs (x ∷ cs) init s l k items h at_k
        (first {s'} {l'} {n} {m} found_s found_l f) =
      Emitted-Occurs (length (x ∷ cs)) x cs init s l s' l' k n m at_k found_s found_l f
        (built-Emitted (length (x ∷ cs)) x cs false (init ++ (l ∷ [])) h)
