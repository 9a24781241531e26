-- ===== src/Regex/Find.antt =====
-- What `std::find` and the inner loop of `RegexFromSubsequence` do to one of the sequences.
use mathlib.Core.Option.{some-injective}
use vxsig.Prelude.{
  ℕ, zero, suc, ◌≤◌, ◌≡◌, refl, ◌↔◌, sym, ap, subst₂, ◌∙◌, inl, inr, Bool, true, false, List, [],
  ◌∷◌, ◌++◌, Option, some, arith, Eq, ◌=?◌, length, >>=-eq-some, Bool-cases, get_elem?,
}
use vxsig.Subsequence.{Subsequence, skip, keep, Subsequence-tail}
use vxsig.Regex.{find_behind, Gap, collect, is_interrupted, advance_all}

module _ {ℓ} {A : Type ℓ} ⦃e : Eq A⦄ where
  -- What is found: `n` skipped items, then one that is equal to `x`, then `rest`.
  pub find_behind-split :
      (s : List A) (x : A) {n : ℕ} {rest : List A}
      → find_behind s x ≡ some (n, rest)
      → (gap : List A) × (y : A) × (length gap ≡ n) × ((y =? x) ≡ true) × (s ≡ gap ++ (y ∷ rest))
  unfolding find_behind
  find_behind-split [] x h = absurd (ground arith)
  find_behind-split (y ∷ ys) x {n} {rest} h = elim (Bool-cases (y =? x)) [
    | inl eq ↦ ([], y, ground arith, eq, ground arith)
    | inr ne ↦
        let ((m, r), e1, e2) = >>=-eq-some (find_behind ys x) _ (rw ne at h) in
        let (gap, z, e3, e4, e5) = find_behind-split ys x e1 in
        (y ∷ gap, z, ground arith, e4, ap (◌∷◌ y) (e5 ∙ ap (λ t. gap ++ (z ∷ t)) (ground arith)))
  ]

  -- A sequence that contains `x ∷ cs` is searched with success, and contains `cs` behind the find.
  pub find_behind-Subsequence :
      (s : List A) (x : A) (cs : List A)
      → Subsequence (x ∷ cs) s
      → (n : ℕ) × (rest : List A) × (find_behind s x ≡ some (n, rest)) × Subsequence cs rest
  unfolding find_behind
  find_behind-Subsequence [] x cs p = elim p [ ]
  find_behind-Subsequence (y ∷ ys) x cs p = elim (Bool-cases (y =? x)) [
    | inl eq ↦ (0, ys, rw eq, Subsequence-tail p)
    | inr ne ↦
        let (n, rest, e1, q) = find_behind-Subsequence ys x cs (skipped p ne) in
        (suc n, rest, rw (ne, e1), q)
  ]
    where
      skipped : Subsequence (x ∷ cs) (y ∷ ys) → (y =? x) ≡ false → Subsequence (x ∷ cs) ys
      skipped (skip p') ne = p'
      skipped (keep h p') ne = absurd (ground (arith, e.beq_symm x y h))

  -- Nothing is skipped exactly where the sequence goes on with the item.
  pub find_behind-cons :
      (z : A) (rest : List A) (x : A) {n : ℕ} {rest' : List A}
      → find_behind (z ∷ rest) x ≡ some (n, rest')
      → (n ≡ 0) ↔ ((z =? x) ≡ true)
  unfolding find_behind
  find_behind-cons z rest x {n} h = elim (Bool-cases (z =? x)) [
    | inl eq ↦ (λ _. eq, λ _. ground arith)
    | inr ne ↦
        let ((m, r), e1, e2) = >>=-eq-some (find_behind rest x) _ (rw ne at h) in
        (λ none_skipped. absurd (ground arith), λ same. absurd (ground arith))
  ]

  -- What a successful round of the inner loop did.
  data Advanced (x : A) (next : Option A) (s : List A) (starts : List (List A)) (gap : Gap)
      : List (List A) → Gap → Type ℓ where
    advanced :
        {gap' : Gap} (n : ℕ) (rest : List A) (b : Bool) (tails : List (List A))
        → find_behind s x ≡ some (n, rest)
        → is_interrupted next rest gap.insert_wildcard ≡ some b
        → advance_all x next starts (collect gap n b) ≡ some (tails, gap')
        → Advanced x next s starts gap (rest ∷ tails) gap'

  advance_all-Advanced :
      (x : A) (next : Option A) (s : List A) (starts : List (List A)) (gap : Gap)
      {starts' : List (List A)} {gap' : Gap}
      → advance_all x next (s ∷ starts) gap ≡ some (starts', gap')
      → Advanced x next s starts gap starts' gap'
  unfolding advance_all
  advance_all-Advanced x next s starts gap {starts'} {gap'} h =
      let ((n, rest), e1, h1) = >>=-eq-some (find_behind s x) _ h in
      let (b, e2, h2) = >>=-eq-some (is_interrupted next rest gap.insert_wildcard) _ h1 in
      let ((tails, g), e3, h3) = >>=-eq-some (advance_all x next starts (collect gap n b)) _ h2 in
      let pair = some-injective _ _ h3 in
      subst₂ (Advanced x next s starts gap) (ap (λ t. t.0) pair) (ap (λ t. t.1) pair)
        (advanced n rest b tails e1 e2 e3)

  -- A sequence is moved behind its find, and the bounds hold for what it skipped.
  abbrev pub IsMoved : A → List (List A) → Gap → ℕ → List A → Type ℓ
  IsMoved x starts' gap' k s =
      (n : ℕ) × (rest : List A) × (find_behind s x ≡ some (n, rest))
      × (get_elem? starts' k ≡ some rest)
      × (gap'.min_cont ≤ n)
      × (n ≤ gap'.max_cont)

  abbrev AreMoved : A → List (List A) → Gap → List (List A) → Gap → Type ℓ
  AreMoved x starts gap starts' gap' =
      (gap'.min_cont ≤ gap.min_cont)
      × (gap.max_cont ≤ gap'.max_cont)
      × ((k : ℕ) (s : List A) → get_elem? starts k ≡ some s → IsMoved x starts' gap' k s)

  Advanced-AreMoved :
      (starts : List (List A)) (s : List A) {x : A} {next : Option A} {gap : Gap}
      {starts' : List (List A)} {gap' : Gap}
      → ((gap2 : Gap) (tails : List (List A))
          → advance_all x next starts gap2 ≡ some (tails, gap')
          → AreMoved x starts gap2 tails gap')
      → Advanced x next s starts gap starts' gap'
      → AreMoved x (s ∷ starts) gap starts' gap'
  Advanced-AreMoved starts s {x} {gap} {gap'} ih (advanced n rest b tails e1 e2 e3) =
      let (lo, hi, each) = ih (collect gap n b) tails e3 in
      (
        omega arith,
        omega arith,
        elim [
          | zero ↦ λ t at_k. (
            n,
            rest,
            ap (λ u. find_behind u x) (sym (some-injective _ _ at_k)) ∙ e1,
            refl,
            omega arith,
            omega arith,
          )
          | suc k ↦ λ t at_k. each k t at_k
        ],
      )

  advance_all-AreMoved :
      (starts : List (List A)) (x : A) (next : Option A) (gap : Gap) {starts' : List (List A)}
      {gap' : Gap}
      → advance_all x next starts gap ≡ some (starts', gap')
      → AreMoved x starts gap starts' gap'
  unfolding advance_all
  advance_all-AreMoved [] x next gap h =
      (ground arith, ground arith, λ k s at_k. absurd (ground arith))
  advance_all-AreMoved (s ∷ starts) x next gap h =
      Advanced-AreMoved starts s (λ gap2 tails. advance_all-AreMoved starts x next gap2)
        (advance_all-Advanced x next s starts gap h)

  -- The inner loop moves each sequence behind its find, and its bounds hold for each of them.
  pub advance_all-IsMoved :
      (starts : List (List A)) (x : A) (next : Option A) (gap : Gap) {starts' : List (List A)}
      {gap' : Gap}
      → advance_all x next starts gap ≡ some (starts', gap')
      → (k : ℕ) (s : List A) → get_elem? starts k ≡ some s
      → IsMoved x starts' gap' k s
  advance_all-IsMoved starts x next gap h = (advance_all-AreMoved starts x next gap h).2

  -- What the last sequence does decides on the flag that the inner loop leaves.
  pub data LastMoved (x : A) (next : Option A) (l : List A) : List (List A) → Gap → Type ℓ where
    last_moved :
        {gap' : Gap} (init' : List (List A)) (n : ℕ) (rest : List A) (before : Bool)
        → find_behind l x ≡ some (n, rest)
        → is_interrupted next rest before ≡ some gap'.insert_wildcard
        → LastMoved x next l (init' ++ (rest ∷ [])) gap'

  LastMoved-cons :
      {x : A} {next : Option A} {l : List A} (s' : List A) {starts' : List (List A)} {gap' : Gap}
      → LastMoved x next l starts' gap'
      → LastMoved x next l (s' ∷ starts') gap'
  LastMoved-cons s' (last_moved init' n rest before e1 e2) =
      last_moved (s' ∷ init') n rest before e1 e2

  Advanced-LastMoved_nil :
      {x : A} {next : Option A} {l : List A} {gap : Gap} {starts' : List (List A)} {gap' : Gap}
      → Advanced x next l [] gap starts' gap'
      → LastMoved x next l starts' gap'
  unfolding advance_all
  Advanced-LastMoved_nil {x} {next} {l} {gap} (advanced n rest b tails e1 e2 e3) =
      let pair = some-injective _ _ e3 in
      subst₂ (λ t g. LastMoved x next l (rest ∷ t) g) (ap (λ t. t.0) pair) (ap (λ t. t.1) pair)
        (last_moved [] n rest gap.insert_wildcard e1 e2)

  Advanced-LastMoved_cons :
      (starts : List (List A)) {s : List A} {x : A} {next : Option A} {l : List A} {gap : Gap}
      {starts' : List (List A)} {gap' : Gap}
      → ((gap2 : Gap) (tails : List (List A))
          → advance_all x next starts gap2 ≡ some (tails, gap')
          → LastMoved x next l tails gap')
      → Advanced x next s starts gap starts' gap'
      → LastMoved x next l starts' gap'
  Advanced-LastMoved_cons starts {gap} ih (advanced n rest b tails e1 e2 e3) =
      LastMoved-cons rest (ih (collect gap n b) tails e3)

  pub advance_all-LastMoved :
      (init : List (List A)) (l : List A) (x : A) (next : Option A) (gap : Gap)
      {starts' : List (List A)} {gap' : Gap}
      → advance_all x next (init ++ (l ∷ [])) gap ≡ some (starts', gap')
      → LastMoved x next l starts' gap'
  advance_all-LastMoved [] l x next gap h =
      Advanced-LastMoved_nil (advance_all-Advanced x next l [] gap h)
  advance_all-LastMoved (s ∷ init) l x next gap h =
      Advanced-LastMoved_cons (init ++ (l ∷ []))
        (λ gap2 tails. advance_all-LastMoved init l x next gap2)
        (advance_all-Advanced x next s (init ++ (l ∷ [])) gap h)
