-- ===== src/Signature/Subset/Indices.antt =====
-- Lists of indices up to their order: what a permutation or a choice of some of them keeps.
use mathlib.Core.List.{Permᴰ}
use mathlib.Core.List.Permᴰ
use vxsig.Prelude.{
  ℕ, suc, ◌≤◌, ◌≢◌, refl, sym, subst, ◌∙◌, List, [], ◌∷◌, ◌++◌, arith, All, All-map, Distinct,
}
use vxsig.Signature.Subset.{Ascending}

module _ {ℓ} (P : ℕ → Type ℓ) where
  pub All-perm : {xs ys : List ℕ} → Permᴰ xs ys → All P ys → All P xs
  All-perm Permᴰ.nil h = tt
  All-perm (Permᴰ.cons e p) h = (subst P (sym e) h.0, All-perm p h.1)
  All-perm (Permᴰ.swap e f) h = (subst P (sym e) h.1.0, (subst P (sym f) h.0, h.1.1))
  All-perm (Permᴰ.trans p q) h = All-perm p (All-perm q h)

  All-append_left : (xs ys : List ℕ) → All P (xs ++ ys) → All P xs
  All-append_left [] ys h = tt
  All-append_left (x ∷ xs) ys h = (h.0, All-append_left xs ys h.1)

Distinct-perm : {xs ys : List ℕ} → Permᴰ xs ys → Distinct ys → Distinct xs
Distinct-perm Permᴰ.nil h = tt
Distinct-perm (Permᴰ.cons {l₁} e p) h =
    (subst (λ i. All (λ y. i ≢ y) l₁) (sym e) (All-perm (λ y. _ ≢ y) p h.0), Distinct-perm p h.1)
Distinct-perm (Permᴰ.swap {l} e f) h = (
  (λ same. h.0.0 (sym f ∙ (sym same ∙ e)), subst (λ i. All (λ y. i ≢ y) l) (sym e) h.1.0),
  (subst (λ i. All (λ y. i ≢ y) l) (sym f) h.0.1, h.1.1),
)
Distinct-perm (Permᴰ.trans p q) h = Distinct-perm p (Distinct-perm q h)

Distinct-append_left : (xs ys : List ℕ) → Distinct (xs ++ ys) → Distinct xs
Distinct-append_left [] ys h = tt
Distinct-append_left (x ∷ xs) ys h =
    (All-append_left (λ y. x ≢ y) xs ys h.0, Distinct-append_left xs ys h.1)

-- Strictly ascending, from `b` on.
abbrev pub Increasing : ℕ → List ℕ → Type 0
Increasing b [] = Unit
Increasing b (i ∷ is) = (b ≤ i) × Increasing (suc i) is

Increasing-le : (b c : ℕ) (is : List ℕ) → b ≤ c → Increasing c is → All (λ i. b ≤ i) is
Increasing-le b c [] h inc = tt
Increasing-le b c (i ∷ is) h inc = (omega arith, Increasing-le b (suc i) is (omega arith) inc.1)

Increasing-Distinct : (b : ℕ) (is : List ℕ) → Increasing b is → Distinct is
Increasing-Distinct b [] inc = tt
Increasing-Distinct b (i ∷ is) inc = (
  All-map is (λ j lt e. absurd (omega arith))
      (Increasing-le (suc i) (suc i) is (omega arith) inc.1),
  Increasing-Distinct (suc i) is inc.1,
)

Ascending-le : (i j : ℕ) (is : List ℕ) → i ≤ j → Ascending (j ∷ is) → All (λ k. i ≤ k) (j ∷ is)
Ascending-le i j [] h asc = (h, tt)
Ascending-le i j (k ∷ is) h asc = (h, Ascending-le i k is (omega arith) asc.1)

Ascending-Increasing :
    (b : ℕ) (is : List ℕ) → All (λ i. b ≤ i) is → Ascending is → Distinct is → Increasing b is
Ascending-Increasing b [] lo asc d = tt
Ascending-Increasing b (i ∷ []) lo asc d = (lo.0, tt)
Ascending-Increasing b (i ∷ j ∷ is) lo asc d = (
  lo.0,
  Ascending-Increasing (suc i) (j ∷ is) (above (j ∷ is) (Ascending-le i j is asc.0 asc.1) d.0) asc.1
      d.1,
)
  where
    above : (l : List ℕ) → All (λ k. i ≤ k) l → All (λ k. i ≢ k) l → All (λ k. suc i ≤ k) l
    above [] h k = tt
    above (x ∷ l) h k = (omega arith, above l h.1 k.1)

-- Some of the indices, in some order.
pub data SomeOf (xs ys : List ℕ) : Type 0 where
  some_of : (zs : List ℕ) → Permᴰ (xs ++ zs) ys → SomeOf xs ys

pub SomeOf-refl : (xs : List ℕ) → SomeOf xs xs
SomeOf-refl xs = some_of [] (Permᴰ.append-nil xs)

pub SomeOf-perm : {xs ys zs : List ℕ} → SomeOf xs ys → Permᴰ ys zs → SomeOf xs zs
SomeOf-perm (some_of rest p) q = some_of rest (Permᴰ.trans p q)

pub SomeOf-All {ℓ} : (P : ℕ → Type ℓ) {xs ys : List ℕ} → SomeOf xs ys → All P ys → All P xs
SomeOf-All P {xs} (some_of rest p) h = All-append_left P xs rest (All-perm P p h)

pub SomeOf-keep : {i : ℕ} {xs ys : List ℕ} → SomeOf xs ys → SomeOf (i ∷ xs) (i ∷ ys)
SomeOf-keep (some_of rest p) = some_of rest (Permᴰ.cons refl p)

pub SomeOf-skip : (i : ℕ) {xs ys : List ℕ} → SomeOf xs ys → SomeOf xs (i ∷ ys)
SomeOf-skip i {xs} (some_of rest p) =
    some_of (i ∷ rest) (Permᴰ.trans (Permᴰ.middle i xs rest) (Permᴰ.cons refl p))

-- Some of strictly ascending indices, in ascending order, ascend strictly.
pub SomeOf-Increasing :
    (b : ℕ) {xs ys zs : List ℕ}
    → SomeOf xs ys
    → Increasing b ys
    → Permᴰ zs xs
    → Ascending zs
    → Increasing b zs
SomeOf-Increasing b {xs} {ys} {zs} (some_of rest p) inc q asc =
    Ascending-Increasing b zs
      (All-perm (λ i. b ≤ i) q
        (SomeOf-All (λ i. b ≤ i) (some_of rest p) (Increasing-le b b ys (omega arith) inc)))
      asc
      (Distinct-perm q
        (Distinct-append_left xs rest (Distinct-perm p (Increasing-Distinct b ys inc))))
