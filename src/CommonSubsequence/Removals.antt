-- ===== src/CommonSubsequence/Removals.antt =====
-- The removal set of `CommonSubsequence`: ascending indices, and what erasing them leaves.
use native.Mathlib.Decide.{dec_lt, ℕ_discrete}
use vxsig.Prelude.{
  ℕ, zero, suc, ◌+◌, ◌-◌, ◌≤◌, ◌<◌, ◌≡◌, refl, sym, ap, subst, ◌∙◌, true, false, Bool, List, [],
  ◌∷◌, some, arith, ◌==◌, length, get_elem?, if◌then◌else◌, All,
}
use vxsig.CommonSubsequence.{set_insert, erase_at, erase_all}

-- Ascending, from `b` on.
abbrev pub Ascending : ℕ → List ℕ → Type 0
Ascending b [] = Unit
Ascending b (r ∷ rs) = (b ≤ r) × Ascending (suc r) rs

abbrev pub mem : ℕ → List ℕ → Bool
mem k [] = false
mem k (r ∷ rs) = if k == r then true else mem k rs

pub set_insert-Ascending :
    (b i : ℕ) (rs : List ℕ) → b ≤ i → Ascending b rs → Ascending b (set_insert i rs)
unfolding set_insert
set_insert-Ascending b i [] h a = (h, tt)
set_insert-Ascending b i (r ∷ rs) h a = ground (arith, set_insert-Ascending (suc r) i rs)

pub set_insert-All {κ} :
    (P : ℕ → Type κ) (i : ℕ) (rs : List ℕ) → P i → All P rs → All P (set_insert i rs)
unfolding set_insert
set_insert-All P i [] p h = (p, tt)
set_insert-All P i (r ∷ rs) p h = ground (arith, set_insert-All P i rs)

pub mem-set_insert :
    (k i : ℕ) (rs : List ℕ) → mem k (set_insert i rs) ≡ (if k == i then true else mem k rs)
unfolding set_insert
mem-set_insert k i [] = refl
mem-set_insert k i (r ∷ rs) = ground (arith, mem-set_insert k i rs)

pub mem-All {κ} : (P : ℕ → Type κ) (k : ℕ) (rs : List ℕ) → All P rs → mem k rs ≡ true → P k
mem-All P k [] h m = absurd (ground arith)
mem-All P k (r ∷ rs) h m = elim (ℕ_discrete k r) [
  | yes e ↦ subst P (sym e) h.0
  | no ne ↦ mem-All P k rs h.1 (ground arith)
]

pub Ascending-weaken : (b c : ℕ) (rs : List ℕ) → b ≤ c → Ascending c rs → Ascending b rs
Ascending-weaken b c [] h a = tt
Ascending-weaken b c (r ∷ rs) h a = (omega arith, a.1)

-- Ascending indices below `n` are few.
pub length-Ascending :
    (b n : ℕ) (rs : List ℕ) → Ascending b rs → All (λ r. r < n) rs → length rs ≤ n - b
length-Ascending b n [] a h = omega arith
length-Ascending b n (r ∷ rs) a h = omega (arith, length-Ascending (suc r) n rs a.1 h.1)

-- If they are as many as can be, each index is among them.
pub mem-Ascending_full :
    (b n : ℕ) (rs : List ℕ) (k : ℕ)
    → Ascending b rs
    → All (λ r. r < n) rs
    → length rs ≡ n - b
    → b ≤ k
    → k < n
    → mem k rs ≡ true
mem-Ascending_full b n [] k a h e lo hi = absurd (omega arith)
mem-Ascending_full b n (r ∷ rs) k a h e lo hi =
    ground (arith, length-Ascending (suc r) n rs a.1 h.1, mem-Ascending_full (suc r) n rs k a.1 h.1)

pub two_le_length :
    (a b : ℕ) (rs : List ℕ) → b < a → mem a rs ≡ true → mem b rs ≡ true → 2 ≤ length rs
two_le_length a b [] lt p q = absurd (ground arith)
two_le_length a b (r ∷ []) lt p q = absurd (ground arith)
two_le_length a b (r ∷ r' ∷ rs) lt p q = omega arith

-- `n` numbers from `b` on.
abbrev pub count_from : ℕ → ℕ → List ℕ
count_from b zero = []
count_from b (suc n) = b ∷ count_from (suc b) n

pub length-count_from : (b n : ℕ) → length (count_from b n) ≡ n
length-count_from b zero = refl
length-count_from b (suc n) = ap suc (length-count_from (suc b) n)

pub set_insert-count_from_next :
    (b n i : ℕ) → i ≡ b + n → set_insert i (count_from b n) ≡ count_from b (suc n)
unfolding set_insert
set_insert-count_from_next b zero i e = ground arith
set_insert-count_from_next b (suc n) i e = ground (arith, set_insert-count_from_next (suc b) n i)

pub set_insert-count_from_last :
    (b n i : ℕ) → i ≡ b + n → set_insert i (count_from b (suc n)) ≡ count_from b (suc n)
unfolding set_insert
set_insert-count_from_last b zero i e = ground arith
set_insert-count_from_last b (suc n) i e = ground (arith, set_insert-count_from_last (suc b) n i)

module _ {ℓ} {A : Type ℓ} where
  length-erase_at : (xs : List A) (i : ℕ) → i < length xs → length (erase_at xs i) ≡ length xs - 1
  unfolding erase_at
  length-erase_at [] i h = absurd (omega arith)
  length-erase_at (x ∷ xs) zero h = omega arith
  length-erase_at (x ∷ xs) (suc i) h = omega (arith, length-erase_at xs i (omega arith))

  pub length-erase_all :
      (xs : List A) (b : ℕ) (rs : List ℕ)
      → Ascending b rs
      → All (λ r. r < length xs) rs
      → length (erase_all xs rs) + length rs ≡ length xs
  unfolding erase_all
  length-erase_all xs b [] a h = omega arith
  length-erase_all xs b (r ∷ rs) a h = omega (
    arith,
    length-Ascending (suc r) (length xs) rs a.1 h.1,
    length-erase_all xs (suc r) rs a.1 h.1,
    length-erase_at (erase_all xs rs) r,
  )

  erase_at-below : (xs : List A) (i k : ℕ) → k < i → get_elem? (erase_at xs i) k ≡ get_elem? xs k
  unfolding erase_at
  erase_at-below [] i k h = refl
  erase_at-below (x ∷ xs) zero k h = absurd (omega arith)
  erase_at-below (x ∷ xs) (suc i) zero h = refl
  erase_at-below (x ∷ xs) (suc i) (suc k) h = erase_at-below xs i k (omega arith)

  erase_at-above :
      (xs : List A) (i k : ℕ) → i ≤ k → get_elem? (erase_at xs i) k ≡ get_elem? xs (suc k)
  unfolding erase_at
  erase_at-above [] i k h = refl
  erase_at-above (x ∷ xs) zero k h = refl
  erase_at-above (x ∷ xs) (suc i) zero h = absurd (omega arith)
  erase_at-above (x ∷ xs) (suc i) (suc k) h = erase_at-above xs i k (omega arith)

  erase_all-below :
      (xs : List A) (b : ℕ) (rs : List ℕ) (k : ℕ)
      → Ascending b rs
      → k < b
      → get_elem? (erase_all xs rs) k ≡ get_elem? xs k
  unfolding erase_all
  erase_all-below xs b [] k a h = refl
  erase_all-below xs b (r ∷ rs) k a h =
      erase_at-below (erase_all xs rs) r k (omega arith)
      ∙ erase_all-below xs (suc r) rs k a.1 (omega arith)

  -- What stands at an index that is not erased is still there.
  pub erase_all-keeps :
      (xs : List A) (b : ℕ) (rs : List ℕ) (k : ℕ) (t : A)
      → Ascending b rs
      → mem k rs ≡ false
      → b ≤ k
      → get_elem? xs k ≡ some t
      → (k' : ℕ) × (b ≤ k') × (get_elem? (erase_all xs rs) k' ≡ some t)
  unfolding erase_all
  erase_all-keeps xs b [] k t a m lo e = (k, lo, e)
  erase_all-keeps xs b (r ∷ rs) k t a m lo e = elim (dec_lt k r) [
    | yes lt ↦ (
      k,
      lo,
      erase_at-below (erase_all xs rs) r k lt
          ∙ (erase_all-below xs (suc r) rs k a.1 (omega arith) ∙ e),
    )
    | no ge ↦
        let (k', lo', e') = erase_all-keeps xs (suc r) rs k t a.1 (ground arith) (ground arith) e in
        let s : suc (k' - 1) ≡ k' = omega arith in
        (
          k' - 1,
          omega arith,
          erase_at-above (erase_all xs rs) r (k' - 1) (omega arith)
              ∙ (ap (get_elem? (erase_all xs rs)) s ∙ e'),
        )
  ]
