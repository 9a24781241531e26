-- ===== src/Tests/Instances.antt =====
-- Concrete functions for the parameters of the model: sorting by insertion, digits in base 16.
use mathlib.Core.List.{Permᴰ}
use mathlib.Core.List.Permᴰ
use vxsig.Prelude.{
  ℕ, ◌+◌, ◌*◌, ◌/◌, ◌%◌, ◌≤◌, ◌≡◌, refl, inl, inr, Bool, false, List, [], ◌∷◌, arith, ltb,
  if◌then◌else◌, Bool-cases, length, ℤ,
}
use vxsig.Signature.{Bytes}
use vxsig.Signature.Subset.{Ascending, Algorithms}
use vxsig.Format.{HexPrinter}
use vxsig.Yara
use vxsig.SignatureId.{Hashing}

abbrev insert_by : (ℕ → ℕ → Bool) → ℕ → List ℕ → List ℕ
insert_by before x [] = x ∷ []
insert_by before x (y ∷ ys) =
    let rest = insert_by before x ys in if before y x then y ∷ rest else x ∷ y ∷ ys

abbrev pub sort_by : (ℕ → ℕ → Bool) → List ℕ → List ℕ
sort_by before [] = []
sort_by before (x ∷ xs) = insert_by before x (sort_by before xs)

insert_by_perm :
    (before : ℕ → ℕ → Bool) (x : ℕ) (ys : List ℕ) → Permᴰ (insert_by before x ys) (x ∷ ys)
insert_by_perm before x [] = Permᴰ.refl _
insert_by_perm before x (y ∷ ys) = elim (Bool-cases (before y x)) [
  | inl b ↦ rw b (Permᴰ.trans (Permᴰ.cons refl (insert_by_perm before x ys)) (Permᴰ.swap refl refl))
  | inr n ↦ rw n (Permᴰ.refl _)
]

pub sort_by_perm : (before : ℕ → ℕ → Bool) (xs : List ℕ) → Permᴰ (sort_by before xs) xs
sort_by_perm before [] = Permᴰ.nil
sort_by_perm before (x ∷ xs) =
    Permᴰ.trans (insert_by_perm before x (sort_by before xs))
      (Permᴰ.cons refl (sort_by_perm before xs))

-- `x` stands in front of an ascending list.
Leads : ℕ → List ℕ → Type 0
Leads x [] = Unit
Leads x (y ∷ ys) = x ≤ y

cons-Ascending : (x : ℕ) (ys : List ℕ) → Leads x ys → Ascending ys → Ascending (x ∷ ys)
unfolding Leads
cons-Ascending x [] h a = tt
cons-Ascending x (y ∷ ys) h a = (h, a)

tail-Ascending : (y : ℕ) (ys : List ℕ) → Ascending (y ∷ ys) → Leads y ys × Ascending ys
unfolding Leads
tail-Ascending y [] a = (tt, tt)
tail-Ascending y (z ∷ zs) a = a

insert_by-Leads : (w x : ℕ) (ys : List ℕ) → w ≤ x → Leads w ys → Leads w (insert_by ltb x ys)
unfolding Leads
insert_by-Leads w x [] h l = h
insert_by-Leads w x (y ∷ ys) h l = elim (Bool-cases (ltb y x)) [ inl b ↦ rw b l | inr n ↦ rw n h ]

insert_by-Ascending : (x : ℕ) (ys : List ℕ) → Ascending ys → Ascending (insert_by ltb x ys)
insert_by-Ascending x [] a = tt
insert_by-Ascending x (y ∷ ys) a =
    let (l, b) = tail-Ascending y ys a in
    elim (Bool-cases (ltb y x)) [
      | inl lt ↦ rw lt (
          cons-Ascending y (insert_by ltb x ys) (insert_by-Leads y x ys (ground arith) l)
            (insert_by-Ascending x ys b))
      | inr ge ↦ rw ge (ground arith, a)
    ]

pub sort_by-Ascending : (xs : List ℕ) → Ascending (sort_by ltb xs)
sort_by-Ascending [] = tt
sort_by-Ascending (x ∷ xs) = insert_by-Ascending x (sort_by ltb xs) (sort_by-Ascending xs)

abbrev pub unshuffled : ℤ → List ℕ → List ℕ
unshuffled variant l = l

abbrev pub std : Algorithms
std = record {
  sort = sort_by;
  shuffle = unshuffled;
  sort_perm = sort_by_perm;
  sort-Ascending = sort_by-Ascending;
  shuffle_perm = λ variant l. Permᴰ.refl l;
}

abbrev digit : ℕ → ℕ
digit n = if ltb n 10 then 48 + n else 87 + n

abbrev to_hex : Bytes → Bytes
to_hex [] = []
to_hex (b ∷ bytes) = digit (b / 16) ∷ digit (b % 16) ∷ to_hex bytes

pub length-to_hex : (b : Bytes) → length (to_hex b) ≡ 2 * length b
length-to_hex [] = refl
length-to_hex (b ∷ bytes) = omega (arith, length-to_hex bytes)

abbrev pub printer : HexPrinter
printer = record { bytes_to_hex = to_hex; length-bytes_to_hex = length-to_hex }

abbrev hex4_digits : ℕ → Bytes
hex4_digits n = digit (n / 4096) ∷ digit (n / 256 % 16) ∷ digit (n / 16 % 16) ∷ digit (n % 16) ∷ []

abbrev pub hashing : Hashing
hashing = record {
  city_hash_64 = length;
  serialize = λ definition. definition.other;
  hex4 = hex4_digits;
  length-hex4 = λ n h. refl;
}

abbrev pub no_text : ℤ → Bytes
no_text i = []

abbrev pub hex_address : ℕ → Bytes
hex_address n = digit n ∷ []

abbrev pub no_flags : Yara.DebugFlags
no_flags = record { masking = false; weights = false }
