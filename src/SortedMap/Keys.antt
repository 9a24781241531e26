-- ===== src/SortedMap/Keys.antt =====
-- The keys of a map, and what holds of all its items.
use vxsig.Prelude.{
  ℕ, ◌≡◌, refl, subst, true, List, [], ◌∷◌, some, some-injective, ltb, ◌==◌, Bool-cases, inl, inr,
  arith, All,
}
use vxsig.SortedMap.{Map, find, emplace, modify, insert}

module _ {A : Type 0} where
  -- A pointer to an item.
  abbrev pub Has : Map A → ℕ → Type 0
  Has items key = (value : A) × (find items key ≡ some value)

  Has-cons_eq :
      (item : ℕ × A) (items : Map A) (key : ℕ) → (item.0 == key) ≡ true → Has (item ∷ items) key
  Has-cons_eq item items key e = (item.1, rw e refl)

  Has-cons : (item : ℕ × A) (items : Map A) (key : ℕ) → Has items key → Has (item ∷ items) key
  Has-cons item items key (value, h) = elim (Bool-cases (item.0 == key)) [
    | inl e ↦ Has-cons_eq item items key e
    | inr n ↦ (value, rw n h)
  ]

  -- An item in front, or one of the others.
  Has-cons_map :
      (item item' : ℕ × A) (items items' : Map A) (key : ℕ)
      → item.0 ≡ item'.0
      → (Has items key → Has items' key)
      → Has (item ∷ items) key
      → Has (item' ∷ items') key
  Has-cons_map item item' items items' key same f (value, h) = elim (Bool-cases (item.0 == key)) [
    | inl e ↦ Has-cons_eq item' items' key (rw (← same) e)
    | inr n ↦ Has-cons item' items' key (f (value, rw n at h))
  ]

  pub Has-emplace : (key : ℕ) (value : A) (items : Map A) → Has (emplace key value items) key
  Has-emplace key value [] = Has-cons_eq (key, value) [] key (ground arith)
  Has-emplace key value (item ∷ items) = elim (Bool-cases (key == item.0)) [
    | inl e ↦ rw e (Has-cons_eq item items key (ground arith))
    | inr n ↦ elim (Bool-cases (ltb key item.0)) [
      | inl lt ↦ rw (n, lt) (Has-cons_eq (key, value) (item ∷ items) key (ground arith))
      | inr ge ↦
          rw (n, ge) (Has-cons item (emplace key value items) key (Has-emplace key value items))
    ]
  ]

  pub Has-emplace_other :
      (k key : ℕ) (value : A) (items : Map A) → Has items k → Has (emplace key value items) k
  Has-emplace_other k key value [] h = absurd (ground arith)
  Has-emplace_other k key value (item ∷ items) h = elim (Bool-cases (key == item.0)) [
    | inl e ↦ rw e h
    | inr n ↦ elim (Bool-cases (ltb key item.0)) [
      | inl lt ↦ rw (n, lt) (Has-cons (key, value) (item ∷ items) k h)
      | inr ge ↦
          rw (n, ge)
            (Has-cons_map item item items (emplace key value items) k refl
              (Has-emplace_other k key value items) h)
    ]
  ]

  pub Has-modify :
      (k key : ℕ) (f : A → A) (items : Map A) → Has items k → Has (modify key f items) k
  Has-modify k key f [] h = h
  Has-modify k key f (item ∷ items) h = elim (Bool-cases (item.0 == key)) [
    | inl e ↦ rw e (Has-cons_map item (item.0, f item.1) items items k refl (λ r. r) h)
    | inr n ↦
        rw n (Has-cons_map item item items (modify key f items) k refl (Has-modify k key f items) h)
  ]

  module _ (P : A → Type 0) where
    abbrev pub AllItems : Map A → Type 0
    AllItems items = All (λ item. P item.1) items

    pub AllItems-find :
        (items : Map A) (key : ℕ) (value : A)
        → AllItems items
        → find items key ≡ some value
        → P value
    AllItems-find [] key value h e = absurd (ground arith)
    AllItems-find (item ∷ items) key value (p, h) e = elim (Bool-cases (item.0 == key)) [
      | inl same ↦
          let found : some item.1 ≡ some value = rw same at e in
          subst P (some-injective item.1 value found) p
      | inr n ↦ AllItems-find items key value h (rw n at e)
    ]

    pub AllItems-emplace :
        (key : ℕ) (value : A) (items : Map A)
        → P value
        → AllItems items
        → AllItems (emplace key value items)
    AllItems-emplace key value [] p h = (p, tt)
    AllItems-emplace key value (item ∷ items) p h = elim (Bool-cases (key == item.0)) [
      | inl e ↦ rw e h
      | inr n ↦ elim (Bool-cases (ltb key item.0)) [
        | inl lt ↦ rw (n, lt) (p, h)
        | inr ge ↦ rw (n, ge) (h.0, AllItems-emplace key value items p h.1)
      ]
    ]

    pub AllItems-modify :
        (key : ℕ) (f : A → A) (items : Map A)
        → ((a : A) → P a → P (f a))
        → AllItems items
        → AllItems (modify key f items)
    AllItems-modify key f [] g h = h
    AllItems-modify key f (item ∷ items) g h = elim (Bool-cases (item.0 == key)) [
      | inl e ↦ rw e (g item.1 h.0, h.1)
      | inr n ↦ rw n (h.0, AllItems-modify key f items g h.1)
    ]

-- A set's new member.
pub All-insert :
    (P : ℕ → Type 0) (key : ℕ) (set : List ℕ) → P key → All P set → All P (insert key set)
All-insert P key [] p h = (p, tt)
All-insert P key (k ∷ keys) p h = elim (Bool-cases (key == k)) [
  | inl e ↦ rw e h
  | inr n ↦ elim (Bool-cases (ltb key k)) [
    | inl lt ↦ rw (n, lt) (p, h)
    | inr ge ↦ rw (n, ge) (h.0, All-insert P key keys p h.1)
  ]
]
