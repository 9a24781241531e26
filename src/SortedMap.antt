-- ===== src/SortedMap.antt =====
-- `std::map` and `std::set` with numbers as keys: their items in ascending order.
pub mod Keys
pub mod Find
use vxsig.Prelude.{
  ℕ, Bool, false, ◌||◌, List, [], ◌∷◌, Option, none, some, ltb, ◌==◌, if◌then◌else◌,
}

abbrev pub Map {ℓ} : Type ℓ → Type ℓ
Map A = List (ℕ × A)

module _ {ℓ} {A : Type ℓ} where
  -- `find`.
  abbrev pub find : Map A → ℕ → Option A
  find [] key = none
  find (item ∷ items) key = let rest = find items key in if item.0 == key then some item.1 else rest

  -- `emplace`, which keeps an item that is there.
  abbrev pub emplace : ℕ → A → Map A → Map A
  emplace key value [] = (key, value) ∷ []
  emplace key value (item ∷ items) =
      let rest = emplace key value items in
      if key == item.0
      then item ∷ items
      else if ltb key item.0
      then (key, value) ∷ item ∷ items
      else item ∷ rest

  -- A write through the pointer to an item.
  abbrev pub modify : ℕ → (A → A) → Map A → Map A
  modify key f [] = []
  modify key f (item ∷ items) =
      let rest = modify key f items in
      if item.0 == key then (item.0, f item.1) ∷ items else item ∷ rest

-- A set's `insert`.
abbrev pub insert : ℕ → List ℕ → List ℕ
insert key [] = key ∷ []
insert key (k ∷ keys) =
    let rest = insert key keys in
    if key == k then k ∷ keys else if ltb key k then key ∷ k ∷ keys else k ∷ rest

abbrev pub is_member : ℕ → List ℕ → Bool
is_member key [] = false
is_member key (k ∷ keys) = (key == k) || is_member key keys
