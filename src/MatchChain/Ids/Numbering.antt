-- ===== src/MatchChain/Ids/Numbering.antt =====
-- `PropagateIds` enumerates the first column, and moves no object.
use vxsig.Prelude.{
  ℕ, zero, suc, ◌+◌, ◌-◌, ◌%◌, ◌^◌, ◌<◌, ◌≡◌, refl, ap, ap₂, subst, ◌∙◌, inl, inr, List, [], ◌∷◌,
  map, length, Option-cases, arith, ◌==◌, Bool-cases,
}
use vxsig.SortedMap.{Map, find, modify}
use vxsig.MatchChain.Ids.{Entity, Numbered, numbered, set_id, follow, number, propagate_ids_in}

-- `n` numbers from `i`.
abbrev pub count_from : ℕ → ℕ → List ℕ
count_from i zero = []
count_from i (suc n) = i ∷ count_from (i + 1) n

module _ {A : Type 0} ⦃e : Entity A⦄ where
  abbrev pub ids : Map A → List ℕ
  ids items = map (λ item. (e.matched_of item.1).id) items

  -- A key and the two addresses of its object.
  abbrev pub addresses_of : ℕ × A → ℕ × ℕ × ℕ
  addresses_of item = (item.0, (e.matched_of item.1).address, (e.matched_of item.1).address_in_next)

  abbrev pub addresses : Map A → List (ℕ × ℕ × ℕ)
  addresses items = map addresses_of items

  addresses_of-set_id :
      (id key : ℕ) (a : A) → addresses_of (key, set_id id a) ≡ addresses_of (key, a)
  addresses_of-set_id id key a =
      ap (λ m. (key, m.address, m.address_in_next)) (e.matched_of-with_matched a _)

  addresses-modify :
      (key id : ℕ) (items : Map A) → addresses (modify key (set_id id) items) ≡ addresses items
  addresses-modify key id [] = refl
  addresses-modify key id (item ∷ items) = elim (Bool-cases (item.0 == key)) [
    | inl here ↦ rw here (ap (λ a. a ∷ addresses items) (addresses_of-set_id id item.0 item.1))
    | inr there ↦ rw there (ap (◌∷◌ (addresses_of item)) (addresses-modify key id items))
  ]

  addresses-follow :
      (address id : ℕ) (columns : List (Map A))
      → map addresses (follow address id columns) ≡ map addresses columns
  unfolding follow
  addresses-follow address id [] = refl
  addresses-follow address id (index ∷ columns) = elim (Option-cases (find index address)) [
    | inl none_ ↦ rw (none_, follow) refl
    | inr (found, some_) ↦
        rw (some_, follow)
          (ap₂ (λ k ks. k ∷ ks) (addresses-modify address id index)
            (addresses-follow (e.matched_of found).address_in_next id columns))
  ]

  abbrev IsNumbered : ℕ → Map A → List (Map A) → Numbered A → Type 0
  IsNumbered id first columns (numbered index others) =
      (addresses index ≡ addresses first)
      × (id + length first < 2 ^ 32 → ids index ≡ count_from id (length first))
      × (map addresses others ≡ map addresses columns)

  numbered_item :
      (id : ℕ) (item : ℕ × A) (items : Map A) (columns : List (Map A)) (r : Numbered A)
      → IsNumbered
          ((id + 1) % 2 ^ 32)
          items
          (follow ((e.matched_of item.1).address_in_next) id columns)
          r
      → IsNumbered id
          (item ∷ items)
          columns
          (elim r [ numbered rest others ↦ numbered ((item.0, set_id id item.1) ∷ rest) others ])
  numbered_item id item items columns (numbered rest others) (same, ids_count, others_same) = (
    ap₂ ◌∷◌ (addresses_of-set_id id item.0 item.1) same,
    λ h.
        ap₂ ◌∷◌ (ap (λ m. m.id) (e.matched_of-with_matched item.1 _))
          (subst (λ i. ids rest ≡ count_from i (length items)) (next h) (ids_count (omega arith))),
    others_same ∙ addresses-follow (e.matched_of item.1).address_in_next id columns,
  )
    where
      next : id + length (item ∷ items) < 2 ^ 32 → (id + 1) % 2 ^ 32 ≡ id + 1
      next h = omega arith

  enumerated :
      (first : Map A) (columns : List (Map A)) (r : Numbered A)
      → length first < 2 ^ 32 - 1
      → IsNumbered 1 first columns r
      → (index : Map A) × (others : List (Map A)) × ((elim r [ numbered i o ↦ i ∷ o ])
          ≡ index ∷ others)
        × (ids index ≡ count_from 1 (length first))
        × (addresses index ≡ addresses first)
        × (map addresses others ≡ map addresses columns)
  enumerated first columns (numbered index others) h (k, i, o) =
      (index, others, refl, i (omega arith), k, o)

  number-IsNumbered :
      (id : ℕ) (first : Map A) (columns : List (Map A))
      → IsNumbered id first columns (number id first columns)
  unfolding number
  number-IsNumbered id [] columns = (refl, λ h. refl, refl)
  number-IsNumbered id (item ∷ items) columns = numbered_item id item items columns _ (
      number-IsNumbered ((id + 1) % 2 ^ 32) items
        (follow ((e.matched_of item.1).address_in_next) id columns))

  -- Propagating ids gives the objects of the first column, which are fewer than 2 ^ 32 - 1, the ids
  -- 1, 2, 3 and so on in the order of their addresses. It adds and removes no object of any column,
  -- and leaves the two addresses of each as they are.
  pub propagate_ids_in-IsEnumerated :
      (first : Map A) (columns : List (Map A))
      → length first < 2 ^ 32 - 1
      → (index : Map A) × (others : List (Map A)) × (propagate_ids_in (first ∷ columns)
          ≡ index ∷ others)
        × (ids index ≡ count_from 1 (length first))
        × (addresses index ≡ addresses first)
        × (map addresses others ≡ map addresses columns)
  unfolding propagate_ids_in
  propagate_ids_in-IsEnumerated first columns h =
      enumerated first columns (number 1 first columns) h (number-IsNumbered 1 first columns)
