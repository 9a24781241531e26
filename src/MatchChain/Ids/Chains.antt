-- ===== src/MatchChain/Ids/Chains.antt =====
-- `PropagateIds` gives the objects of a chain of matches the same id.
use vxsig.Prelude.{ℕ, ◌+◌, ◌%◌, ◌^◌, ◌≡◌, ◌≢◌, refl, List, [], ◌∷◌, map, All, Distinct}
use vxsig.SortedMap.{Map}
use vxsig.MatchChain.Ids.{Entity, Numbered, numbered, set_id, follow, number, propagate_ids_in}
use vxsig.MatchChain.Ids.Follow.{
  next_of, HasId, IsInjective, next_of-set_id, id-set_id, IsInjective-follow, HasId-follow,
  HasId-follow_other,
}

module _ {A : Type 0} ⦃e : Entity A⦄ where
  abbrev pub nexts : Map A → List ℕ
  nexts items = map (λ item. next_of item.1) items

  -- The chains from the objects of a column on have their ids.
  abbrev pub HaveIds : Map A → List (Map A) → Type 0
  HaveIds index others = All (λ item. HasId (e.matched_of item.1).id (next_of item.1) others) index

  Keeps : ℕ → ℕ → Numbered A → Type 0
  Keeps id address (numbered index others) = HasId id address others

  AllHaveIds : Numbered A → Type 0
  AllHaveIds (numbered index others) = HaveIds index others

  -- What `number` makes of the result for the other items.
  abbrev with_item : ℕ → ℕ × A → Numbered A → Numbered A
  with_item id item r = elim r [
    | numbered rest others ↦ numbered ((item.0, set_id id item.1) ∷ rest) others
  ]

  Keeps-with_item :
      (id address item_id : ℕ) (item : ℕ × A) (r : Numbered A)
      → Keeps id address r
      → Keeps id address (with_item item_id item r)
  unfolding Keeps
  Keeps-with_item id address item_id item (numbered rest others) h = h

  AllHaveIds-with_item :
      (id : ℕ) (item : ℕ × A) (r : Numbered A)
      → Keeps id (next_of item.1) r
      → AllHaveIds r
      → AllHaveIds (with_item id item r)
  unfolding Keeps AllHaveIds
  AllHaveIds-with_item id item (numbered rest others) h all =
      (rw (id-set_id id item.1, next_of-set_id id item.1) h, all)

  number-Keeps :
      (id address first_id : ℕ) (items : Map A) (columns : List (Map A))
      → All (λ n. address ≢ n) (nexts items)
      → All IsInjective columns
      → HasId id address columns
      → Keeps id address (number first_id items columns)
  unfolding number Keeps
  number-Keeps id address first_id [] columns apart inj h = h
  number-Keeps id address first_id (item ∷ items) columns (a, apart) inj h =
      Keeps-with_item id address first_id item _ (
        number-Keeps id address ((first_id + 1) % 2 ^ 32) items
          (follow (next_of item.1) first_id columns) apart
          (IsInjective-follow (next_of item.1) first_id columns inj)
          (HasId-follow_other address id (next_of item.1) first_id columns a inj h))

  number-AllHaveIds :
      (id : ℕ) (items : Map A) (columns : List (Map A))
      → Distinct (nexts items)
      → All IsInjective columns
      → AllHaveIds (number id items columns)
  unfolding number AllHaveIds
  number-AllHaveIds id [] columns d inj = tt
  number-AllHaveIds id (item ∷ items) columns (apart, d) inj =
      let followed = follow (next_of item.1) id columns in
      let inj' = IsInjective-follow (next_of item.1) id columns inj in
      let next_id = (id + 1) % 2 ^ 32 in
      AllHaveIds-with_item id item (number next_id items followed)
        (number-Keeps id (next_of item.1) next_id items followed apart inj'
          (HasId-follow (next_of item.1) id columns))
        (number-AllHaveIds next_id items followed d inj')

  first_HaveIds :
      (r : Numbered A)
      → AllHaveIds r
      → (index : Map A) × (others : List (Map A)) × ((elim r [ numbered i o ↦ i ∷ o ])
          ≡ index ∷ others)
        × HaveIds index others
  unfolding AllHaveIds
  first_HaveIds (numbered index others) h = (index, others, refl, h)

  -- Where no two objects of a column are matched with the same one, propagating the ids gives the whole
  -- chain of matches from an object of the first column on the id of that object: in the next
  -- columns, as far as the chain goes.
  pub propagate_ids_in-HaveIds :
      (first : Map A) (columns : List (Map A))
      → Distinct (nexts first)
      → All IsInjective columns
      → (index : Map A) × (others : List (Map A)) × (propagate_ids_in (first ∷ columns)
          ≡ index ∷ others)
        × HaveIds index others
  unfolding propagate_ids_in
  propagate_ids_in-HaveIds first columns d inj =
      first_HaveIds (number 1 first columns) (number-AllHaveIds 1 first columns d inj)
