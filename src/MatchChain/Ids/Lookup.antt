-- ===== src/MatchChain/Ids/Lookup.antt =====
-- `BuildIdIndices` after `PropagateIds`: objects are found again by their ids.
use vxsig.Prelude.{
  ℕ, zero, suc, ◌+◌, ◌-◌, ◌^◌, ◌<◌, ◌≡◌, ◌≢◌, refl, sym, ap, subst, ◌∙◌, inl, inr, List, [], ◌∷◌,
  none, some, some-injective, length, arith, ◌==◌, Bool-cases, All, Distinct,
}
use vxsig.SortedMap.{Map, find, emplace}
use vxsig.SortedMap.Find.{find-emplace_other, find-emplace_new}
use vxsig.MatchChain.Ids.{Entity, propagate_ids_in, build_id_index_from}
use vxsig.MatchChain.Ids.Numbering.{count_from, ids, propagate_ids_in-IsEnumerated}

count_from-above : (i b n : ℕ) → b < i → All (λ y. b ≢ y) (count_from i n)
count_from-above i b zero h = tt
count_from-above i b (suc n) h =
    (λ e. absurd (omega arith), count_from-above (i + 1) b n (omega arith))

count_from-Distinct : (i n : ℕ) → Distinct (count_from i n)
count_from-Distinct i zero = tt
count_from-Distinct i (suc n) =
    (count_from-above (i + 1) i n (omega arith), count_from-Distinct (i + 1) n)

module _ {A : Type 0} ⦃e : Entity A⦄ where
  -- An id that no item has is found as before.
  find-build_id_index_other :
      (items : Map A) (acc : Map ℕ) (id : ℕ)
      → All (λ y. id ≢ y) (ids items)
      → find (build_id_index_from items acc) id ≡ find acc id
  unfolding build_id_index_from
  find-build_id_index_other [] acc id h = refl
  find-build_id_index_other (item ∷ items) acc id (apart, h) =
      find-build_id_index_other items (emplace (e.matched_of item.1).id item.0 acc) id h
      ∙ find-emplace_other id (e.matched_of item.1).id item.0 acc apart

  -- No id of an item is in the index.
  AreNew : Map ℕ → Map A → Type 0
  AreNew acc items = All (λ id. find acc id ≡ none) (ids items)

  AreNew-emplace :
      (acc : Map ℕ) (items : Map A) (id key : ℕ)
      → All (λ y. id ≢ y) (ids items)
      → AreNew acc items
      → AreNew (emplace id key acc) items
  unfolding AreNew
  AreNew-emplace acc [] id key apart new = tt
  AreNew-emplace acc (item ∷ items) id key (a, apart) (n, new) = (
    find-emplace_other (e.matched_of item.1).id id key acc (λ same. a (sym same)) ∙ n,
    AreNew-emplace acc items id key apart new,
  )

  find-build_id_index :
      (items : Map A) (acc : Map ℕ) (address : ℕ) (a : A)
      → Distinct (ids items)
      → AreNew acc items
      → find items address ≡ some a
      → find (build_id_index_from items acc) (e.matched_of a).id ≡ some address
  unfolding build_id_index_from AreNew
  find-build_id_index [] acc address a d new h = absurd (ground arith)
  find-build_id_index (item ∷ items) acc address a (apart, d) (n, new) h =
      let id = (e.matched_of item.1).id in
      let acc' = emplace id item.0 acc in
      elim (Bool-cases (item.0 == address)) [
        | inl here ↦
            let found : some item.1 ≡ some a = rw here at h in
            let at_address : item.0 ≡ address = ground arith in
            subst (λ x. find (build_id_index_from items acc') (e.matched_of x).id ≡ some address)
              (some-injective item.1 a found)
              (find-build_id_index_other items acc' id apart
                ∙ find-emplace_new id item.0 acc n
                ∙ ap some at_address)
        | inr there ↦
            let found : find items address ≡ some a = rw there at h in
            find-build_id_index items acc' address a d
              (AreNew-emplace acc items id item.0 apart new) found
      ]

  AreNew-nil : (items : Map A) → AreNew [] items
  unfolding AreNew
  AreNew-nil [] = tt
  AreNew-nil (item ∷ items) = (refl, AreNew-nil items)

  ids_of_first : Map A → List (Map A) → List ℕ
  ids_of_first d [] = ids d
  ids_of_first d (index ∷ others) = ids index

  -- Of fewer than 2 ^ 32 - 1 objects in the first column, each is found by its id when the ids have been
  -- propagated and the index of the ids has been built: the index leads back to its address.
  pub build_id_index_from-propagate_ids_in :
      (first index : Map A) (columns others : List (Map A)) (address : ℕ) (a : A)
      → length first < 2 ^ 32 - 1
      → propagate_ids_in (first ∷ columns) ≡ index ∷ others
      → find index address ≡ some a
      → find (build_id_index_from index []) (e.matched_of a).id ≡ some address
  unfolding ids_of_first
  build_id_index_from-propagate_ids_in first index columns others address a h eq found =
      let (index', others', eq', numbers, k, o) = propagate_ids_in-IsEnumerated first columns h in
      let same : ids index ≡ count_from 1 (length first) =
        ap (ids_of_first index) (sym eq ∙ eq') ∙ numbers in
      find-build_id_index index [] address a
        (subst Distinct (sym same) (count_from-Distinct 1 (length first))) (AreNew-nil index) found
