-- ===== src/MatchChain/Ids/Follow.antt =====
-- A chain of matches: what `follow` does to it and to the others.
use vxsig.Prelude.{
  ℕ, ◌≡◌, ◌≢◌, refl, sym, ap, ◌∙◌, inl, inr, List, [], ◌∷◌, none, some, some-injective, arith, ◌==◌,
  Bool-cases, Option-cases, All,
}
use vxsig.SortedMap.{Map, find, modify}
use vxsig.SortedMap.Find.{find-modify_other, find-modify}
use vxsig.MatchChain.Ids.{Entity, set_id, follow}

module _ {A : Type 0} ⦃e : Entity A⦄ where
  abbrev pub next_of : A → ℕ
  next_of a = (e.matched_of a).address_in_next

  -- The chain from an address on, as far as it goes, has this id.
  abbrev pub HasId : ℕ → ℕ → List (Map A) → Type 0
  HasId id address [] = Unit
  HasId id address (index ∷ columns) = elim (find index address) as (λ _. Type 0) [
    | none ↦ Unit
    | some a ↦ ((e.matched_of a).id ≡ id) × HasId id (next_of a) columns
  ]

  -- No two objects of a column are matched with the same one.
  abbrev pub IsInjective : Map A → Type 0
  IsInjective index =
      (address address' : ℕ) (a a' : A)
      → find index address ≡ some a
      → find index address' ≡ some a'
      → next_of a ≡ next_of a'
      → address ≡ address'

  pub next_of-set_id : (id : ℕ) (a : A) → next_of (set_id id a) ≡ next_of a
  next_of-set_id id a = ap (λ m. m.address_in_next) (e.matched_of-with_matched a _)

  pub id-set_id : (id : ℕ) (a : A) → (e.matched_of (set_id id a)).id ≡ id
  id-set_id id a = ap (λ m. m.id) (e.matched_of-with_matched a _)

  -- What is found behind a write of an id has the same match as before.
  find-modify_back :
      (key address id : ℕ) (index : Map A) (a : A)
      → find (modify key (set_id id) index) address ≡ some a
      → (b : A) × (find index address ≡ some b) × (next_of a ≡ next_of b)
  find-modify_back key address id [] a h = absurd (ground arith)
  find-modify_back key address id (item ∷ items) a h = elim (Bool-cases (item.0 == key)) [
    | inl e₁ ↦
        let written : find ((item.0, set_id id item.1) ∷ items) address ≡ some a = rw e₁ at h in
        elim (Bool-cases (item.0 == address)) [
          | inl e₂ ↦
              let found : some (set_id id item.1) ≡ some a = rw e₂ at written in
              (
                item.1,
                rw e₂ refl,
                ap next_of (sym (some-injective (set_id id item.1) a found))
                    ∙ next_of-set_id id item.1,
              )
          | inr n₂ ↦
              let found : find items address ≡ some a = rw n₂ at written in (a, rw n₂ found, refl)
        ]
    | inr n₁ ↦
        let kept : find (item ∷ modify key (set_id id) items) address ≡ some a = rw n₁ at h in
        elim (Bool-cases (item.0 == address)) [
          | inl e₂ ↦
              let found : some item.1 ≡ some a = rw e₂ at kept in
              (item.1, rw e₂ refl, ap next_of (sym (some-injective item.1 a found)))
          | inr n₂ ↦
              let found : find (modify key (set_id id) items) address ≡ some a = rw n₂ at kept in
              let (b, e₃, same) = find-modify_back key address id items a found in
              (b, rw n₂ e₃, same)
        ]
  ]

  IsInjective-modify :
      (key id : ℕ) (index : Map A) → IsInjective index → IsInjective (modify key (set_id id) index)
  IsInjective-modify key id index inj address address' a a' h h' same =
      let (b, found, e₁) = find-modify_back key address id index a h in
      let (b', found', e₂) = find-modify_back key address' id index a' h' in
      inj address address' b b' found found' (sym e₁ ∙ (same ∙ e₂))

  pub IsInjective-follow :
      (address id : ℕ) (columns : List (Map A))
      → All IsInjective columns
      → All IsInjective (follow address id columns)
  unfolding follow
  IsInjective-follow address id [] h = tt
  IsInjective-follow address id (index ∷ columns) (inj, h) =
      elim (Option-cases (find index address)) [
        | inl none_ ↦ rw (none_, follow) (inj, h)
        | inr (found, some_) ↦
            rw (some_, follow)
              (
                IsInjective-modify address id index inj,
                IsInjective-follow (next_of found) id columns h,
              )
      ]

  -- The chain that is followed gets the id.
  pub HasId-follow :
      (address id : ℕ) (columns : List (Map A)) → HasId id address (follow address id columns)
  unfolding follow
  HasId-follow address id [] = tt
  HasId-follow address id (index ∷ columns) = elim (Option-cases (find index address)) [
    | inl none_ ↦ rw (none_, follow, none_, HasId) tt
    | inr (a, some_) ↦
        rw (some_, follow, find-modify address (set_id id) index a some_, HasId)
          (id-set_id id a, rw (next_of-set_id id a) (HasId-follow (next_of a) id columns))
  ]

  -- Another chain keeps its own.
  pub HasId-follow_other :
      (address id other other_id : ℕ) (columns : List (Map A))
      → address ≢ other
      → All IsInjective columns
      → HasId id address columns
      → HasId id address (follow other other_id columns)
  unfolding follow
  HasId-follow_other address id other other_id [] apart inj h = tt
  HasId-follow_other address id other other_id (index ∷ columns) apart (inj, injs) h =
      elim (Option-cases (find index other)) [
        | inl none_ ↦ rw (none_, follow) h
        | inr (b, some_b) ↦
            let unchanged = find-modify_other address other (set_id other_id) index apart in
            elim (Option-cases (find index address)) [
              | inl none_ ↦ rw (some_b, follow, unchanged, none_, HasId) tt
              | inr (a, some_a) ↦
                  let (same, rest) : ((e.matched_of a).id ≡ id) × HasId id (next_of a) columns =
                    rw (some_a, HasId) at h in
                  rw (some_b, follow, unchanged, some_a, HasId)
                    (
                      same,
                      HasId-follow_other (next_of a) id (next_of b) other_id columns
                          (λ met. apart (inj address other a b some_a some_b met)) injs rest,
                    )
            ]
      ]
