-- ===== src/SortedMap/Find.antt =====
-- What `find` finds behind the other operations.
use vxsig.Prelude.{
  ℕ, ◌≡◌, ◌≢◌, refl, ap, true, false, [], ◌∷◌, none, some, some-injective, ltb, ◌==◌, Bool-cases,
  inl, inr, arith,
}
use vxsig.SortedMap.{Map, find, emplace, modify}

module _ {A : Type 0} where
  pub find-emplace_other :
      (k key : ℕ) (value : A) (items : Map A)
      → k ≢ key
      → find (emplace key value items) k ≡ find items k
  find-emplace_other k key value [] h = elim (Bool-cases (key == k)) [
    | inl e ↦ absurd (h (ground arith))
    | inr n ↦ rw n refl
  ]
  find-emplace_other k key value (item ∷ items) h = elim (Bool-cases (key == item.0)) [
    | inl e ↦ rw e refl
    | inr n ↦ elim (Bool-cases (ltb key item.0)) [
      | inl lt ↦
          rw (n, lt)
            (elim (Bool-cases (key == k)) [ inl e ↦ absurd (h (ground arith)) | inr m ↦ rw m refl ])
      | inr ge ↦ rw (n, ge, find-emplace_other k key value items h) refl
    ]
  ]

  pub find-emplace_new :
      (key : ℕ) (value : A) (items : Map A)
      → find items key ≡ none
      → find (emplace key value items) key ≡ some value
  find-emplace_new key value [] h = ground arith
  find-emplace_new key value (item ∷ items) h = elim (Bool-cases (key == item.0)) [
    | inl e ↦ let same : (item.0 == key) ≡ true = ground arith in absurd (taken (rw same at h))
    | inr n ↦
        let other : (item.0 == key) ≡ false = ground arith in
        let missing : find items key ≡ none = rw other at h in
        elim (Bool-cases (ltb key item.0)) [
          | inl lt ↦ rw (n, lt) (ground arith)
          | inr ge ↦ rw (n, ge, other) (find-emplace_new key value items missing)
        ]
  ]
    where
      taken : {x : A} → some x ≡ none → ⊥
      taken e = ground arith

  pub find-modify_other :
      (k key : ℕ) (f : A → A) (items : Map A) → k ≢ key → find (modify key f items) k ≡ find items k
  find-modify_other k key f [] h = refl
  find-modify_other k key f (item ∷ items) h = elim (Bool-cases (item.0 == key)) [
    | inl e ↦ let other : (item.0 == k) ≡ false = ground arith in rw (e, other) refl
    | inr n ↦ rw (n, find-modify_other k key f items h) refl
  ]

  pub find-modify :
      (key : ℕ) (f : A → A) (items : Map A) (value : A)
      → find items key ≡ some value
      → find (modify key f items) key ≡ some (f value)
  find-modify key f [] value h = absurd (ground arith)
  find-modify key f (item ∷ items) value h = elim (Bool-cases (item.0 == key)) [
    | inl e ↦
        let found : some item.1 ≡ some value = rw e at h in
        rw (e, e) (ap (λ v. some (f v)) (some-injective item.1 value found))
    | inr n ↦
        let found : find items key ≡ some value = rw n at h in
        rw (n, n) (find-modify key f items value found)
  ]
