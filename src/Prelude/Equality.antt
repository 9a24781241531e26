-- ===== src/Prelude/Equality.antt =====
-- The `operator==` of a template's element type: an equivalence, which may ignore a part of the
-- element (as the one of `ByteWithExtra` does), so that equal elements need not be identical.
use Prim.Native.Nat.{ℕ}
use mathlib.Core.Path.{◌≡◌}
use mathlib.Core.Bool.{Bool, true}
use native.Mathlib.Omega.{arith}
use vxsig.Prelude.Tests.{◌==◌}

pub record Eq {ℓ} (A : Type ℓ) : Type ℓ where
  pub beq : A → A → Bool
  pub beq_refl : (a : A) → beq a a ≡ true
  pub beq_symm : (a b : A) → beq a b ≡ true → beq b a ≡ true
  pub beq_trans : (a b c : A) → beq a b ≡ true → beq b c ≡ true → beq a c ≡ true

-- One operator for every element type.
infix 50 ◌=?◌
abbrev pub ◌=?◌ {ℓ} : {A : Type ℓ} ⦃e : Eq A⦄ → A → A → Bool
◌=?◌ ⦃e⦄ = e.beq

pub nat_refl : (a : ℕ) → (a == a) ≡ true
nat_refl a = ground arith

pub nat_symm : (a b : ℕ) → (a == b) ≡ true → (b == a) ≡ true
nat_symm a b h = ground arith

pub nat_trans : (a b c : ℕ) → (a == b) ≡ true → (b == c) ≡ true → (a == c) ≡ true
nat_trans a b c h k = ground arith

instance abbrev pub nat_eq : Eq ℕ
nat_eq = record { beq = ◌==◌; beq_refl = nat_refl; beq_symm = nat_symm; beq_trans = nat_trans }
