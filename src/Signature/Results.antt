-- ===== src/Signature/Results.antt =====
-- What holds of a result that may be an error, of code that does not stop the process.
use vxsig.Prelude.{Option, none, some}
use vxsig.Signature.{Result, ok, failed, undefined, ◌>>=ᵣ◌, and_then}

-- An output has the property, if there is one.
abbrev pub Yields {ℓ} : {A : Type ℓ} → (A → Type 0) → Result A → Type 0
Yields P (ok a) = P a
Yields P (failed s) = Unit
Yields P undefined = Unit

-- The process does not stop, its behaviour is defined, and an output has the property.
abbrev pub Returns {ℓ} : {A : Type ℓ} → (A → Type 0) → Option (Result A) → Type 0
Returns P none = ⊥
Returns P (some (ok a)) = P a
Returns P (some (failed s)) = Unit
Returns P (some undefined) = ⊥

abbrev pub Any {ℓ} : {A : Type ℓ} → A → Type 0
Any a = Unit

pub Returns-and_then {ℓ κ} :
    {A : Type ℓ} {B : Type κ} (P : A → Type 0) (Q : B → Type 0) (m : Option (Result A))
    (f : A → Option (Result B))
    → Returns P m
    → ((a : A) → P a → Returns Q (f a))
    → Returns Q (and_then m f)
Returns-and_then P Q none f h k = absurd h
Returns-and_then P Q (some (ok a)) f h k = k a h
Returns-and_then P Q (some (failed s)) f h k = tt
Returns-and_then P Q (some undefined) f h k = absurd h

-- No undefined behaviour.
abbrev pub IsDefined {ℓ} : {A : Type ℓ} → Result A → Type 0
IsDefined (ok a) = Unit
IsDefined (failed s) = Unit
IsDefined undefined = ⊥

pub IsDefined-Returns {ℓ} : {A : Type ℓ} (r : Result A) → IsDefined r → Returns Any (some r)
IsDefined-Returns (ok a) h = tt
IsDefined-Returns (failed s) h = tt
IsDefined-Returns undefined h = h

pub IsDefined-bind {ℓ κ} :
    {A : Type ℓ} {B : Type κ} (r : Result A) (f : A → Result B)
    → IsDefined r
    → ((a : A) → IsDefined (f a))
    → IsDefined (r >>=ᵣ f)
IsDefined-bind (ok a) f h k = k a
IsDefined-bind (failed s) f h k = tt
IsDefined-bind undefined f h k = absurd h

-- What holds of an output, if there is one.
abbrev pub Leaves : {A : Type 0} → (A → Type 0) → Option (Result A) → Type 0
Leaves P none = Unit
Leaves P (some r) = Yields P r

pub Leaves-and_then :
    {A B : Type 0} (P : B → Type 0) (m : Option (Result A)) (f : A → Option (Result B))
    → ((a : A) → Leaves P (f a))
    → Leaves P (and_then m f)
Leaves-and_then P none f h = tt
Leaves-and_then P (some (ok a)) f h = h a
Leaves-and_then P (some (failed s)) f h = tt
Leaves-and_then P (some undefined) f h = tt

pub Leaves-bind :
    {A B : Type 0} (P : A → Type 0) (Q : B → Type 0) (m : Option (Result A))
    (f : A → Option (Result B))
    → Leaves P m
    → ((a : A) → P a → Leaves Q (f a))
    → Leaves Q (and_then m f)
Leaves-bind P Q none f h k = tt
Leaves-bind P Q (some (ok a)) f h k = k a h
Leaves-bind P Q (some (failed s)) f h k = tt
Leaves-bind P Q (some undefined) f h k = tt
