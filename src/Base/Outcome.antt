-- ===== src/Base/Outcome.antt =====
-- Outcomes of the C functions: a result, a reported error, or a fault (a failed `assert`, or
-- behaviour that C leaves undefined).
use mathlib.Core.Path.{◌≡◌, refl}
use dbcc.Error.{ErrorCode}

-- `undefined` is an operation that C leaves undefined, such as an overflow in `int`.
pub data Fault : Type 0 where
  out_of_bounds assertion undefined : Fault

pub data Run {ℓ} (A : Type ℓ) : Type ℓ where
  ok : A → Run A
  err : ErrorCode → Run A
  fault : Fault → Run A

-- The next step is taken only after a normal end.
infixl 5 ◌>>=◌
abbrev pub ◌>>=◌ {ℓ κ} : {A : Type ℓ} {B : Type κ} (run : Run A) (next : A → Run B) → Run B
ok result >>= next = next result
err code >>= next = err code
fault kind >>= next = fault kind

-- The run ends normally, in a value that satisfies `Post`.
abbrev pub Returns {ℓ κ} : {A : Type ℓ} (run : Run A) (Post : A → Type κ) → Type (ℓ ⊔ κ)
Returns {A} run Post = (result : A) × (run ≡ ok result) × Post result

pub bind_inv {ℓ κ} :
    {A : Type ℓ} {B : Type κ} (run : Run A) (next : A → Run B) (result : B)
    → (run >>= next) ≡ ok result
    → (a : A) × (run ≡ ok a) × (next a ≡ ok result)
bind_inv (ok a) next result h = (a, refl, h)
bind_inv (err code) next result h = absurd (cc)
bind_inv (fault kind) next result h = absurd (cc)
