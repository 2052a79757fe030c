-- ===== src/Base/Exec.antt =====
-- Calls that may run into undefined behaviour of C: `none` is a fault, such as a read through a
-- null or dangling pointer, or an array access out of range.
use Prim.Native.Nat.{ℕ, ◌<◌}
use mathlib.Core.Path.{◌≡◌}
use mathlib.Core.List.{List}
use mathlib.Core.Option.{Option, none, some}
use native.Mathlib.Omega.{arith}
use co2018_assignment.Base.Test.{ltb, if◌then◌else◌}
use co2018_assignment.Base.Array.{length, set}

-- The `int` results 0 and -1.
pub data Status : Type 0 where
  done : Status
  failed : Status

infixl 5 ◌>>=◌ ◌>>◌
abbrev pub ◌>>=◌ {ℓ κ} : {A : Type ℓ} {B : Type κ} → Option A → (A → Option B) → Option B
none >>= f = none
some a >>= f = f a

abbrev pub ◌>>◌ {ℓ} : {B : Type ℓ} → Option (Unit {0}) → Option B → Option B
m >> k = m >>= λ _. k

module _ {ℓ} {A : Type ℓ} where
  -- `a[i] = v`
  unfoldable pub store_at : List A → ℕ → A → Option (List A)
  store_at xs i v = if ltb i (length xs) then some (set xs i v) else none

  pub store_at-in_range :
      (xs : List A) (i : ℕ) (v : A) → i < length xs → store_at xs i v ≡ some (set xs i v)
  unfolding store_at
  store_at-in_range xs i v h = ground arith
