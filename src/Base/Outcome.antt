-- ===== src/Base/Outcome.antt =====
-- What evaluating a piece of C code gives: a value, undefined behaviour (an access out of bounds, a
-- read of an uninitialised object), no answer within the fuel that bounds a loop of the model, or the
-- end of the process, by a message that is fatal.
use Prim.Native.Nat.{ℕ}
use automaton_state_machine.Base.Tests.{ltb, if◌then◌else◌, ◌==◌}
use automaton_state_machine.Base.Int.{ℤ, pos, negsuc}

pub data Outcome {ℓ} (A : Type ℓ) : Type ℓ where
  ok : A → Outcome A
  undefined : Outcome A
  out_of_fuel : Outcome A
  ends : Outcome A

infixl 5 ◌>>=◌
abbrev pub ◌>>=◌ {ℓ κ} : {A : Type ℓ} {B : Type κ} → Outcome A → (A → Outcome B) → Outcome B
ok a >>= f = f a
undefined >>= f = undefined
out_of_fuel >>= f = out_of_fuel
ends >>= f = ends

-- `a[i]` for an array `a` of `n` cells.
abbrev pub index {ℓ} : {A : Type ℓ} → ℕ → (ℕ → A) → ℤ → Outcome A
index n a (pos i) = if ltb i n then ok (a i) else undefined
index n a (negsuc i) = undefined

-- The same array after `a[i] = v`, for an index in bounds.
abbrev pub store {ℓ} : {A : Type ℓ} → ℕ → (ℕ → A) → ℤ → A → Outcome (ℕ → A)
store n a (pos i) v = if ltb i n then ok (λ j. if i == j then v else a j) else undefined
store n a (negsuc i) v = undefined
