-- ===== src/Base/Step.antt =====
-- What a call gives in a process that may end in it: a value, the end of the process (`syserr`, which
-- logs and calls exit(-1)), or an access that is undefined: out of bounds, to NULL, or to what was
-- never set.
pub data Step {ℓ} (A : Type ℓ) : Type ℓ where
  continues : A → Step A
  exits : Step A
  overruns : Step A

abbrev pub then_do {ℓ κ} : {A : Type ℓ} {B : Type κ} → Step A → (A → Step B) → Step B
then_do (continues a) f = f a
then_do exits f = exits
then_do overruns f = overruns
