-- ===== src/Prelude/Effects.antt =====
-- What a call of C++ code comes to: a result, a `std::runtime_error` that leaves the call, or
-- undefined behaviour (a dangling pointer, an access out of range, `erase(end())`). `unfinished`
-- stands for a loop of the model whose fuel ran out.
use mathlib.Core.Option.{Option, none, some}

pub data Outcome {ℓ} (A : Type ℓ) : Type ℓ where
  ok : A → Outcome A
  throws : Outcome A
  undefined : Outcome A
  unfinished : Outcome A

infixl 5 ◌>>=◌
abbrev pub ◌>>=◌ {ℓ κ} : {A : Type ℓ} {B : Type κ} → Outcome A → (A → Outcome B) → Outcome B
ok a >>= f = f a
throws >>= f = throws
undefined >>= f = undefined
unfinished >>= f = unfinished

-- A read that is undefined where there is nothing to read.
abbrev pub defined {ℓ} : {A : Type ℓ} → Option A → Outcome A
defined none = undefined
defined (some a) = ok a
