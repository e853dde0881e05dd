-- ===== src/Common/Calls.antt =====
-- What a call of C++ code comes to: a value, a memory fault (an access outside an allocation, or a
-- read of a slot that nothing was written to), or a model loop that ran out of fuel.
pub data Outcome {ℓ} (A : Type ℓ) : Type ℓ where
  done : A → Outcome A
  fault exhausted : Outcome A

infixl 5 ◌>>=◌
abbrev pub ◌>>=◌ {ℓ κ} : {A : Type ℓ} {B : Type κ} → Outcome A → (A → Outcome B) → Outcome B
done a >>= f = f a
fault >>= f = fault
exhausted >>= f = exhausted
