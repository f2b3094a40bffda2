-- ===== src/Outcome.antt =====
-- How a call that may not return ends.
use hoststack.Prelude.{◌≡◌}
use Prim.Native.Nat.{ℕ}

-- `exits` is a call of exit with the state that it leaves, `undefined` undefined behaviour.
pub data Outcome {ℓ} (A : Type ℓ) : Type ℓ where
  ok : A → Outcome A
  exits : ℕ → A → Outcome A
  undefined : Outcome A

infixl 5 ◌>>=◌
abbrev pub ◌>>=◌ {ℓ} : {A : Type ℓ} → Outcome A → (A → Outcome A) → Outcome A
ok a >>= f = f a
exits n a >>= f = exits n a
undefined >>= f = undefined

pub bind_ok {ℓ} :
    {A : Type ℓ} {m : Outcome A} {a : A} (f : A → Outcome A) → m ≡ ok a → (m >>= f) ≡ f a
bind_ok f e = rw (e, ◌>>=◌)
