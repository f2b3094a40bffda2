-- ===== src/Prelude/Answers.antt =====
-- Equations between the answers of calls: a value or none, with the state after the call.
use mathlib.Core.Path.{◌≡◌, ap, sym}
use mathlib.Core.Option.{Option, none, some}

module _ {ℓ} {A : Type ℓ} where
  pub same_some : {a b : A} → some a ≡ some b → a ≡ b
  same_some e = cc

  pub no_some : {a : A} → none ≡ some a → ⊥
  no_some e = cc

module _ {ℓ} {A B : Type ℓ} where
  pub no_answer : {a : A} {s t : B} → ◌≡◌ {A = Option A × B} (none, s) (some a, t) → ⊥
  no_answer e = no_some (ap (λ r. r.0) e)

  pub no_refusal : {a : A} {s t : B} → ◌≡◌ {A = Option A × B} (some a, s) (none, t) → ⊥
  no_refusal e = no_answer (sym e)

  pub some_part : {a b : A} {s t : B} → ◌≡◌ {A = Option A × B} (some a, s) (some b, t) → a ≡ b
  some_part e = same_some (ap (λ r. r.0) e)

  pub state_part : {a b : Option A} {s t : B} → ◌≡◌ {A = Option A × B} (a, s) (b, t) → s ≡ t
  state_part e = ap (λ r. r.1) e
