-- ===== src/Returns.antt =====
-- Calls that change a state and return a value, -1 or not at all, in the order that the source makes
-- them.
use hoststack.Prelude.{ℕ, ◌≡◌, refl, Bool, true, false, Option, none, some}

-- `fails` is the return of -1, `exits` the end of the program by err_exit.
pub data Result {ℓ} (A : Type ℓ) : Type ℓ where
  returns : A → Result A
  fails : Result A
  exits : ℕ → Result A

abbrev pub M : Type 0 → Type 0 → Type 0
M S A = S → Result A × S

abbrev pub bound : {S A B : Type 0} → Result A × S → (A → M S B) → Result B × S
bound (returns a, t) f = f a t
bound (fails, t) f = (fails, t)
bound (exits n, t) f = (exits n, t)

infixl 5 ◌>>=◌ ◌>>◌
abbrev pub ◌>>=◌ : {S A B : Type 0} → M S A → (A → M S B) → M S B
◌>>=◌ m f s = bound (m s) f

abbrev pub ◌>>◌ : {S B : Type 0} → M S (Unit {0}) → M S B → M S B
m >> k = m >>= λ _. k

abbrev pub return : {S A : Type 0} → A → M S A
return a s = (returns a, s)

-- A call whose failure is handled by the caller: `handle` runs in the state after the call.
abbrev pub answer : {S A : Type 0} → Option A × S → M S A → Result A × S
answer (some a, t) handle = (returns a, t)
answer (none, t) handle = handle t

abbrev pub try : {S A : Type 0} → (S → Option A × S) → M S A → M S A
try call handle s = answer (call s) handle

abbrev pub done : {S : Type 0} → Bool × S → M S (Unit {0}) → Result (Unit {0}) × S
done (true, t) handle = (returns tt, t)
done (false, t) handle = handle t

abbrev pub check : {S : Type 0} → (S → Bool × S) → M S (Unit {0}) → M S (Unit {0})
check call handle s = done (call s) handle

module _ {ℓ} {S : Type 0} where
  -- A property of a sequence, from one of its first call and one of the rest.
  pub bind_lem :
      {A B : Type 0} (P : Result B × S → Type ℓ) (m : M S A) (f : A → M S B) (s : S)
      → ((a : A) (t : S) → m s ≡ (returns a, t) → P (f a t))
      → ((t : S) → m s ≡ (fails, t) → P (fails, t))
      → ((n : ℕ) (t : S) → m s ≡ (exits n, t) → P (exits n, t))
      → P ((m >>= f) s)
  bind_lem {A} {B} P m f s hr hf he = go (m s) refl
    where
      go : (r : Result A × S) → m s ≡ r → P (bound r f)
      go (returns a, t) e = hr a t e
      go (fails, t) e = hf t e
      go (exits n, t) e = he n t e

  pub try_lem :
      {A B : Type 0} (P : Result B × S → Type ℓ) (call : S → Option A × S) (handle : M S A)
      (f : A → M S B) (s : S)
      → ((a : A) (t : S) → call s ≡ (some a, t) → P (f a t))
      → ((t : S) → call s ≡ (none, t) → P (bound (handle t) f))
      → P ((try call handle >>= f) s)
  try_lem {A} P call handle f s hs hn = go (call s) refl
    where
      go : (r : Option A × S) → call s ≡ r → P (bound (answer r handle) f)
      go (some a, t) e = hs a t e
      go (none, t) e = hn t e

  pub check_lem :
      {B : Type 0} (P : Result B × S → Type ℓ) (call : S → Bool × S) (handle : M S (Unit {0}))
      (f : Unit {0} → M S B) (s : S)
      → ((t : S) → call s ≡ (true, t) → P (f tt t))
      → ((t : S) → call s ≡ (false, t) → P (bound (handle t) f))
      → P ((check call handle >>= f) s)
  check_lem P call handle f s ht hf = go (call s) refl
    where
      go : (r : Bool × S) → call s ≡ r → P (bound (done r handle) f)
      go (true, t) e = ht t e
      go (false, t) e = hf t e
