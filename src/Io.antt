-- ===== src/Io.antt =====
-- The read and write system calls, as an interface: the kernel is not code of this repository.
pub mod Pipe
use hoststack.Prelude.{
  ℕ, suc, ◌≤◌, ◌<◌, ◌≡◌, Bool, true, Option, none, some, [], ◌++◌, length, take,
}
use hoststack.Prelude.Text.{Text}

pub record Io : Type 1 where
  pub State : Type 0
  -- `none` is -1, `some []` the end of the file.
  pub read : ℕ → ℕ → State → Option Text × State
  -- `none` is -1, `some k` the number of bytes that were taken.
  pub write : ℕ → Text → State → Option ℕ × State
  pub close : ℕ → State → State
  -- errno == EINTR after a call
  pub eintr : State → Bool
  -- How many calls signals may still interrupt.
  pub patience : State → ℕ
  -- The bytes that a descriptor will still deliver before its end, and those that it has taken.
  pub pending : ℕ → State → Text
  pub written : ℕ → State → Text
  pub read_data :
      (fd n : ℕ) (s t : State) (d : Text)
      → read fd n s ≡ (some d, t)
      → (pending fd s ≡ d ++ pending fd t) × (length d ≤ n) × (patience t ≤ patience s)
  pub read_end : (fd n : ℕ) (s t : State) → read fd (suc n) s ≡ (some [], t) → pending fd s ≡ []
  pub read_refused :
      (fd n : ℕ) (s t : State)
      → read fd n s ≡ (none, t)
      → (pending fd t ≡ pending fd s)
        × (patience t ≤ patience s)
        × (eintr t ≡ true → patience t < patience s)
  pub write_some :
      (fd k : ℕ) (s t : State) (d : Text)
      → write fd d s ≡ (some k, t)
      → (written fd t ≡ written fd s ++ take k d) × (k ≤ length d) × (patience t ≤ patience s)
  pub write_zero :
      (fd : ℕ) (s t : State) (d : Text)
      → write fd d s ≡ (some 0, t)
      → eintr t ≡ true
      → patience t < patience s
  pub write_refused :
      (fd : ℕ) (s t : State) (d : Text)
      → write fd d s ≡ (none, t)
      → (written fd t ≡ written fd s)
        × (patience t ≤ patience s)
        × (eintr t ≡ true → patience t < patience s)
  pub close_patience : (fd : ℕ) (s : State) → patience (close fd s) ≤ patience s
