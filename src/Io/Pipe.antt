-- ===== src/Io/Pipe.antt =====
-- An instance of the interface: bytes to deliver, bytes taken, and signals that interrupt the next
-- calls. A write takes at most four bytes.
use hoststack.Prelude.{
  ℕ, zero, suc, ◌≤◌, ◌<◌, ◌≡◌, refl, ap, Bool, true, false, Option, none, some, [], ◌∷◌, ◌++◌, take,
  drop, take-drop, length-take_le, arith, length, sym, ◌∙◌, no_answer, state_part, some_part,
  take_nothing, no_refusal,
}
use hoststack.Prelude.Text.{Text}
use hoststack.Io.{Io}

pub data Pipe : Type 0 where
  pipe : Bool → ℕ → Text → Text → Pipe

abbrev pub pipe_eintr : Pipe → Bool
pipe_eintr (pipe b k i o) = b

abbrev pub pipe_patience : Pipe → ℕ
pipe_patience (pipe b k i o) = k

abbrev pub pipe_pending : ℕ → Pipe → Text
pipe_pending fd (pipe b k i o) = i

abbrev pub pipe_written : ℕ → Pipe → Text
pipe_written fd (pipe b k i o) = o

abbrev pub pipe_read : ℕ → ℕ → Pipe → Option Text × Pipe
pipe_read fd n (pipe b (suc k) i o) = (none, pipe true k i o)
pipe_read fd n (pipe b zero i o) = (some (take n i), pipe false zero (drop n i) o)

abbrev pub pipe_write : ℕ → Text → Pipe → Option ℕ × Pipe
pipe_write fd d (pipe b (suc k) i o) = (none, pipe true k i o)
pipe_write fd d (pipe b zero i o) = (some (length (take 4 d)), pipe false zero i (o ++ take 4 d))

length_min :
    (n : ℕ) (d : Text) → (length (take n d) ≤ length d) × (take (length (take n d)) d ≡ take n d)
length_min zero d = (omega arith, refl)
length_min (suc n) [] = (omega arith, refl)
length_min (suc n) (c ∷ d) = let (l, e) = length_min n d in (omega (arith, l), ap (◌∷◌ c) e)

pub pipe_read_data :
    (fd n : ℕ) (s t : Pipe) (d : Text)
    → pipe_read fd n s ≡ (some d, t)
    → (pipe_pending fd s ≡ d ++ pipe_pending fd t)
      × (length d ≤ n)
      × (pipe_patience t ≤ pipe_patience s)
pipe_read_data fd n (pipe b (suc k) i o) t d e = absurd (no_answer e)
pipe_read_data fd n (pipe b zero i o) t d e =
    rw (← some_part e, ← state_part e) (sym (take-drop n i), length-take_le n i, omega arith)

pub pipe_read_end :
    (fd n : ℕ) (s t : Pipe) → pipe_read fd (suc n) s ≡ (some [], t) → pipe_pending fd s ≡ []
pipe_read_end fd n (pipe b (suc k) i o) t e = absurd (no_answer e)
pipe_read_end fd n (pipe b zero i o) t e = take_nothing n i (some_part e)

pub pipe_read_refused :
    (fd n : ℕ) (s t : Pipe)
    → pipe_read fd n s ≡ (none, t)
    → (pipe_pending fd t ≡ pipe_pending fd s)
      × (pipe_patience t ≤ pipe_patience s)
      × (pipe_eintr t ≡ true → pipe_patience t < pipe_patience s)
pipe_read_refused fd n (pipe b (suc k) i o) t e =
    rw (← state_part e) (refl, omega arith, λ x. omega arith)
pipe_read_refused fd n (pipe b zero i o) t e = absurd (no_refusal e)

pub pipe_write-some :
    (fd k : ℕ) (s t : Pipe) (d : Text)
    → pipe_write fd d s ≡ (some k, t)
    → (pipe_written fd t ≡ pipe_written fd s ++ take k d)
      × (k ≤ length d)
      × (pipe_patience t ≤ pipe_patience s)
pipe_write-some fd k (pipe b (suc j) i o) t d e = absurd (no_answer e)
pipe_write-some fd k (pipe b zero i o) t d e =
    let (l, m) = length_min 4 d in
    rw (← some_part e, ← state_part e) (ap (◌++◌ o) (sym m), l, omega arith)

not_equal : false ≡ true → ⊥
not_equal e = cc

pub pipe_write_zero :
    (fd : ℕ) (s t : Pipe) (d : Text)
    → pipe_write fd d s ≡ (some 0, t)
    → pipe_eintr t ≡ true
    → pipe_patience t < pipe_patience s
pipe_write_zero fd (pipe b (suc j) i o) t d e x = absurd (no_answer e)
pipe_write_zero fd (pipe b zero i o) t d e x = absurd (not_equal (ap pipe_eintr (state_part e) ∙ x))

pub pipe_write_refused :
    (fd : ℕ) (s t : Pipe) (d : Text)
    → pipe_write fd d s ≡ (none, t)
    → (pipe_written fd t ≡ pipe_written fd s)
      × (pipe_patience t ≤ pipe_patience s)
      × (pipe_eintr t ≡ true → pipe_patience t < pipe_patience s)
pipe_write_refused fd (pipe b (suc k) i o) t d e =
    rw (← state_part e) (refl, omega arith, λ x. omega arith)
pipe_write_refused fd (pipe b zero i o) t d e = absurd (no_refusal e)

abbrev pub pipe_io : Io
pipe_io = record {
  State = Pipe;
  read = pipe_read;
  write = pipe_write;
  close = λ fd s. s;
  eintr = pipe_eintr;
  patience = pipe_patience;
  pending = pipe_pending;
  written = pipe_written;
  read_data = pipe_read_data;
  read_end = pipe_read_end;
  read_refused = pipe_read_refused;
  write_some = pipe_write-some;
  write_zero = pipe_write_zero;
  write_refused = pipe_write_refused;
  close_patience = λ fd s. omega arith;
}
