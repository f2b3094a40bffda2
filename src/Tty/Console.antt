-- ===== src/Tty/Console.antt =====
-- An instance of the interface: the attributes of one terminal. The descriptor 9 is no terminal.
use hoststack.Prelude.{
  ℕ, ◌≡◌, sym, ap, Bool, true, false, Option, none, some, ◌==◌, no_answer, some_part,
}
use hoststack.Tty.{Termios, Tty}

abbrev got : Bool → Termios → Option Termios × Termios
got true s = (none, s)
got false s = (some s, s)

abbrev pub read_attributes : ℕ → Termios → Option Termios × Termios
read_attributes fd s = got (fd == 9) s

abbrev wanted : Bool → Termios → Termios → Bool × Termios
wanted true a s = (false, s)
wanted false a s = (true, a)

abbrev pub write_attributes : ℕ → Termios → Termios → Bool × Termios
write_attributes fd a s = wanted (fd == 9) a s

pub get_lem : (b : Bool) (s t a : Termios) → got b s ≡ (some a, t) → (a ≡ s) × (t ≡ s)
get_lem true s t a e = absurd (no_answer e)
get_lem false s t a e = (sym (some_part e), sym (ap (λ r. r.1) e))

pub get_refused : (b : Bool) (s t : Termios) → got b s ≡ (none, t) → t ≡ s
get_refused true s t e = sym (ap (λ r. r.1) e)
get_refused false s t e = absurd (no_answer (sym e))

pub change_lem : (b : Bool) (a s t : Termios) → wanted b a s ≡ (true, t) → t ≡ a
change_lem true a s t e = absurd (tag (ap (λ r. r.0) e))
  where
    tag : false ≡ true → ⊥
    tag e = cc
change_lem false a s t e = sym (ap (λ r. r.1) e)

pub change_refused : (b : Bool) (a s t : Termios) → wanted b a s ≡ (false, t) → t ≡ s
change_refused true a s t e = sym (ap (λ r. r.1) e)
change_refused false a s t e = absurd (tag (ap (λ r. r.0) e))
  where
    tag : true ≡ false → ⊥
    tag e = cc

abbrev pub console : Tty
console = record {
  State = Termios;
  tcgetattr = λ fd s. read_attributes fd s;
  tcsetattr = λ fd a s. write_attributes fd a s;
  attributes = λ fd s. s;
  getattr_lem = λ fd s t a e. get_lem (fd == 9) s t a e;
  getattr_refused = λ fd s t e. get_refused (fd == 9) s t e;
  setattr_lem = λ fd a s t e. change_lem (fd == 9) a s t e;
  setattr_refused = λ fd a s t e. change_refused (fd == 9) a s t e;
}

-- A terminal in which every flag is set.
abbrev pub cooked : Termios
cooked = record { c_iflag = λ b. true; c_oflag = λ b. true; c_lflag = λ b. true; c_cc = λ i. 0 }
