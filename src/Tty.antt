-- ===== src/Tty.antt =====
-- pty/tty_functions.cpp, and ttyReset of pty/pty_exec_util.cpp: the attributes of a terminal, over
-- tcgetattr and tcsetattr as an interface. A flag word is the set of its bits, and a flag the number
-- of its bit on Linux.
pub mod Modes
pub mod Console
use hoststack.Prelude.{
  ℕ, ◌≡◌, ◌≢◌, Bool, true, false, ◌||◌, Option, none, some, List, [], ◌∷◌, if◌then◌else◌, ◌==◌,
}
use hoststack.Returns.{Result, returns, fails, M, ◌>>=◌, ◌>>◌, return, try, check}

abbrev pub Word : Type 0
Word = ℕ → Bool

pub record Termios : Type 0 where
  pub c_iflag : Word
  pub c_oflag : Word
  pub c_lflag : Word
  pub c_cc : ℕ → ℕ

abbrev pub isig : ℕ
isig = 0

abbrev pub icanon : ℕ
icanon = 1

abbrev pub echo : ℕ
echo = 3

abbrev pub iexten : ℕ
iexten = 15

abbrev pub ignbrk : ℕ
ignbrk = 0

abbrev pub brkint : ℕ
brkint = 1

abbrev pub parmrk : ℕ
parmrk = 3

abbrev pub inpck : ℕ
inpck = 4

abbrev pub istrip : ℕ
istrip = 5

abbrev pub inlcr : ℕ
inlcr = 6

abbrev pub igncr : ℕ
igncr = 7

abbrev pub icrnl : ℕ
icrnl = 8

abbrev pub ixon : ℕ
ixon = 10

abbrev pub opost : ℕ
opost = 0

abbrev pub vtime : ℕ
vtime = 5

abbrev pub vmin : ℕ
vmin = 6

unfoldable pub is_in : ℕ → List ℕ → Bool
is_in b [] = false
is_in b (x ∷ xs) = (b == x) || is_in b xs

-- `w &= ~flags`, `w |= flag` and `c_cc[i] = v`
unfoldable pub clear : List ℕ → Word → Word
clear flags w b = if is_in b flags then false else w b

unfoldable pub raise : ℕ → Word → Word
raise flag w b = if b == flag then true else w b

unfoldable pub put : ℕ → ℕ → (ℕ → ℕ) → ℕ → ℕ
put i v cc j = if j == i then v else cc j

pub record Tty : Type 1 where
  pub State : Type 0
  -- `none` and `false` are -1.
  pub tcgetattr : ℕ → State → Option Termios × State
  pub tcsetattr : ℕ → Termios → State → Bool × State
  -- The attributes of the terminal that a descriptor refers to.
  pub attributes : ℕ → State → Termios
  pub getattr_lem :
      (fd : ℕ) (s t : State) (a : Termios)
      → tcgetattr fd s ≡ (some a, t)
      → (a ≡ attributes fd s) × (attributes fd t ≡ attributes fd s)
  pub getattr_refused :
      (fd : ℕ) (s t : State) → tcgetattr fd s ≡ (none, t) → attributes fd t ≡ attributes fd s
  -- A call that succeeds makes all changes.
  pub setattr_lem :
      (fd : ℕ) (a : Termios) (s t : State) → tcsetattr fd a s ≡ (true, t) → attributes fd t ≡ a
  pub setattr_refused :
      (fd : ℕ) (a : Termios) (s t : State)
      → tcsetattr fd a s ≡ (false, t)
      → attributes fd t ≡ attributes fd s

abbrev pub cbreak_cleared : List ℕ
cbreak_cleared = icanon ∷ echo ∷ []

abbrev pub raw_local : List ℕ
raw_local = icanon ∷ isig ∷ iexten ∷ echo ∷ []

abbrev pub raw_input : List ℕ
raw_input = brkint ∷ icrnl ∷ ignbrk ∷ igncr ∷ inlcr ∷ inpck ∷ istrip ∷ ixon ∷ parmrk ∷ []

unfoldable pub cbreak : Termios → Termios
unfolding clear raise put is_in
cbreak t = record t {
  c_lflag = raise isig (clear cbreak_cleared t.c_lflag);
  c_iflag = clear (icrnl ∷ []) t.c_iflag;
  c_cc = put vtime 0 (put vmin 1 t.c_cc);
}

unfoldable pub raw : Termios → Termios
unfolding clear raise put is_in
raw t = record t {
  c_lflag = clear raw_local t.c_lflag;
  c_iflag = clear raw_input t.c_iflag;
  c_oflag = clear (opost ∷ []) t.c_oflag;
  c_cc = put vtime 0 (put vmin 1 t.c_cc);
}

module _ (tty : Tty) where
  -- The attributes before the call are the result, which a caller may leave aside.
  unfoldable pub tty_set_cbreak : ℕ → M tty.State Termios
  unfolding cbreak
  tty_set_cbreak fd = do
    t ← try (tty.tcgetattr fd) (λ s. (fails, s))
    check (tty.tcsetattr fd (cbreak t)) (λ s. (fails, s))
    return t

  unfoldable pub tty_set_raw : ℕ → M tty.State Termios
  unfolding raw
  tty_set_raw fd = do
    t ← try (tty.tcgetattr fd) (λ s. (fails, s))
    check (tty.tcsetattr fd (raw t)) (λ s. (fails, s))
    return t

  -- A failure is a message.
  unfoldable pub tty_reset : Termios → tty.State → tty.State
  tty_reset tty_orig s = (tty.tcsetattr 0 tty_orig s).1
