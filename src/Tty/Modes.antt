-- ===== src/Tty/Modes.antt =====
-- pty/tty_functions.cpp: the modes that a terminal is left in.
use hoststack.Prelude.{ℕ, ◌≡◌, refl, sym, ◌∙◌, Bool, true, false, List, [], ◌∷◌, arith, subst}
use hoststack.Returns.{
  ◌>>=◌, ◌>>◌, return, try, check, Result, returns, fails, exits, try_lem, check_lem,
}
use hoststack.Tty.{
  Word, Termios, Tty, isig, icanon, echo, iexten, ignbrk, brkint, parmrk, inpck, istrip, inlcr,
  igncr, icrnl, ixon, opost, vtime, vmin, is_in, clear, raise, put, cbreak_cleared, raw_local,
  raw_input, cbreak, raw, tty_set_cbreak, tty_set_raw, tty_reset,
}

-- Every flag that is not in the list is as before.
abbrev pub KeepsOthers : List ℕ → Word → Word → Type 0
KeepsOthers flags before after = (b : ℕ) → is_in b flags ≡ false → after b ≡ before b

-- Input a byte at a time, as soon as there is one.
abbrev pub Unbuffered : (ℕ → ℕ) → (ℕ → ℕ) → Type 0
Unbuffered before after =
    (after vmin ≡ 1)
    × (after vtime ≡ 0)
    × ((i : ℕ) → is_in i (vmin ∷ vtime ∷ []) ≡ false → after i ≡ before i)

pub record IsRaw (before after : Termios) : Type 0 where
  pub no_lines : after.c_lflag icanon ≡ false
  pub no_signals : after.c_lflag isig ≡ false
  pub no_extensions : after.c_lflag iexten ≡ false
  pub no_echo : after.c_lflag echo ≡ false
  pub no_break_interrupt : after.c_iflag brkint ≡ false
  pub no_newline_for_return : after.c_iflag icrnl ≡ false
  pub no_ignored_break : after.c_iflag ignbrk ≡ false
  pub no_ignored_return : after.c_iflag igncr ≡ false
  pub no_return_for_newline : after.c_iflag inlcr ≡ false
  pub no_parity_check : after.c_iflag inpck ≡ false
  pub no_stripping : after.c_iflag istrip ≡ false
  pub no_flow_control : after.c_iflag ixon ≡ false
  pub no_parity_mark : after.c_iflag parmrk ≡ false
  pub no_output_processing : after.c_oflag opost ≡ false
  pub other_local : KeepsOthers raw_local before.c_lflag after.c_lflag
  pub other_input : KeepsOthers raw_input before.c_iflag after.c_iflag
  pub other_output : KeepsOthers (opost ∷ []) before.c_oflag after.c_oflag
  pub bytes : Unbuffered before.c_cc after.c_cc

pub record IsCbreak (before after : Termios) : Type 0 where
  pub no_lines : after.c_lflag icanon ≡ false
  pub signals : after.c_lflag isig ≡ true
  pub no_echo : after.c_lflag echo ≡ false
  pub no_newline_for_return : after.c_iflag icrnl ≡ false
  pub other_local : KeepsOthers (isig ∷ cbreak_cleared) before.c_lflag after.c_lflag
  pub other_input : KeepsOthers (icrnl ∷ []) before.c_iflag after.c_iflag
  pub output : after.c_oflag ≡ before.c_oflag
  pub bytes : Unbuffered before.c_cc after.c_cc

clear_others : (flags : List ℕ) (w : Word) → KeepsOthers flags w (clear flags w)
unfolding clear
clear_others flags w b h = rw h refl

raise-clear_others :
    (flag : ℕ) (flags : List ℕ) (w : Word)
    → KeepsOthers (flag ∷ flags) w (raise flag (clear flags w))
unfolding clear raise is_in
raise-clear_others flag flags w b h = ground arith

bytes_lem : (cc : ℕ → ℕ) → Unbuffered cc (put vtime 0 (put vmin 1 cc))
unfolding put is_in
bytes_lem cc = (refl, refl, λ i h. ground arith)

raw-IsRaw : (t : Termios) → IsRaw t (raw t)
unfolding raw
raw-IsRaw t = record {
  no_lines = refl;
  no_signals = refl;
  no_extensions = refl;
  no_echo = refl;
  no_break_interrupt = refl;
  no_newline_for_return = refl;
  no_ignored_break = refl;
  no_ignored_return = refl;
  no_return_for_newline = refl;
  no_parity_check = refl;
  no_stripping = refl;
  no_flow_control = refl;
  no_parity_mark = refl;
  no_output_processing = refl;
  other_local = clear_others raw_local t.c_lflag;
  other_input = clear_others raw_input t.c_iflag;
  other_output = clear_others (opost ∷ []) t.c_oflag;
  bytes = bytes_lem t.c_cc;
}

cbreak-IsCbreak : (t : Termios) → IsCbreak t (cbreak t)
unfolding cbreak
cbreak-IsCbreak t = record {
  no_lines = refl;
  signals = refl;
  no_echo = refl;
  no_newline_for_return = refl;
  other_local = raise-clear_others isig cbreak_cleared t.c_lflag;
  other_input = clear_others (icrnl ∷ []) t.c_iflag;
  output = refl;
  bytes = bytes_lem t.c_cc;
}

module _ (tty : Tty) (fd : ℕ) (s : tty.State) where
  -- What a change of the mode leaves: a mode reached from the attributes that are returned, or, after
  -- an error, the terminal as it was.
  abbrev pub Changes : (Termios → Termios → Type 0) → Result Termios × tty.State → Type 0
  Changes Mode (returns a, t) = (a ≡ tty.attributes fd s) × Mode a (tty.attributes fd t)
  Changes Mode (fails, t) = tty.attributes fd t ≡ tty.attributes fd s
  Changes Mode (exits n, t) = ⊥

  changes_lem :
      (Mode : Termios → Termios → Type 0) (mode : Termios → Termios)
      → ((a : Termios) → Mode a (mode a))
      → Changes Mode (
          (do
            t ← try (tty.tcgetattr fd) (λ u. (fails, u))
            check (tty.tcsetattr fd (mode t)) (λ u. (fails, u))
            return t)
            s)
  changes_lem Mode mode h =
      try_lem (Changes Mode) (tty.tcgetattr fd) _ _ s
        (λ a t e.
          let (got, same) = tty.getattr_lem fd s t a e in
          check_lem (Changes Mode) (tty.tcsetattr fd (mode a)) _ _ t
            (λ u d. (got, subst (Mode a) (sym (tty.setattr_lem fd (mode a) t u d)) (h a)))
            (λ u d. tty.setattr_refused fd (mode a) t u d ∙ same))
        (λ t e. tty.getattr_refused fd s t e)

  -- tty_set_raw returns the attributes before it and leaves the terminal in raw mode: no line editing,
  -- echo, signals or processing of input and output, a byte at a time, and nothing else changed. With
  -- an error the terminal is as it was.
  pub tty_set_raw-IsRaw : Changes IsRaw (tty_set_raw tty fd s)
  unfolding tty_set_raw
  tty_set_raw-IsRaw = changes_lem IsRaw raw raw-IsRaw

  pub tty_set_cbreak-IsCbreak : Changes IsCbreak (tty_set_cbreak tty fd s)
  unfolding tty_set_cbreak
  tty_set_cbreak-IsCbreak = changes_lem IsCbreak cbreak cbreak-IsCbreak

module _ (tty : Tty) (s t u : tty.State) (a : Termios) where
  -- Whatever happens to the terminal in between, tty_reset with what tty_set_raw returned gives it the
  -- attributes from before tty_set_raw, if its call of tcsetattr succeeds.
  pub tty_reset-tty_set_raw :
      tty_set_raw tty 0 s ≡ (returns a, t)
      → (tty.tcsetattr 0 a u).0 ≡ true
      → tty.attributes 0 (tty_reset tty a u) ≡ tty.attributes 0 s
  unfolding tty_reset
  tty_reset-tty_set_raw e ok = set (tty.tcsetattr 0 a u) refl ok
    where
      set :
          (r : Bool × tty.State)
          → tty.tcsetattr 0 a u ≡ r
          → r.0 ≡ true
          → tty.attributes 0 r.1 ≡ tty.attributes 0 s
      set (true, v) d h =
          tty.setattr_lem 0 a u v d
          ∙ (subst (Changes tty 0 s IsRaw) e (tty_set_raw-IsRaw tty 0 s)).0
      set (false, v) d h = cc
