-- ===== src/Relay/Session/Executes.antt =====
-- pty/pty_exec_util.cpp: what pty_exec does in the parent and in the child of its fork.
use hoststack.Prelude.{
  ℕ, ◌≡◌, ◌≢◌, ◌<◌, ◌⊎◌, inl, inr, refl, Bool, true, false, Option, none, some, List, ◌&&◌,
  if◌then◌else◌, ◌==◌, ==_iff, Bool-cases, sym, ap, subst,
}
use hoststack.Prelude.Text.{Text}
use hoststack.Returns.{Result, returns, fails, exits}
use hoststack.Io.{Io}
use hoststack.Pty.{Forked, parent, child, Child, replaced, returned}
use hoststack.Pool.Serve.{Waiting}
use hoststack.Tty.{Termios, Tty, tty_reset, tty_set_raw}
use hoststack.Tty.Modes.{IsRaw, Changes, tty_set_raw-IsRaw}
use hoststack.Relay.{Traffic, going, ended, exited, undefined, Turn, exec_rounds, buf_size}
use hoststack.Relay.Client.{Relayed}
use hoststack.Relay.Exec.{exec_rounds-Relayed}
use hoststack.Relay.Session.{
  Ending, Session, orig_after, reaped, after_relay, dumped, pty_exec_parent, forked, in_tty,
  pty_exec,
}
use hoststack.Relay.Session.Modes.{Obeys, written}

-- The terminal while the loop runs: as it was, if pty_exec is detached or ttySetRaw fails, or raw.
abbrev pub Mode : Bool → Termios → Termios → Type 0
Mode true before after = after ≡ before
Mode false before after = IsRaw before after ⊎ (after ≡ before)

module _ (tty : Tty) where
  tty_set_raw-Mode :
      (t : tty.State) → Mode false (tty.attributes 0 t) (tty.attributes 0 (tty_set_raw tty 0 t).1)
  tty_set_raw-Mode t = go (tty_set_raw tty 0 t) (tty_set_raw-IsRaw tty 0 t)
    where
      go :
          (r : Result Termios × tty.State)
          → Changes tty 0 t IsRaw r
          → Mode false (tty.attributes 0 t) (tty.attributes 0 r.1)
      go (returns a, u) (e, h) = inl (subst (λ x. IsRaw x (tty.attributes 0 u)) e h)
      go (fails, u) h = inr h
      go (exits n, u) h = absurd h

module _ (io : Io) (waiting : Waiting io) (traffic : Traffic io waiting) (tries : ℕ) (tty : Tty)
    (obeys : Obeys tty) (ending : Ending io) where
  -- Where the relay of the parent begins.
  abbrev pub begin : Bool → io.State → io.State
  begin true s = (ending.dump_std_out s).1
  begin false s = s

  -- What has become of pty_exec, from its terminal's attributes and the state before its fork.
  pub data Executes (detach chdir chroot execvp : Bool) (cmd : List Text) (s : io.State)
      (before : Termios) : Child ⊎ Session io waiting tries tty → Type 0 where
    in_command :
        (r : io.State)
        → ending.pty_fork s ≡ (returns child, r)
        → execvp ≡ true
        → Executes detach chdir chroot execvp cmd s before (inl (replaced (chdir && chroot) cmd))
    lost_in_fork :
        (n : ℕ) (r : io.State)
        → ending.pty_fork s ≡ (exits n, r)
        → Executes detach chdir chroot execvp cmd s before (inl (returned n))
    without_master :
        ((r : io.State) × (ending.pty_fork s ≡ (fails, r)))
          ⊎ ((r : io.State) × (ending.pty_fork s ≡ (returns child, r)) × (execvp ≡ false))
        → Executes detach chdir chroot execvp cmd s before (inr (some undefined))
    relaying :
        (pid mfd : ℕ) (name : Option Text) (o r : io.State) (u : tty.State)
        → ending.pty_fork s ≡ (returns (parent pid mfd name), o)
        → Relayed io waiting traffic tries mfd (begin detach o) (some (going r))
        → Mode detach before (tty.attributes 0 u)
        → Executes detach chdir chroot execvp cmd s before (inr (some (going (r, u))))
    reaped_child :
        (pid mfd : ℕ) (name : Option Text) (o r : io.State) (u : tty.State)
        → ending.pty_fork s ≡ (returns (parent pid mfd name), o)
        → Relayed io waiting traffic tries mfd (begin detach o) (some (ended r))
        → (ending.wait r).0 ≡ pid
        → tty.attributes 0 u ≡ before
        → Executes detach chdir chroot execvp cmd s before
            (inr (some (ended ((ending.wait r).1, u))))
    undumped :
        (pid mfd : ℕ) (name : Option Text) (o r : io.State) (u : tty.State)
        → ending.pty_fork s ≡ (returns (parent pid mfd name), o)
        → detach ≡ true
        → ending.dump_std_out o ≡ (false, r)
        → tty.attributes 0 u ≡ before
        → Executes detach chdir chroot execvp cmd s before (inr (some (exited (r, u))))
    unwritten :
        (pid mfd : ℕ) (name : Option Text) (o r : io.State) (u : tty.State)
        → ending.pty_fork s ≡ (returns (parent pid mfd name), o)
        → Relayed io waiting traffic tries mfd (begin detach o) (some (exited r))
        → Mode detach before (tty.attributes 0 u)
        → Executes detach chdir chroot execvp cmd s before (inr (some (exited (r, u))))
    aborted :
        (pid mfd : ℕ) (name : Option Text) (o r : io.State) (u : tty.State)
        → ending.pty_fork s ≡ (returns (parent pid mfd name), o)
        → Relayed io waiting traffic tries mfd (begin detach o) (some (ended r))
        → ((ending.wait r).0 == pid) ≡ false
        → Mode detach before (tty.attributes 0 u)
        → Executes detach chdir chroot execvp cmd s before
            (inr (some (exited ((ending.wait r).1, u))))

  module _ (chdir chroot execvp : Bool) (cmd : List Text) (s : io.State) (before : Termios) where
    restored :
        (detach : Bool) (u : tty.State)
        → Mode detach before (tty.attributes 0 u)
        → tty.attributes 0 (if detach then u else tty_reset tty before u) ≡ before
    unfolding tty_reset
    restored true u m = m
    restored false u m = written tty obeys before u

    module _ (pid mfd : ℕ) (name : Option Text) (o : io.State)
        (f : ending.pty_fork s ≡ (returns (parent pid mfd name), o)) where
      reaped-Executes :
          (detach : Bool) (r : io.State) (u : tty.State)
          → Relayed io waiting traffic tries mfd (begin detach o) (some (ended r))
          → Mode detach before (tty.attributes 0 u)
          → Executes detach chdir chroot execvp cmd s before
              (inr (some (reaped io waiting tries tty ending detach pid before u (ending.wait r))))
      reaped-Executes detach r u h m = elim (Bool-cases ((ending.wait r).0 == pid)) [
        | inl e ↦ rw e (
            reaped_child pid mfd name o r _ f h ((==_iff (ending.wait r).0 pid).0 e)
              (restored detach u m))
        | inr e ↦ rw e (aborted pid mfd name o r u f h e m)
      ]

      after_relay-Executes :
          (detach : Bool) (r : Turn io waiting tries) (u : tty.State)
          → Relayed io waiting traffic tries mfd (begin detach o) r
          → Mode detach before (tty.attributes 0 u)
          → Executes detach chdir chroot execvp cmd s before
              (inr (after_relay io waiting tries tty ending detach pid before u r))
      after_relay-Executes detach none u h m = absurd h
      after_relay-Executes detach (some (going r)) u h m = relaying pid mfd name o r u f h m
      after_relay-Executes detach (some (ended r)) u h m = reaped-Executes detach r u h m
      after_relay-Executes detach (some (exited r)) u h m = unwritten pid mfd name o r u f h m
      after_relay-Executes detach (some undefined) u h m = absurd h

      parent-Executes :
          (detach : Bool) (rounds : ℕ) (t : tty.State)
          → mfd ≢ 0
          → mfd ≢ 1
          → io.patience (begin detach o) ≡ 0
          → buf_size < tries
          → tty.attributes 0 t ≡ before
          → Executes detach chdir chroot execvp cmd s before
              (inr (pty_exec_parent io waiting tries tty ending detach pid mfd before rounds o t))
      unfolding pty_exec_parent
      parent-Executes true rounds t n0 n1 z l e = go (ending.dump_std_out o) refl
        where
          go :
              (r : Bool × io.State)
              → ending.dump_std_out o ≡ r
              → Executes true chdir chroot execvp cmd s before
                  (inr (dumped io waiting tries tty ending pid mfd before rounds r t))
          go (false, u) d = undumped pid mfd name o u t f refl d e
          go (true, u) d =
              after_relay-Executes true _ t
                (subst
                  (λ x.
                    Relayed io waiting traffic tries mfd (begin true o)
                      (exec_rounds io waiting tries true mfd rounds x.1))
                  d (exec_rounds-Relayed io waiting traffic tries true mfd n0 n1 rounds _ z l))
                e
      parent-Executes false rounds t n0 n1 z l e =
          after_relay-Executes false _ _
            (exec_rounds-Relayed io waiting traffic tries false mfd n0 n1 rounds o z l)
            (subst (λ x. Mode false x (tty.attributes 0 (tty_set_raw tty 0 t).1)) e
              (tty_set_raw-Mode tty t))

    forked-Executes :
        (detach : Bool) (rounds : ℕ) (t : tty.State) (r : Result Forked × io.State)
        → ending.pty_fork s ≡ r
        → ((pid mfd : ℕ) (name : Option Text) (o : io.State)
            → r ≡ (returns (parent pid mfd name), o)
            → (mfd ≢ 0) × (mfd ≢ 1) × (io.patience (begin detach o) ≡ 0))
        → buf_size < tries
        → tty.attributes 0 t ≡ before
        → Executes detach chdir chroot execvp cmd s before
            (forked io waiting tries tty ending detach chdir chroot execvp cmd before rounds r t)
    forked-Executes detach rounds t (returns child, o) f h l e = elim (Bool-cases execvp) [
      | inl x ↦ rw x (in_command o f refl)
      | inr x ↦ rw x (without_master (inr (o, f, refl)))
    ]
    forked-Executes detach rounds t (returns (parent pid mfd name), o) f h l e =
        let (n0, n1, z) = h pid mfd name o refl in
        parent-Executes pid mfd name o f detach rounds t n0 n1 z l e
    forked-Executes detach rounds t (fails, o) f h l e = without_master (inl (o, f))
    forked-Executes detach rounds t (exits n, o) f h l e = lost_in_fork n o f

  kept : (t : tty.State) → tty.attributes 0 (tty.tcgetattr 0 t).1 ≡ tty.attributes 0 t
  kept t = go (tty.tcgetattr 0 t) refl
    where
      go :
          (r : Option Termios × tty.State)
          → tty.tcgetattr 0 t ≡ r
          → tty.attributes 0 r.1 ≡ tty.attributes 0 t
      go (some a, u) e = (tty.getattr_lem 0 t u a e).1
      go (none, u) e = tty.getattr_refused 0 t u e

  -- Where the terminal obeys and no signal interrupts a call: pty_exec's child becomes the command.
  -- In the parent, whose master is neither 0 nor 1, every byte that was read is relayed, in order, in both
  -- directions, for any number of rounds, with the terminal in raw mode unless it is detached or
  -- ttySetRaw fails, but for what a write has left of the last input when the loop is over. It
  -- returns after a wait for the child, with the terminal's attributes again. err_exit ends it where
  -- dump_std_out fails, before the relay, or where a write to the terminal has left the end of the
  -- last output, and the assertion where another process was reaped; then the terminal's attributes
  -- are not set again. Where ptyFork or the child's execvp fails, it
  -- goes on with a master that was never set.
  pub pty_exec-Executes :
      (detach chdir chroot execvp : Bool) (cmd : List Text) (old : Termios) (rounds : ℕ)
      (s : io.State) (t : tty.State)
      → ((pid mfd : ℕ) (name : Option Text) (o : io.State)
          → ending.pty_fork s ≡ (returns (parent pid mfd name), o)
          → (mfd ≢ 0) × (mfd ≢ 1) × (io.patience (begin detach o) ≡ 0))
      → buf_size < tries
      → Executes detach chdir chroot execvp cmd s
          (tty.attributes 0 t)
          (pty_exec io waiting tries tty ending detach chdir chroot execvp cmd old rounds s t)
  unfolding pty_exec
  pty_exec-Executes detach chdir chroot execvp cmd old rounds s t h l =
      go (tty.tcgetattr 0 t) (obeys.reads t) (kept t)
    where
      with_orig :
          (orig : Termios) (u : tty.State)
          → orig ≡ tty.attributes 0 t
          → tty.attributes 0 u ≡ tty.attributes 0 t
          → Executes detach chdir chroot execvp cmd s (tty.attributes 0 t) (
              forked io waiting tries tty ending detach chdir chroot execvp cmd orig rounds
                (ending.pty_fork s)
                u)
      with_orig orig u d e =
          subst
            (λ a. Executes detach chdir chroot execvp cmd s (tty.attributes 0 t) (
              forked io waiting tries tty ending detach chdir chroot execvp cmd a rounds
                (ending.pty_fork s) u))
            (sym d)
            (forked-Executes chdir chroot execvp cmd s (tty.attributes 0 t) detach rounds u
              (ending.pty_fork s) refl h l e)

      go :
          (r : Option Termios × tty.State)
          → r.0 ≡ some (tty.attributes 0 t)
          → tty.attributes 0 r.1 ≡ tty.attributes 0 t
          → Executes detach chdir chroot execvp cmd s
              (tty.attributes 0 t)
              (in_tty io waiting tries tty ending detach chdir chroot execvp cmd old rounds s r)
      go (got, u) d e =
          with_orig (orig_after io waiting tries tty old got) u
            (ap (orig_after io waiting tries tty old) d) e
