-- ===== src/Relay/Session.antt =====
-- pty/pty_exec_util.cpp: pty_client and pty_exec, with the mode of the terminal around the relay. The
-- terminal's attributes and the bytes of the descriptors are apart.
pub mod Modes
pub mod Executes
use hoststack.Prelude.{
  ◌==◌, ◌&&◌, List, ◌⊎◌, inl, inr, ℕ, ◌≡◌, Bool, true, false, Option, none, some, ◌++◌,
  if◌then◌else◌, take,
}
use hoststack.Prelude.Text.{Text, codes}
use hoststack.Returns.{Result, returns, fails, exits}
use hoststack.Paths.{hoststack_repo}
use hoststack.Io.{Io}
use hoststack.Pty.{Forked, parent, child, Child, replaced, returned}
use hoststack.Pool.Serve.{Waiting}
use hoststack.Tty.{Termios, Tty, tty_reset, tty_set_raw}
use hoststack.Relay.{Progress, going, ended, exited, undefined, Turn, client_rounds, exec_rounds}

-- socket and connect; `none` and `false` are -1.
pub record Dialing (io : Io) : Type 0 where
  pub socket : io.State → Option ℕ × io.State
  pub connect : ℕ → Text → io.State → Bool × io.State

-- What the code around the loop of pty_exec does to the streams: wait, with the process that has ended,
-- dump_std_out, whose `false` is its err_exit, and pty_fork.
pub record Ending (io : Io) : Type 0 where
  pub wait : io.State → ℕ × io.State
  pub dump_std_out : io.State → Bool × io.State
  pub pty_fork : io.State → Result Forked × io.State

-- sun_path has 108 bytes, of which snprintf is given 107.
unfoldable pub socket_path : Text → Text
socket_path id =
    take 106 (hoststack_repo ++ (codes "/containers/" ++ (id ++ codes "/hoststack.socket")))

module _ (io : Io) (waiting : Waiting io) (tries : ℕ) (tty : Tty) where
  -- The loop still runs, the function has returned, or err_exit has ended the program; with the state
  -- of the terminal.
  abbrev pub Session : Type 0
  Session = Option (Progress (io.State × tty.State))

  -- What follows a loop that was left: the terminal is reset.
  abbrev pub after_loop : Termios → tty.State → Turn io waiting tries → Session
  after_loop orig t none = none
  after_loop orig t (some (going s)) = some (going (s, t))
  after_loop orig t (some (ended s)) = some (ended (s, tty_reset tty orig t))
  after_loop orig t (some (exited s)) = some (exited (s, t))
  after_loop orig t (some undefined) = some undefined

  -- What ttyOrig holds after tcgetattr; it is a global variable, which a failure leaves alone.
  abbrev pub orig_after : Termios → Option Termios → Termios
  orig_after old none = old
  orig_after old (some a) = a

  module _ (dialing : Dialing io) (cfmakeraw : Termios → Termios) (old : Termios) where
    abbrev pub in_raw : ℕ → ℕ → io.State → Option Termios × tty.State → Session
    in_raw rounds clientfd s (got, t) =
        let orig = orig_after old got in
        after_loop orig (tty.tcsetattr 0 (cfmakeraw orig) t).1
          (client_rounds io waiting tries clientfd rounds s)

    abbrev pub connected : ℕ → ℕ → Bool × io.State → tty.State → Session
    connected rounds clientfd (true, s) t = in_raw rounds clientfd s (tty.tcgetattr 0 t)
    connected rounds clientfd (false, s) t = some (exited (s, t))

    abbrev pub dialed : ℕ → Text → Option ℕ × io.State → tty.State → Session
    dialed rounds id (none, s) t = some (exited (s, t))
    dialed rounds id (some clientfd, s) t =
        connected rounds clientfd (dialing.connect clientfd (socket_path id) s) t

    unfoldable pub pty_client : ℕ → Text → io.State × tty.State → Session
    unfolding client_rounds tty_reset socket_path
    pty_client rounds id (s, t) = dialed rounds id (dialing.socket s) t

  module _ (ending : Ending io) where
    -- The loop was left: the child is waited for, and the terminal is reset, if it was changed. The
    -- assertion aborts, if another process has ended.
    abbrev pub reaped :
        Bool → ℕ → Termios → tty.State → ℕ × io.State → Progress (io.State × tty.State)
    reaped detach child_pid orig t (exit_child, s) =
        let u = if detach then t else tty_reset tty orig t in
        if exit_child == child_pid then ended (s, u) else exited (s, t)

    abbrev pub after_relay : Bool → ℕ → Termios → tty.State → Turn io waiting tries → Session
    after_relay detach child_pid orig t none = none
    after_relay detach child_pid orig t (some (going s)) = some (going (s, t))
    after_relay detach child_pid orig t (some (ended s)) =
        some (reaped detach child_pid orig t (ending.wait s))
    after_relay detach child_pid orig t (some (exited s)) = some (exited (s, t))
    after_relay detach child_pid orig t (some undefined) = some undefined

    abbrev pub dumped :
        (child_pid master_fd : ℕ) → Termios → ℕ → Bool × io.State → tty.State → Session
    dumped child_pid master_fd orig rounds (false, s) t = some (exited (s, t))
    dumped child_pid master_fd orig rounds (true, s) t =
        after_relay true child_pid orig t (exec_rounds io waiting tries true master_fd rounds s)

    -- pty_exec in the parent; `orig` is what ttyOrig holds. A failing ttySetRaw is passed over.
    unfoldable pub pty_exec_parent :
        Bool → (child_pid master_fd : ℕ) → Termios → ℕ → io.State → tty.State → Session
    unfolding exec_rounds tty_reset tty_set_raw
    pty_exec_parent true child_pid master_fd orig rounds s t =
        dumped child_pid master_fd orig rounds (ending.dump_std_out s) t
    pty_exec_parent false child_pid master_fd orig rounds s t =
        after_relay false child_pid orig (tty_set_raw tty 0 t).1
          (exec_rounds io waiting tries false master_fd rounds s)

    -- pty_exec in the child: a failing chdir or chroot is logged, and so is a failing execvp, after
    -- which the child goes on as the parent, with a master that was never set.
    abbrev pub exec_or_log : (chdir chroot execvp : Bool) → List Text → Child ⊎ Session
    exec_or_log chdir chroot true cmd = inl (replaced (chdir && chroot) cmd)
    exec_or_log chdir chroot false cmd = inr (some undefined)

    -- A failing ptyFork is logged, and its master used all the same.
    abbrev pub forked :
        Bool
        → (chdir chroot execvp : Bool) → List Text
        → Termios
        → ℕ
        → Result Forked × io.State
        → tty.State
        → Child ⊎ Session
    forked detach chdir chroot execvp cmd orig rounds (returns child, s) t =
        exec_or_log chdir chroot execvp cmd
    forked detach chdir chroot execvp cmd orig rounds (returns (parent pid mfd name), s) t =
        inr (pty_exec_parent detach pid mfd orig rounds s t)
    forked detach chdir chroot execvp cmd orig rounds (fails, s) t = inr (some undefined)
    forked detach chdir chroot execvp cmd orig rounds (exits n, s) t = inl (returned n)

    abbrev pub in_tty :
        Bool
        → (chdir chroot execvp : Bool) → List Text
        → Termios
        → ℕ
        → io.State
        → Option Termios × tty.State
        → Child ⊎ Session
    in_tty detach chdir chroot execvp cmd old rounds s (got, t) =
        forked detach chdir chroot execvp cmd (orig_after old got) rounds (ending.pty_fork s) t

    unfoldable pub pty_exec :
        Bool
        → (chdir chroot execvp : Bool) → List Text
        → Termios
        → ℕ
        → io.State
        → tty.State
        → Child ⊎ Session
    unfolding pty_exec_parent
    pty_exec detach chdir chroot execvp cmd old rounds s t =
        in_tty detach chdir chroot execvp cmd old rounds s (tty.tcgetattr 0 t)
