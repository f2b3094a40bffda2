-- ===== src/Relay.antt =====
-- pty/pty_exec_util.cpp: the relays pty_client and pty_exec between the terminal and a descriptor, and
-- dumpStdOut. A run is followed for a number of rounds of the loop.
pub mod Copies
pub mod Client
pub mod Turns
pub mod Exec
pub mod Wires
pub mod Session
use hoststack.Prelude.{
  ℕ, zero, suc, ◌≡◌, ◌≢◌, ◌≤◌, Bool, true, false, not, Option, none, some, [], ◌∷◌, ◌++◌,
  if◌then◌else◌, ◌==◌, length,
}
use hoststack.Prelude.Text.{Text}
use hoststack.Io.{Io}
use hoststack.Rio.{rio_writen}
use hoststack.Pool.{FdSet, fd_set}
use hoststack.Pool.Serve.{Waiting}
use hoststack.Tty.{Termios, Tty, tty_reset}

-- BUF_SIZE
abbrev pub buf_size : ℕ
buf_size = 4096

-- What the calls do to the bytes that each descriptor has delivered and taken so far.
pub record Traffic (io : Io) (waiting : Waiting io) : Type 0 where
  pub got : ℕ → io.State → Text
  pub got-read :
      (fd n : ℕ) (s t : io.State) (d : Text)
      → io.read fd n s ≡ (some d, t)
      → got fd t ≡ got fd s ++ d
  pub got_refused : (fd n : ℕ) (s t : io.State) → io.read fd n s ≡ (none, t) → got fd t ≡ got fd s
  pub got_other : (fd g n : ℕ) (s : io.State) → g ≢ fd → got g (io.read fd n s).1 ≡ got g s
  pub got-write : (fd g : ℕ) (d : Text) (s : io.State) → got g (io.write fd d s).1 ≡ got g s
  pub got-select : (n g : ℕ) (r : FdSet) (s : io.State) → got g (waiting.select n r s).1 ≡ got g s
  pub written-read : (fd g n : ℕ) (s : io.State) → io.written g (io.read fd n s).1 ≡ io.written g s
  pub written_other :
      (fd g : ℕ) (d : Text) (s : io.State)
      → g ≢ fd
      → io.written g (io.write fd d s).1 ≡ io.written g s
  pub written-select :
      (n g : ℕ) (r : FdSet) (s : io.State) → io.written g (waiting.select n r s).1 ≡ io.written g s

-- Where a loop stands: it goes on, it has been left, or err_exit has ended the program. `undefined` is
-- a write of (size_t) -1 bytes, or the use of a descriptor that was never set.
pub data Progress {ℓ} (State : Type ℓ) : Type ℓ where
  going : State → Progress State
  ended : State → Progress State
  exited : State → Progress State
  undefined : Progress State

module _ (io : Io) (waiting : Waiting io) (tries : ℕ) where
  -- `none` is the end of the fuel of rio_writen.
  abbrev pub Turn : Type 0
  Turn = Option (Progress io.State)

  abbrev pub and_then : Turn → (io.State → Turn) → Turn
  and_then none f = none
  and_then (some (going s)) f = f s
  and_then (some (ended s)) f = some (ended s)
  and_then (some (exited s)) f = some (exited s)
  and_then (some undefined) f = some undefined

  -- The result of rio_writen: all bytes, or -1, with what is done then.
  abbrev pub all_written : (io.State → Progress io.State) → Option (Bool × io.State) → Turn
  all_written stop none = none
  all_written stop (some (true, t)) = some (going t)
  all_written stop (some (false, t)) = some (stop t)

  -- read, and rio_writen of what was read; `stop` is what a failing write leads to.
  abbrev pub pass_on : (io.State → Progress io.State) → ℕ → Option Text × io.State → Turn
  pass_on stop dst (none, t) = some (ended t)
  pass_on stop dst (some [], t) = some (ended t)
  pass_on stop dst (some (c ∷ d), t) = all_written stop (rio_writen io tries dst (c ∷ d) t)

  -- A failing select leaves the set as it was.
  abbrev pub ready_after : FdSet → Option (ℕ × FdSet) × io.State → FdSet
  ready_after read_set (none, t) = read_set
  ready_after read_set (some (n, r), t) = r

  module _ (clientfd : ℕ) where
    -- FD_ZERO, and FD_SET of both descriptors
    abbrev pub client_set : FdSet
    client_set = fd_set clientfd (fd_set 0 (λ fd. false))

    unfoldable pub client_from_stdin : FdSet → io.State → Turn
    unfolding rio_writen
    client_from_stdin ready s =
        let passed = pass_on ended clientfd (io.read 0 buf_size s) in
        if ready 0 then passed else some (going s)

    unfoldable pub client_to_stdout : FdSet → io.State → Turn
    unfolding rio_writen
    client_to_stdout ready s =
        let passed = pass_on exited 1 (io.read clientfd buf_size s) in
        if ready clientfd then passed else some (going s)

    unfoldable pub client_round : io.State → Turn
    unfolding client_from_stdin client_to_stdout
    client_round s =
        let answer = waiting.select (suc clientfd) client_set s in
        let ready = ready_after client_set answer in
        and_then (client_from_stdin ready answer.1) (client_to_stdout ready)

    unfoldable pub client_rounds : ℕ → io.State → Turn
    unfolding client_round
    client_rounds zero s = some (going s)
    client_rounds (suc n) s = and_then (client_round s) (client_rounds n)

  module _ (detach : Bool) (master_fd : ℕ) where
    abbrev pub exec_set : FdSet
    exec_set =
        if detach then fd_set master_fd (λ fd. false) else fd_set master_fd (fd_set 0 (λ fd. false))

    -- At the end of the input nothing is written, and rio_writen returns 0.
    abbrev pub exec_input : Option Text × io.State → Turn
    exec_input (none, t) = if io.eintr t then some undefined else some (ended t)
    exec_input (some [], t) = some (ended t)
    exec_input (some (c ∷ d), t) = all_written ended (rio_writen io tries master_fd (c ∷ d) t)

    -- A single write, which has to take everything.
    abbrev pub wrote_all : ℕ → Option ℕ × io.State → Turn
    wrote_all n (none, t) = some (exited t)
    wrote_all n (some k, t) = if k == n then some (going t) else some (exited t)

    -- After the end of the output errno is what an earlier call has left.
    abbrev pub exec_output : Option Text × io.State → Turn
    exec_output (none, t) = if io.eintr t then some undefined else some (ended t)
    exec_output (some [], t) = if io.eintr t then wrote_all 0 (io.write 1 [] t) else some (ended t)
    exec_output (some (c ∷ d), t) = wrote_all (length (c ∷ d)) (io.write 1 (c ∷ d) t)

    unfoldable pub exec_from_stdin : FdSet → io.State → Turn
    unfolding rio_writen
    exec_from_stdin ready s =
        let passed = exec_input (io.read 0 buf_size s) in if ready 0 then passed else some (going s)

    unfoldable pub exec_to_stdout : FdSet → io.State → Turn
    exec_to_stdout ready s =
        let passed = exec_output (io.read master_fd buf_size s) in
        if ready master_fd then passed else some (going s)

    -- A select that a signal has interrupted starts the next round.
    abbrev pub exec_selected : Option (ℕ × FdSet) × io.State → (FdSet → io.State → Turn) → Turn
    exec_selected (none, t) serve =
        let served = serve exec_set t in if io.eintr t then some (going t) else served
    exec_selected (some (n, r), t) serve = serve r t

    unfoldable pub exec_round : io.State → Turn
    unfolding exec_from_stdin exec_to_stdout
    exec_round s =
        exec_selected (waiting.select (suc master_fd) exec_set s)
          (λ ready t. and_then (exec_from_stdin ready t) (exec_to_stdout ready))

    unfoldable pub exec_rounds : ℕ → io.State → Turn
    unfolding exec_round
    exec_rounds zero s = some (going s)
    exec_rounds (suc n) s = and_then (exec_round s) (exec_rounds n)
