-- ===== src/Pty.antt =====
-- pty/pty_master_open.cpp and pty/pty_fork.cpp: how a process is started at a pseudoterminal, over the
-- system calls on descriptors as an interface. A run follows one process: fork returns 0 in the
-- child.
pub mod Table
pub mod Opens
pub mod Connects
pub mod Forks
pub mod Clones
pub mod Desk
use hoststack.Prelude.{
  ℕ, List, ◌≡◌, Bool, true, false, Option, none, some, if◌then◌else◌, ltb, ◌==◌, length, assign,
}
use hoststack.Prelude.Text.{Text}
use hoststack.Returns.{Result, returns, fails, exits, M, ◌>>=◌, ◌>>◌, return, try, check}

pub record Terminals : Type 1 where
  pub State : Type 0
  pub File : Type 0
  pub Termios : Type 0
  pub Winsize : Type 0
  -- `none` is -1 or a null pointer, and the Booleans tell whether a call succeeded.
  pub posix_openpt : State → Option ℕ × State
  pub grantpt : ℕ → State → Bool × State
  pub unlockpt : ℕ → State → Bool × State
  pub ptsname : ℕ → State → Option Text × State
  pub fork : State → Option ℕ × State
  pub mmap : State → Bool × State
  pub clone : State → Option ℕ × State
  pub setsid : State → Bool × State
  pub open_file : Text → State → Option ℕ × State
  pub set_controlling : ℕ → State → Bool × State
  pub tcsetattr : ℕ → Termios → State → Bool × State
  pub set_winsize : ℕ → Winsize → State → Bool × State
  pub dup2 : ℕ → ℕ → State → Bool × State
  pub close : ℕ → State → State
  pub errno : State → ℕ
  pub set_errno : ℕ → State → State
  -- What each descriptor of the process refers to, and the file of a path.
  pub table : State → ℕ → Option File
  pub file_at : Text → File
  pub openpt_lem :
      (fd : ℕ) (s t : State)
      → posix_openpt s ≡ (some fd, t)
      → (table s fd ≡ none) × ((f : File) × (table t ≡ assign (table s) fd (some f)))
  pub openpt_refused : (s t : State) → posix_openpt s ≡ (none, t) → table t ≡ table s
  pub table-grantpt : (fd : ℕ) (s : State) → table (grantpt fd s).1 ≡ table s
  pub table-unlockpt : (fd : ℕ) (s : State) → table (unlockpt fd s).1 ≡ table s
  pub table-ptsname : (fd : ℕ) (s : State) → table (ptsname fd s).1 ≡ table s
  pub table-fork : (s : State) → table (fork s).1 ≡ table s
  pub table-mmap : (s : State) → table (mmap s).1 ≡ table s
  pub table-clone : (s : State) → table (clone s).1 ≡ table s
  pub table-setsid : (s : State) → table (setsid s).1 ≡ table s
  pub open_lem :
      (name : Text) (fd : ℕ) (s t : State)
      → open_file name s ≡ (some fd, t)
      → (table s fd ≡ none) × (table t ≡ assign (table s) fd (some (file_at name)))
  pub table-set_controlling : (fd : ℕ) (s : State) → table (set_controlling fd s).1 ≡ table s
  pub table-tcsetattr : (fd : ℕ) (a : Termios) (s : State) → table (tcsetattr fd a s).1 ≡ table s
  pub table-set_winsize :
      (fd : ℕ) (w : Winsize) (s : State) → table (set_winsize fd w s).1 ≡ table s
  pub dup2_lem :
      (old new : ℕ) (s t : State)
      → dup2 old new s ≡ (true, t)
      → table t ≡ assign (table s) new (table s old)
  pub table-close : (fd : ℕ) (s : State) → table (close fd s) ≡ assign (table s) fd none
  pub table-set_errno : (n : ℕ) (s : State) → table (set_errno n s) ≡ table s
  pub errno-set_errno : (n : ℕ) (s : State) → errno (set_errno n s) ≡ n

-- MAX_SNAME
abbrev pub max_sname : ℕ
max_sname = 1000

-- EOVERFLOW
abbrev pub eoverflow : ℕ
eoverflow = 75

-- `parent` is the return of the child's process, with the master and the name for the caller.
pub data Forked : Type 0 where
  parent : (pid mfd : ℕ) (name : Option Text) → Forked
  child : Forked

-- How the child runs the container's command: it replaced the program, inside the container's root or
-- not, or the child has returned.
pub data Child : Type 0 where
  replaced : (rooted : Bool) → List Text → Child
  returned : ℕ → Child

module _ (term : Terminals) where
  -- close may change errno, which keeps its value.
  unfoldable pub close_and_fail : {A : Type 0} → ℕ → M term.State A
  close_and_fail fd s = (fails, term.set_errno (term.errno s) (term.close fd s))

  unfoldable pub too_small : {A : Type 0} → ℕ → M term.State A
  too_small fd s = (fails, term.set_errno eoverflow (term.close fd s))

  -- The descriptor of the master, and the name of the slave, in a buffer of sn_len bytes.
  unfoldable pub pty_master_open : ℕ → M term.State (ℕ × Text)
  unfolding close_and_fail too_small
  pty_master_open sn_len = do
    master_fd ← try term.posix_openpt (λ s. (fails, s))
    check (term.grantpt master_fd) (close_and_fail master_fd)
    check (term.unlockpt master_fd) (close_and_fail master_fd)
    p ← try (term.ptsname master_fd) (close_and_fail master_fd)
    if ltb (length p) sn_len then return (master_fd, p) else too_small master_fd

  -- What a failure in the child does: err_exit, or a return of -1.
  abbrev pub Handler : Type 1
  Handler = (A : Type 0) → M term.State A

  unfoldable pub err_exit : Handler
  err_exit A s = (exits (term.errno s), s)

  abbrev pub set_attributes : Handler → ℕ → Option term.Termios → M term.State (Unit {0})
  set_attributes handle fd none = return tt
  set_attributes handle fd (some a) = check (term.tcsetattr fd a) (handle Unit)

  abbrev pub set_size : Handler → ℕ → Option term.Winsize → M term.State (Unit {0})
  set_size handle fd none = return tt
  set_size handle fd (some w) = check (term.set_winsize fd w) (handle Unit)

  abbrev pub close_spare : ℕ → M term.State (Unit {0})
  close_spare fd s = (returns tt, if ltb 2 fd then term.close fd s else s)

  -- The child makes the slave its terminal and its standard input, output and error.
  unfoldable pub connect_slave :
      Handler → Text → Option term.Termios → Option term.Winsize → M term.State (Unit {0})
  connect_slave handle slname termios ws = do
    slave_fd ← try (term.open_file slname) (handle ℕ)
    check (term.set_controlling slave_fd) (handle Unit)
    set_attributes handle slave_fd termios
    set_size handle slave_fd ws
    check (term.dup2 slave_fd 0) (handle Unit)
    check (term.dup2 slave_fd 1) (handle Unit)
    check (term.dup2 slave_fd 2) (handle Unit)
    close_spare slave_fd

  unfoldable pub leave_master : ℕ → M term.State (Unit {0})
  unfolding err_exit
  leave_master mfd = do check term.setsid (err_exit Unit); λ s. (returns tt, term.close mfd s)

  -- A caller that wants the name gives a buffer, whose size is the argument.
  abbrev pub copy_name : Option ℕ → ℕ → Text → M term.State (Option Text)
  copy_name none mfd slname = return none
  copy_name (some sn_len) mfd slname =
      if ltb (length slname) sn_len then return (some slname) else too_small mfd

  unfoldable pub pty_fork :
      Option ℕ → Option term.Termios → Option term.Winsize → M term.State Forked
  unfolding pty_master_open connect_slave leave_master
  pty_fork sn_len termios ws = do
    m ← pty_master_open max_sname
    name ← copy_name sn_len m.0 m.1
    child_pid ← try term.fork (close_and_fail m.0)
    if child_pid == 0
        then (do leave_master m.0; connect_slave err_exit m.1 termios ws; return child)
        else return (parent child_pid m.0 name)

  -- PtyRunArg
  pub record PtyRunArg : Type 0 where
    pub mfd : ℕ
    pub slname : Text
    pub slave_termios : Option term.Termios
    pub slave_ws : Option term.Winsize

  -- The child of pty_clone; `fn` is the caller's function.
  unfoldable pub pty_clone_run : PtyRunArg → M term.State ℕ → M term.State ℕ
  unfolding connect_slave leave_master
  pty_clone_run arg fn = do
    leave_master arg.mfd
    connect_slave (λ A s. (fails, s)) arg.slname arg.slave_termios arg.slave_ws
    fn

  -- The process of the child, and the master.
  unfoldable pub pty_clone : M term.State (ℕ × ℕ)
  unfolding pty_master_open
  pty_clone = do
    m ← pty_master_open max_sname
    check term.mmap (λ s. (exits 0, s))
    child_pid ← try term.clone (close_and_fail m.0)
    return (child_pid, m.0)
