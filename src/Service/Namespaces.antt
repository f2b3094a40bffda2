-- ===== src/Service/Namespaces.antt =====
-- util/container_service.cpp: ContainerService::exec, which enters the namespaces of a container; and
-- dumpStdOut of pty/pty_exec_util.cpp, both on the descriptors of a process.
pub mod Entered
use hoststack.Prelude.{
  ℕ, ◌≡◌, Bool, true, false, Option, none, some, List, [], ◌∷◌, ◌++◌, if◌then◌else◌, ℤ,
}
use hoststack.Prelude.Text.{Text, codes}
use hoststack.Returns.{Result, returns, fails, exits, M, ◌>>=◌, ◌>>◌, return, try, check}
use hoststack.Pty.{Terminals, err_exit}

pub record Namespaces (term : Terminals) : Type 0 where
  pub daemon : term.State → Bool × term.State
  pub setns : ℕ → term.State → Bool × term.State
  -- The files that setns was called with, where it succeeded.
  pub entered : term.State → List (Option term.File)
  pub table-daemon : (s : term.State) → term.table (daemon s).1 ≡ term.table s
  pub entered-daemon : (s : term.State) → entered (daemon s).1 ≡ entered s
  pub table-setns : (fd : ℕ) (s : term.State) → term.table (setns fd s).1 ≡ term.table s
  pub entered-setns :
      (fd : ℕ) (s t : term.State)
      → setns fd s ≡ (true, t)
      → entered t ≡ entered s ++ term.table s fd ∷ []
  pub entered-open : (path : Text) (s : term.State) → entered (term.open_file path s).1 ≡ entered s
  pub entered-close : (fd : ℕ) (s : term.State) → entered (term.close fd s) ≡ entered s

-- namespaces[]
abbrev pub namespaces : List Text
namespaces = codes "pid" ∷ codes "mnt" ∷ []

module _ (term : Terminals) (ns : Namespaces term) (decimal : ℤ → Text) where
  -- "/proc/%d/ns/%s"
  abbrev pub nspath : ℤ → Text → Text
  nspath pid name = codes "/proc/" ++ (decimal pid ++ (codes "/ns/" ++ name))

  abbrev pub close_file : ℕ → M term.State (Unit {0})
  close_file fd s = (returns tt, term.close fd s)

  unfoldable pub enter : ℤ → List Text → M term.State (Unit {0})
  unfolding err_exit
  enter pid [] = return tt
  enter pid (name ∷ names) = do
    fd ← try (term.open_file (nspath pid name)) (err_exit term ℕ)
    check (ns.setns fd) (err_exit term Unit)
    close_file fd
    enter pid names

  abbrev pub daemon_if : Bool → M term.State (Unit {0})
  daemon_if true = check ns.daemon (err_exit term Unit)
  daemon_if false = return tt

  -- ContainerService::exec up to its call of pty_exec; of a daemon, the process that goes on.
  unfoldable pub exec_container : Bool → ℤ → M term.State (Unit {0})
  unfolding enter
  exec_container detach pid = do daemon_if detach; enter pid namespaces

  -- dumpStdOut
  unfoldable pub dump_std_out : M term.State (Unit {0})
  unfolding err_exit
  dump_std_out = do
    out_fd ← try (term.open_file (codes "/dev/null")) (err_exit term ℕ)
    check (term.dup2 out_fd 1) (err_exit term Unit)
    close_file out_fd
