-- ===== src/Tests/Terminals.antt =====
-- Pseudoterminals on concrete tables of descriptors.
use hoststack.Prelude.{[], ◌∷◌, ℤ, pos, ℕ, zero, suc, ◌≡◌, refl, Option, none, some, false, true}
use hoststack.Prelude.Text.{Text, codes}
use hoststack.Tty.{tty_set_raw, tty_set_cbreak, echo, opost}
use hoststack.Service.Namespaces.{exec_container}
use hoststack.Service.Namespaces.Entered.{Enters, entered_files, exec_container-Enters}
use hoststack.Tty.Console.{console, cooked}
use hoststack.Returns.{returns, fails}
use hoststack.Pty.{parent, child, pty_master_open, pty_fork, pty_clone}
use hoststack.Pty.Desk.{
  desk_namespaces, entered_of, Desk, desk, table_of, errno_of, slave_name, desk_terminals,
}
use hoststack.Pty.Opens.{OpensMaster, pty_master_open-OpensMaster}
use hoststack.Pty.Forks.{Forks, pty_fork-Forks}
use hoststack.Pty.Clones.{Clones, pty_clone-Clones}

abbrev three_open : ℕ → Option Text
three_open zero = some (codes "/dev/tty1")
three_open (suc zero) = some (codes "/dev/tty1")
three_open (suc (suc zero)) = some (codes "/dev/tty1")
three_open (suc (suc (suc fd))) = none

-- fork will return the number.
abbrev before_fork : ℕ → Desk
before_fork r = desk three_open 3 0 r []

pty_fork_parent :
    (pty_fork desk_terminals (some 100) none none (before_fork 7)).0
    ≡ returns (parent 7 3 (some slave_name))
unfolding pty_fork
pty_fork_parent = refl

pty_fork_child : (pty_fork desk_terminals (some 100) none none (before_fork 0)).0 ≡ returns child
unfolding pty_fork
pty_fork_child = refl

child_input :
    table_of (pty_fork desk_terminals (some 100) none none (before_fork 0)).1 0 ≡ some slave_name
unfolding pty_fork
child_input = refl

-- A name of ten bytes does not fit a buffer of ten.
pty_fork_small : (pty_fork desk_terminals (some 10) none none (before_fork 7)).0 ≡ fails
unfolding pty_fork
pty_fork_small = refl

pty_fork_small_errno : errno_of (pty_fork desk_terminals (some 10) none none (before_fork 7)).1 ≡ 75
unfolding pty_fork
pty_fork_small_errno = refl

pty_master_open-OpensMaster_example :
    OpensMaster desk_terminals 10
      (before_fork 7)
      (pty_master_open desk_terminals 10 (before_fork 7))
pty_master_open-OpensMaster_example = pty_master_open-OpensMaster desk_terminals 10 (before_fork 7)

pty_fork-Forks_example :
    Forks desk_terminals
      (some 100)
      (before_fork 0)
      (pty_fork desk_terminals (some 100) none none (before_fork 0))
pty_fork-Forks_example = pty_fork-Forks desk_terminals (some 100) none none (before_fork 0)

pty_clone-Clones_example :
    Clones desk_terminals (before_fork 7) (pty_clone desk_terminals (before_fork 7))
pty_clone-Clones_example = pty_clone-Clones desk_terminals (before_fork 7)

tty_set_raw_silent : (tty_set_raw console 0 cooked).1.c_lflag echo ≡ false
unfolding tty_set_raw
tty_set_raw_silent = refl

tty_set_raw_kept : (tty_set_raw console 0 cooked).1.c_lflag 4 ≡ true
unfolding tty_set_raw
tty_set_raw_kept = refl

-- cbreak does not undo raw mode.
tty_set_cbreak_after_raw :
    (tty_set_cbreak console 0 (tty_set_raw console 0 cooked).1).1.c_oflag opost ≡ false
unfolding tty_set_raw tty_set_cbreak
tty_set_cbreak_after_raw = refl

tty_set_raw_no_terminal : (tty_set_raw console 9 cooked).0 ≡ fails
unfolding tty_set_raw
tty_set_raw_no_terminal = refl

abbrev decimal : ℤ → Text
decimal n = codes "42"

enter_both :
    entered_of
      (exec_container desk_terminals desk_namespaces decimal true (pos 42) (before_fork 0)).1
    ≡ some (codes "/proc/42/ns/pid") ∷ some (codes "/proc/42/ns/mnt") ∷ []
unfolding exec_container
enter_both = refl

exec_container-Enters_example :
    Enters desk_terminals desk_namespaces decimal
      (entered_files desk_terminals desk_namespaces decimal (pos 42))
      (before_fork 0)
      (exec_container desk_terminals desk_namespaces decimal true (pos 42) (before_fork 0))
exec_container-Enters_example =
    exec_container-Enters desk_terminals desk_namespaces decimal true (pos 42) (before_fork 0)
