-- ===== src/Pool/Valid.antt =====
-- pty/pty_exec_util.cpp: what holds of the pool between its operations.
use hoststack.Prelude.{ℕ, ◌≤◌, ◌≡◌, ◌≢◌, ◌⊎◌, true, none, some, List, Option, length}
use hoststack.Pool.{Pool, FdSet, slot, fd_setsize}

-- The read set holds the listening descriptor, the master and the clients, and no other. Clients
-- have one slot each, none at or beyond the high-water mark, and no descriptor is above maxfd.
pub record Valid (listenfd masterfd maxfd clients : ℕ) (fds : List (Option ℕ)) (read_set : FdSet)
    : Type 0 where
  pub size : length fds ≡ fd_setsize
  pub listens : read_set listenfd ≡ true
  pub serves : read_set masterfd ≡ true
  pub reads :
      (i fd : ℕ) → slot fds i ≡ some fd → (read_set fd ≡ true) × (fd ≢ listenfd) × (fd ≢ masterfd)
  pub members :
      (fd : ℕ)
      → read_set fd ≡ true
      → (fd ≡ listenfd) ⊎ ((fd ≡ masterfd) ⊎ ((i : ℕ) × (slot fds i ≡ some fd)))
  pub distinct : (i j fd : ℕ) → slot fds i ≡ some fd → slot fds j ≡ some fd → i ≡ j
  pub bounded : (fd : ℕ) → read_set fd ≡ true → fd ≤ maxfd
  pub beyond : (i : ℕ) → clients ≤ i → slot fds i ≡ none

abbrev pub IsValid : ℕ → Pool → Type 0
IsValid listenfd p = Valid listenfd p.masterfd p.maxfd p.clients p.clientfd p.read_set
