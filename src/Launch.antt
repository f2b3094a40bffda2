-- ===== src/Launch.antt =====
-- How a container is launched: ContainerService::start in util/container_service.cpp forks a server,
-- which runs pty_run_container of pty/pty_exec_util.cpp, and waits for it at a semaphore of
-- common/sem_util.cpp. Their steps interleave.
pub mod Order
pub mod Run
use hoststack.Prelude.{ℕ, zero, suc, ◌+◌, ◌≡◌, Option, none, some, if◌then◌else◌, ◌==◌}

-- SemUtil on a semaphore's value; `none` is a call that blocks. A call that a signal interrupts is
-- made again.
unfoldable pub sem_get : ℕ → ℕ
sem_get value = 0 + value

unfoldable pub sem_set : ℕ → ℕ → ℕ
sem_set val n = val

unfoldable pub sem_zero : ℕ → Option ℕ
sem_zero zero = some zero
sem_zero (suc n) = none

unfoldable pub sem_inc : ℕ → ℕ
sem_inc n = suc n

unfoldable pub sem_dec : ℕ → Option ℕ
sem_dec zero = none
sem_dec (suc n) = some n

-- How far the server has come: the container's process was cloned, its record is saved, the socket
-- listens, SemUtil::set has returned, whatever its result, the container has ended. `failed` is a call of err_exit.
pub data Server : Type 0 where
  forked : Server
  cloned : Server
  saved : Server
  listening : Server
  serving : Server
  ended : Server
  failed : Server

-- The program that was called: it waits at the semaphore, or goes on to pty_client, after SemUtil::zero
-- has succeeded, or after it has failed, since its result is not looked at.
pub data Caller : Type 0 where
  waiting : Caller
  released : Caller
  unsynchronised : Caller

pub record Launch : Type 0 where
  pub sem : ℕ
  pub server : Server
  pub caller : Caller

abbrev pub at : ℕ → Server → Caller → Launch
at n s c = record { sem = n; server = s; caller = c }

pub data Step : Launch → Launch → Type 0 where
  clone : (n : ℕ) (c : Caller) → Step (at n forked c) (at n cloned c)
  not_cloned : (n : ℕ) (c : Caller) → Step (at n forked c) (at n failed c)
  save : (n : ℕ) (c : Caller) → Step (at n cloned c) (at n saved c)
  listen : (n : ℕ) (c : Caller) → Step (at n saved c) (at n listening c)
  not_listening : (n : ℕ) (c : Caller) → Step (at n saved c) (at n failed c)
  signal : (n : ℕ) (c : Caller) → Step (at n listening c) (at (sem_set 0 n) serving c)
  not_set : (n : ℕ) (c : Caller) → Step (at n listening c) (at n serving c)
  finish : (n : ℕ) (c : Caller) → Step (at n serving c) (at n ended c)
  release : (n m : ℕ) (s : Server) → sem_zero n ≡ some m → Step (at n s waiting) (at m s released)
  not_waited : (n : ℕ) (s : Server) → Step (at n s waiting) (at n s unsynchronised)

pub data Reach (s : Launch) : Launch → Type 0 where
  here : Reach s s
  next : {t u : Launch} → Reach s t → Step t u → Reach s u

-- After the fork.
abbrev pub launched : Launch
launched = at (sem_get 1) forked waiting
