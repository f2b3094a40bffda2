-- ===== src/Semaphores/Calls.antt =====
-- common/sem_util.cpp: the operations of SemUtil on a semaphore that is there, over the system calls as
-- an interface.
use hoststack.Prelude.{
  ℕ, zero, suc, ◌<◌, ◌≡◌, Bool, true, false, Option, none, some, ℤ, pos, negsuc, if◌then◌else◌,
}

-- struct sembuf, for the semaphore 0 of the set
pub record Sembuf : Type 0 where
  pub sem_op : ℤ
  pub ipc_nowait : Bool
  pub sem_undo : Bool

pub record Semctl : Type 1 where
  pub State : Type 0
  -- The Booleans tell whether a call returned 0, and a limit is that of semtimedop.
  pub semop : ℕ → Sembuf → State → Bool × State
  pub semtimedop : ℕ → Sembuf → ℕ → State → Bool × State
  pub setval : ℕ → ℤ → State → Bool × State
  pub rmid : ℕ → State → Bool × State
  -- errno == EINTR after a call, and how many calls signals may still interrupt
  pub eintr : State → Bool
  pub patience : State → ℕ
  pub semop_interrupted :
      (id : ℕ) (b : Sembuf) (s t : State)
      → semop id b s ≡ (false, t)
      → eintr t ≡ true
      → patience t < patience s
  pub semtimedop_interrupted :
      (id : ℕ) (b : Sembuf) (limit : ℕ) (s t : State)
      → semtimedop id b limit s ≡ (false, t)
      → eintr t ≡ true
      → patience t < patience s

abbrev pub operation : ℤ → Bool → Bool → Sembuf
operation op nowait undo = record { sem_op = op; ipc_nowait = nowait; sem_undo = undo }

module _ (ctl : Semctl) where
  abbrev pub Answer : Type 0
  Answer = Bool × ctl.State

  abbrev pub retried : (ctl.State → Option Answer) → Answer → Option Answer
  retried again (true, t) = some (true, t)
  retried again (false, t) = if ctl.eintr t then again t else some (false, t)

  -- A call is made again while a signal interrupts it; `none` is the end of the fuel.
  unfoldable pub retry : ℕ → (ctl.State → Answer) → ctl.State → Option Answer
  retry zero call s = none
  retry (suc fuel) call s = retried (λ t. retry fuel call t) (call s)

  unfoldable pub inc : ℕ → ctl.State → Answer
  inc id s = ctl.semop id (operation (pos 1) false true) s

  unfoldable pub dec : ℕ → ℕ → ctl.State → Option Answer
  unfolding retry
  dec fuel id s = retry fuel (ctl.semop id (operation (negsuc 0) false true)) s

  unfoldable pub dec_nowait : ℕ → ctl.State → Answer
  dec_nowait id s = ctl.semop id (operation (negsuc 0) true true) s

  unfoldable pub dec_timeout : ℕ → ℕ → ℕ → ctl.State → Option Answer
  unfolding retry
  dec_timeout fuel id limit s =
      retry fuel (ctl.semtimedop id (operation (negsuc 0) false true) limit) s

  unfoldable pub zero_wait : ℕ → ℕ → ctl.State → Option Answer
  unfolding retry
  zero_wait fuel id s = retry fuel (ctl.semop id (operation (pos 0) false false)) s

  unfoldable pub zero_nowait : ℕ → ctl.State → Answer
  zero_nowait id s = ctl.semop id (operation (pos 0) true false) s

  unfoldable pub zero_timeout : ℕ → ℕ → ℕ → ctl.State → Option Answer
  unfolding retry
  zero_timeout fuel id limit s =
      retry fuel (ctl.semtimedop id (operation (pos 0) false false) limit) s

  unfoldable pub set : ℕ → ℤ → ctl.State → Answer
  set id val s = ctl.setval id val s

  -- A failure is a message.
  unfoldable pub remove : ℕ → ctl.State → ctl.State
  remove id s = (ctl.rmid id s).1
