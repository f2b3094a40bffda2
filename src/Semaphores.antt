-- ===== src/Semaphores.antt =====
-- common/sem_util.cpp: SemUtil::get on a key that several processes use, as interleaved steps, with the
-- operations on the semaphore afterwards.
pub mod Initial
pub mod Calls
pub mod Retries
use hoststack.Prelude.{
  ℕ, zero, suc, ◌+◌, ◌-◌, ◌%◌, ◌≡◌, Bool, true, false, if◌then◌else◌, ltb, ◌==◌, Option, none, some,
  assign,
}

-- The semaphore of the key: its value, whether sem_otime is set, and whether a process that had
-- returned from get has changed it.
pub data Semaphore : Type 0 where
  absent : Semaphore
  present : (value : ℕ) (operated changed : Bool) → Semaphore

-- Where a process stands in get: before semget, after it has created the semaphore, after SETVAL,
-- returned; after EEXIST, with some tries left, returned, or ended by err_exit.
pub data Getter : Type 0 where
  start : Getter
  created : Getter
  zeroed : Getter
  initialised : Getter
  existing : Getter
  polling : (tries : ℕ) → Getter
  attached : Getter
  failed : Getter

-- MAX_TRIES
abbrev pub max_tries : ℕ
max_tries = 10

pub data System : Type 0 where
  system : Semaphore → (ℕ → Getter) → System

-- The semop of get on a value: the unsigned argument is kept in a short, so that 32768 and more are a
-- decrement, and 0 is a wait for 0; `none` is a call that blocks or fails.
unfoldable pub add_short : ℕ → ℕ → Option ℕ
add_short value v =
    let n = value % 65536 in
    if n == 0
    then (if v == 0 then some v else none)
    else if ltb n 32768
    then (if ltb (v + n) 32768 then some (v + n) else none)
    else (if ltb v (65536 - n) then none else some (v - (65536 - n)))

abbrev pub has_returned : Getter → Bool
has_returned initialised = true
has_returned attached = true
has_returned start = false
has_returned created = false
has_returned zeroed = false
has_returned existing = false
has_returned (polling tries) = false
has_returned failed = false

-- A step of process `i`; `value` is what get is called with. Each call may fail, which ends the process
-- by err_exit. A process that has returned operates on the semaphore by inc and dec, whose effect is
-- undone at its end, or sets it. SemUtil::remove is left out: no semaphore is deleted.
pub data Step (value i : ℕ) : System → System → Type 0 where
  create :
      (v : ℕ) (p : ℕ → Getter)
      → p i ≡ start
      → Step value i (system absent p) (system (present v false false) (assign p i created))
  set_value :
      (v : ℕ) (o c : Bool) (p : ℕ → Getter)
      → p i ≡ created
      → Step value i (system (present v o c) p) (system (present 0 o c) (assign p i zeroed))
  operate :
      (v w : ℕ) (o c : Bool) (p : ℕ → Getter)
      → p i ≡ zeroed
      → add_short value v ≡ some w
      → Step value i (system (present v o c) p) (system (present w true c) (assign p i initialised))
  exists :
      (v : ℕ) (o c : Bool) (p : ℕ → Getter)
      → p i ≡ start
      → Step value i (system (present v o c) p) (system (present v o c) (assign p i existing))
  open_existing :
      (v : ℕ) (o c : Bool) (p : ℕ → Getter)
      → p i ≡ existing
      → Step value i
          (system (present v o c) p)
          (system (present v o c) (assign p i (polling max_tries)))
  see :
      (v n : ℕ) (c : Bool) (p : ℕ → Getter)
      → p i ≡ polling (suc n)
      → Step value i (system (present v true c) p) (system (present v true c) (assign p i attached))
  wait :
      (v n : ℕ) (c : Bool) (p : ℕ → Getter)
      → p i ≡ polling (suc n)
      → Step value i
          (system (present v false c) p)
          (system (present v false c) (assign p i (polling n)))
  give_up :
      (v : ℕ) (c : Bool) (p : ℕ → Getter)
      → p i ≡ polling 0
      → Step value i (system (present v false c) p) (system (present v false c) (assign p i failed))
  fail :
      (s : Semaphore) (p : ℕ → Getter)
      → has_returned (p i) ≡ false
      → Step value i (system s p) (system s (assign p i failed))
  change :
      (v w : ℕ) (o c : Bool) (p : ℕ → Getter)
      → has_returned (p i) ≡ true
      → Step value i (system (present v o c) p) (system (present w true true) p)
  assign_value :
      (v w : ℕ) (o c : Bool) (p : ℕ → Getter)
      → has_returned (p i) ≡ true
      → Step value i (system (present v o c) p) (system (present w o true) p)

-- No process has called get, and the key has no semaphore.
abbrev pub before : System
before = system absent (λ i. start)

pub data Reach (value : ℕ) : System → Type 0 where
  here : Reach value before
  next : {s t : System} (i : ℕ) → Reach value s → Step value i s t → Reach value t
