-- ===== src/Tests/Semaphores.antt =====
-- Semaphores on concrete runs.
use hoststack.Prelude.{
  ℕ, zero, suc, ◌<◌, ◌≡◌, refl, ap, Bool, true, false, some, arith, pos, negsuc, assign,
}
use hoststack.Semaphores.{
  add_short, present, Getter, start, created, zeroed, initialised, existing, polling, attached,
  system, create, set_value, operate, exists, open_existing, see, wait, change, Reach, here, next,
}
use hoststack.Semaphores.Initial.{IsInitialised, Reach-IsInitialised}
use hoststack.Semaphores.Calls.{Semctl, operation, dec, dec_timeout, zero_wait, zero_timeout}
use hoststack.Semaphores.Retries.{Settles, waits-Settles}

abbrev all_start : ℕ → Getter
all_start i = start

-- Process 0 creates the semaphore; process 1 finds it, waits once, and returns first.
abbrev first : ℕ → Getter
first = assign all_start 0 created

abbrev second : ℕ → Getter
second = assign (assign first 1 existing) 1 (polling 10)

abbrev third : ℕ → Getter
third = assign (assign second 1 (polling 9)) 0 zeroed

abbrev fourth : ℕ → Getter
fourth = assign (assign third 0 initialised) 1 attached

abbrev race : Reach 3 (system (present 4 true true) fourth)
unfolding add_short
race =
    next 1
      (next 1
        (next 0
          (next 0
            (next 1
              (next 1
                (next 1 (next 0 here (create 7 all_start refl)) (exists 7 false false first refl))
                (open_existing 7 false false (assign first 1 existing) refl))
              (wait 7 9 false second refl))
            (set_value 7 false false (assign second 1 (polling 9)) refl))
          (operate 0 3 false false third refl refl))
        (see 3 8 false (assign third 0 initialised) refl))
      (change 3 4 true false fourth refl)

Reach-IsInitialised_example : IsInitialised 3 (system (present 4 true true) fourth)
Reach-IsInitialised_example = Reach-IsInitialised race 0 refl

-- A signal interrupts the next calls.
abbrev interrupted : ℕ → Bool × ℕ
interrupted zero = (true, zero)
interrupted (suc n) = (false, n)

less : (s t : ℕ) → interrupted s ≡ (false, t) → t < s
less zero t e = absurd (tag (ap (λ r. r.0) e))
  where
    tag : true ≡ false → ⊥
    tag e = cc
less (suc n) t e = omega (arith, ap (λ r. r.1) e)

abbrev signals : Semctl
signals = record {
  State = ℕ;
  semop = λ id b s. interrupted s;
  semtimedop = λ id b limit s. interrupted s;
  setval = λ id v s. (true, s);
  rmid = λ id s. (true, s);
  eintr = λ s. true;
  patience = λ s. s;
  semop_interrupted = λ id b s t e i. less s t e;
  semtimedop_interrupted = λ id b limit s t e i. less s t e;
}

dec_after_signals : dec signals 3 5 2 ≡ some (true, 0)
unfolding dec
dec_after_signals = refl

waits-Settles_example :
    Settles signals (signals.semop 5 (operation (negsuc 0) false true)) (dec signals 3 5 2)
    × Settles signals
        (signals.semtimedop 5 (operation (negsuc 0) false true) 10)
        (dec_timeout signals 3 5 10 2)
    × Settles signals (signals.semop 5 (operation (pos 0) false false)) (zero_wait signals 3 5 2)
    × Settles signals
        (signals.semtimedop 5 (operation (pos 0) false false) 10)
        (zero_timeout signals 3 5 10 2)
waits-Settles_example = waits-Settles signals 3 5 10 2 (omega arith)
