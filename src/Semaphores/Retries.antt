-- ===== src/Semaphores/Retries.antt =====
-- common/sem_util.cpp: how the loops of SemUtil around a call that waits end.
use hoststack.Prelude.{
  ℕ, zero, suc, ◌<◌, ◌≡◌, refl, true, false, Option, none, some, arith, Bool-cases, inl, inr, pos,
  negsuc,
}
use hoststack.Semaphores.Calls.{
  Semctl, operation, Answer, retried, retry, dec, dec_timeout, zero_wait, zero_timeout,
}

module _ (ctl : Semctl) where
  -- The last call succeeded, or it failed for another reason than a signal.
  abbrev pub Settles : (ctl.State → Answer ctl) → Option (Answer ctl) → Type 0
  Settles call none = ⊥
  Settles call (some (true, t)) = (s : ctl.State) × (call s ≡ (true, t))
  Settles call (some (false, t)) = (s : ctl.State) × (call s ≡ (false, t)) × (ctl.eintr t ≡ false)

  retry-Settles :
      (call : ctl.State → Answer ctl)
      → ((s t : ctl.State)
          → call s ≡ (false, t)
          → ctl.eintr t ≡ true
          → ctl.patience t < ctl.patience s)
      → (fuel : ℕ) (s : ctl.State) → ctl.patience s < fuel
      → Settles call (retry ctl fuel call s)
  unfolding retry
  retry-Settles call h zero s l = elim l [ ]
  retry-Settles call h (suc fuel) s l = go (λ t k. retry-Settles call h fuel t k) (call s) refl
    where
      go :
          ((t : ctl.State) → ctl.patience t < fuel → Settles call (retry ctl fuel call t))
          → (r : Answer ctl) → call s ≡ r
          → Settles call (retried ctl (λ t. retry ctl fuel call t) r)
      go again (true, t) e = (s, e)
      go again (false, t) e = elim (Bool-cases (ctl.eintr t)) [
        | inl i ↦ rw i (again t (omega (arith, l, h s t e i)))
        | inr i ↦ rw i (s, e, i)
      ]

  -- With fuel for every interrupt, dec and zero, with a time limit or without, come to an end: with 0
  -- after a call that succeeded, and with -1 only after one that failed for another reason than a
  -- signal: a call that a signal interrupts is made again, though the comment of dec says that it
  -- returns -1 with EINTR.
  pub waits-Settles :
      (fuel id limit : ℕ) (s : ctl.State)
      → ctl.patience s < fuel
      → Settles (ctl.semop id (operation (negsuc 0) false true)) (dec ctl fuel id s)
        × Settles
            (ctl.semtimedop id (operation (negsuc 0) false true) limit)
            (dec_timeout ctl fuel id limit s)
        × Settles (ctl.semop id (operation (pos 0) false false)) (zero_wait ctl fuel id s)
        × Settles
            (ctl.semtimedop id (operation (pos 0) false false) limit)
            (zero_timeout ctl fuel id limit s)
  unfolding dec dec_timeout zero_wait zero_timeout
  waits-Settles fuel id limit s l = (
    retry-Settles _ (λ s t e i. ctl.semop_interrupted id _ s t e i) fuel s l,
    retry-Settles _ (λ s t e i. ctl.semtimedop_interrupted id _ limit s t e i) fuel s l,
    retry-Settles _ (λ s t e i. ctl.semop_interrupted id _ s t e i) fuel s l,
    retry-Settles _ (λ s t e i. ctl.semtimedop_interrupted id _ limit s t e i) fuel s l,
  )
