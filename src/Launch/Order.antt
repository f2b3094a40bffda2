-- ===== src/Launch/Order.antt =====
-- The launch of a container: in which order the caller and the server go on.
use hoststack.Prelude.{ℕ, zero, suc, ◌≡◌, ◌≢◌, refl, some, arith, ap}
use hoststack.Launch.{
  Server, forked, cloned, saved, listening, serving, ended, failed, waiting, released, Launch, Step,
  clone, not_cloned, save, listen, not_listening, signal, not_set, finish, release, not_waited,
  unsynchronised, at, sem_set, Reach, here, next, launched, sem_get, sem_zero,
}

-- The server has saved the record, listens or has listened, and SemUtil::set has returned.
abbrev pub HasSignalled : Server → Type 0
HasSignalled forked = ⊥
HasSignalled cloned = ⊥
HasSignalled saved = ⊥
HasSignalled listening = ⊥
HasSignalled serving = Unit
HasSignalled ended = Unit
HasSignalled failed = ⊥

-- The semaphore holds 0 only then, and the caller is released only at 0.
abbrev pub IsOrdered : Launch → Type 0
IsOrdered l = (l.sem ≡ 0 → HasSignalled l.server) × (l.caller ≡ released → l.sem ≡ 0)

sem_zero-zero : (n m : ℕ) → sem_zero n ≡ some m → (n ≡ 0) × (m ≡ 0)
unfolding sem_zero
sem_zero-zero zero m e = (refl, cc)
sem_zero-zero (suc n) m e = cc

Step-IsOrdered : {l m : Launch} → Step l m → IsOrdered l → IsOrdered m
unfolding sem_set
Step-IsOrdered (clone n c) (a, b) = (a, b)
Step-IsOrdered (not_cloned n c) (a, b) = (a, b)
Step-IsOrdered (save n c) (a, b) = (a, b)
Step-IsOrdered (listen n c) (a, b) = (a, b)
Step-IsOrdered (not_listening n c) (a, b) = (a, b)
Step-IsOrdered (signal n c) (a, b) = ((λ e. tt), λ e. refl)
Step-IsOrdered (not_set n c) (a, b) = ((λ e. tt), b)
Step-IsOrdered (finish n c) (a, b) = ((λ e. tt), b)
Step-IsOrdered (release n m s e) (a, b) = let (z, y) = sem_zero-zero n m e in ((λ x. a z), λ x. y)
Step-IsOrdered (not_waited n s) (a, b) = (a, λ e. absurd (lost e))
  where
    lost : unsynchronised ≡ released → ⊥
    lost e = cc

still_waiting : waiting ≡ released → ⊥
still_waiting e = cc

launched-IsOrdered : IsOrdered launched
unfolding sem_get
launched-IsOrdered = ((λ e. omega (arith, e)), λ e. absurd (still_waiting e))

Reach-IsOrdered : {l : Launch} → Reach launched l → IsOrdered l
Reach-IsOrdered here = launched-IsOrdered
Reach-IsOrdered (next r s) = Step-IsOrdered s (Reach-IsOrdered r)

-- In whatever order the steps of the caller and of the server come, SemUtil::zero returns to the caller
-- without an error only after the server has saved the container's record, listens on the socket, and
-- has called SemUtil::set, and at a semaphore of 0. Where SemUtil::zero fails, the caller goes on to
-- its terminal all the same, and nothing is said of the server.
pub Reach-HasSignalled :
    {l : Launch} → Reach launched l → l.caller ≡ released → HasSignalled l.server × (l.sem ≡ 0)
Reach-HasSignalled r e = let (a, b) = Reach-IsOrdered r in (a (b e), b e)

-- What can follow where the server has failed: the wait fails.
only_not_waited :
    {l m : Launch}
    → Step l m
    → l.server ≡ failed
    → l.sem ≢ 0
    → (l.caller ≡ waiting) × (m ≡ at l.sem failed unsynchronised)
only_not_waited (clone n c) e p = cc
only_not_waited (not_cloned n c) e p = cc
only_not_waited (save n c) e p = cc
only_not_waited (listen n c) e p = cc
only_not_waited (not_listening n c) e p = cc
only_not_waited (signal n c) e p = cc
only_not_waited (not_set n c) e p = cc
only_not_waited (finish n c) e p = cc
only_not_waited (release n m s z) e p = absurd (p (sem_zero-zero n m z).0)
only_not_waited (not_waited n s) e p = (refl, ap (λ x. at n x unsynchronised) e)

after_failure : (s : Server) → s ≡ failed → HasSignalled s → ⊥
after_failure forked e h = elim h [ ]
after_failure cloned e h = elim h [ ]
after_failure saved e h = elim h [ ]
after_failure listening e h = elim h [ ]
after_failure failed e h = elim h [ ]
after_failure serving e h = cc
after_failure ended e h = cc

-- If the server fails before it has called SemUtil::set, the caller is not released, and only one thing
-- can follow: that its SemUtil::zero fails and it goes on without the server. Until then it waits.
pub Reach-stuck :
    {l : Launch}
    → Reach launched l
    → l.server ≡ failed
    → (l.caller ≢ released)
      × ((m : Launch) → Step l m → (l.caller ≡ waiting) × (m ≡ at l.sem failed unsynchronised))
Reach-stuck r e =
    let (a, b) = Reach-IsOrdered r in
    (λ f. after_failure _ e (a (b f)), λ m s. only_not_waited s e (λ z. after_failure _ e (a z)))
