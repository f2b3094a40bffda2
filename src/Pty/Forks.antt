-- ===== src/Pty/Forks.antt =====
-- pty/pty_fork.cpp: what pty_fork leaves open in the parent, in the child and after an error.
use hoststack.Prelude.{
  ℕ, zero, suc, ◌≡◌, ◌≤◌, ◌<◌, refl, sym, ap, ◌∙◌, false, Option, none, some, length, inl, inr,
  Bool-cases, ltb, arith, if◌then◌else◌, subst, ◌==◌, assign, ltb→lt, not_ltb→le,
}
use hoststack.Prelude.Text.{Text}
use hoststack.Returns.{Result, returns, fails, exits, M, ◌>>=◌, ◌>>◌, return, bind_lem, try_lem}
use hoststack.Pty.{
  Terminals, err_exit, connect_slave, leave_master, max_sname, eoverflow, pty_master_open, Forked,
  parent, child, copy_name, pty_fork, close_and_fail, too_small, try,
}
use hoststack.Pty.Table.{assign_back, standard}
use hoststack.Pty.Opens.{kept, Refused, OpensMaster, table-close_new, pty_master_open-OpensMaster}
use hoststack.Pty.Connects.{Left, leave_master-Left, Connected, connect_slave-Connected}

suc_not_zero : (k : ℕ) → (suc k == 0) ≡ false
suc_not_zero k = ground arith

module _ (term : Terminals) where
  abbrev pub HasMaster : term.State → ℕ → Text → term.State → Type 0
  HasMaster s m name t = pty_master_open term max_sname s ≡ (returns (m, name), t)

  -- The error numbers that a failing pty_fork may leave.
  pub data Unforked (sn_len : Option ℕ) (s : term.State) : ℕ → Type 0 where
    no_master : (n : ℕ) → Refused term max_sname s n → Unforked sn_len s n
    no_room :
        (m k : ℕ) (name : Text) (t : term.State)
        → HasMaster s m name t
        → sn_len ≡ some k
        → k ≤ length name
        → Unforked sn_len s eoverflow
    no_process :
        (m : ℕ) (name : Text) (t u : term.State)
        → HasMaster s m name t
        → term.fork t ≡ (none, u)
        → Unforked sn_len s (term.errno u)

  -- The name that the caller gets, if it wants one.
  abbrev pub Copied : Option ℕ → Text → Option Text → Type 0
  Copied none slname name = name ≡ none
  Copied (some k) slname name = (name ≡ some slname) × (length slname < k)

  abbrev pub Forks : Option ℕ → term.State → Result Forked × term.State → Type 0
  Forks sn_len s (returns (parent pid m name), t) =
      (0 < pid)
      × (term.table s m ≡ none)
      × ((f : term.File) × (term.table t ≡ assign (term.table s) m (some f)))
      × ((slname : Text) × (u : term.State) × HasMaster s m slname u × Copied sn_len slname name)
  Forks sn_len s (returns child, t) =
      (m : ℕ) × (slname : Text) × (u : term.State) × HasMaster s m slname u
      × (term.table t ≡ standard (term.table s) (some (term.file_at slname)))
  Forks sn_len s (fails, t) = (term.table t ≡ term.table s) × Unforked sn_len s (term.errno t)
  Forks sn_len s (exits n, t) =
      (m : ℕ) × (slname : Text) × (u v : term.State) × HasMaster s m slname u
      × (term.fork u ≡ (some 0, v))

  module _ (sn_len : Option ℕ) (s : term.State) where
    child_lem :
        (a : Option term.Termios) (w : Option term.Winsize) (m : ℕ) (slname : Text)
        (u v : term.State)
        → HasMaster s m slname u
        → term.fork u ≡ (some 0, v)
        → assign (term.table v) m none ≡ term.table s
        → Forks sn_len s (
            (do leave_master term m; connect_slave term (err_exit term) slname a w; return child) v)
    child_lem a w m slname u v eu ev h =
        bind_lem (Forks sn_len s) (leave_master term m) _ v
          (λ x t e.
            let left = subst (Left term m v) e (leave_master-Left term m v) in
            bind_lem (Forks sn_len s) (connect_slave term (err_exit term) slname a w) _ t
              (λ y z ez.
                let end =
                  subst (Connected term slname t) ez (connect_slave-Connected term slname a w t) in
                (
                  m,
                  slname,
                  u,
                  eu,
                  end ∙ ap (λ d. standard d (some (term.file_at slname))) (left ∙ h),
                ))
              (λ z ez.
                absurd
                  (subst (Connected term slname t) ez (connect_slave-Connected term slname a w t)))
              (λ n z ez. (m, slname, u, v, eu, ev)))
          (λ t e. absurd (subst (Left term m v) e (leave_master-Left term m v)))
          (λ n t e. (m, slname, u, v, eu, ev))

    fork_lem :
        (a : Option term.Termios) (w : Option term.Winsize) (m : ℕ) (slname : Text) (f : term.File)
        (name : Option Text) (t : term.State)
        → HasMaster s m slname t
        → Copied sn_len slname name
        → term.table s m ≡ none
        → term.table t ≡ assign (term.table s) m (some f)
        → Forks sn_len s (
            (do
              child_pid ← try term.fork (close_and_fail term m)
              if child_pid == 0
                  then (do
                    leave_master term m
                    connect_slave term (err_exit term) slname a w
                    return child)
                  else return (parent child_pid m name))
              t)
    unfolding close_and_fail
    fork_lem a w m slname f name t et c free new =
        try_lem (Forks sn_len s) term.fork _ _ t
          (λ pid u e. forked pid u e (kept term t (term.fork t) (term.table-fork t) e ∙ new))
          (λ u e.
            let nu = kept term t (term.fork t) (term.table-fork t) e ∙ new in
            (
              term.table-set_errno _ (term.close m u) ∙ table-close_new term s u m f free nu,
              subst (Unforked sn_len s) (sym (term.errno-set_errno _ (term.close m u)))
                  (no_process m slname t u et e),
            ))
      where
        forked :
            (pid : ℕ) (u : term.State)
            → term.fork t ≡ (some pid, u)
            → term.table u ≡ assign (term.table s) m (some f)
            → Forks sn_len s (
                (if pid == 0
                    then (do
                      leave_master term m
                      connect_slave term (err_exit term) slname a w
                      return child)
                    else return (parent pid m name))
                  u)
        forked zero u e n =
            child_lem a w m slname t u et e
              (ap (λ d. assign d m none) n ∙ assign_back (term.table s) m (some f) free)
        forked (suc k) u e n = rw (suc_not_zero k) (omega arith, free, (f, n), (slname, t, et, c))

    copied_lem :
        (m : ℕ) (slname : Text) (f : term.File) (t : term.State)
        (go : Option Text → M term.State Forked)
        → HasMaster s m slname t
        → term.table s m ≡ none
        → term.table t ≡ assign (term.table s) m (some f)
        → ((name : Option Text) → Copied sn_len slname name → Forks sn_len s (go name t))
        → Forks sn_len s ((copy_name term sn_len m slname >>= go) t)
    unfolding too_small
    copied_lem m slname f t go et free new h = cases sn_len refl
      where
        cases : (o : Option ℕ) → sn_len ≡ o → Forks sn_len s ((copy_name term o m slname >>= go) t)
        cases none e = h none (subst (λ o. Copied o slname none) (sym e) refl)
        cases (some k) e = elim (Bool-cases (ltb (length slname) k)) [
          | inl fits ↦ rw fits (
              h (some slname) (
                subst (λ o. Copied o slname (some slname)) (sym e)
                  (refl, ltb→lt (length slname) k fits)))
          | inr long ↦ rw long (
            term.table-set_errno eoverflow (term.close m t) ∙ table-close_new term s t m f free new,
            subst (Unforked sn_len s) (sym (term.errno-set_errno eoverflow (term.close m t)))
                (no_room m k slname t et e (not_ltb→le (length slname) k long)),
          )
        ]

  -- In the parent, pty_fork leaves the master open and nothing else, and the name fits the caller's
  -- buffer. In the child, the slave is the standard input, output and error, and every other
  -- descriptor is as it was, the master closed; only the child may end by an exit. With an error every
  -- descriptor is as it was, and errno is that of the call that failed, or EOVERFLOW where a name does
  -- not fit.
  pub pty_fork-Forks :
      (sn_len : Option ℕ) (a : Option term.Termios) (w : Option term.Winsize) (s : term.State)
      → Forks sn_len s (pty_fork term sn_len a w s)
  unfolding pty_fork
  pty_fork-Forks sn_len a w s =
      bind_lem (Forks sn_len s) (pty_master_open term max_sname) _ s
        (λ x t e.
          let (free, l, (f, new)) =
            subst (OpensMaster term max_sname s) e (pty_master_open-OpensMaster term max_sname s) in
          copied_lem sn_len s x.0 x.1 f t _ e free new
            (λ name c. fork_lem sn_len s a w x.0 x.1 f name t e c free new))
        (λ t e.
          let (h, r) =
            subst (OpensMaster term max_sname s) e (pty_master_open-OpensMaster term max_sname s) in
          (h, no_master _ r))
        (λ n t e.
          absurd
            (subst (OpensMaster term max_sname s) e (pty_master_open-OpensMaster term max_sname s)))
