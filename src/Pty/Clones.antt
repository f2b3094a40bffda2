-- ===== src/Pty/Clones.antt =====
-- pty/pty_fork.cpp: what pty_clone leaves open, and what its child does.
use hoststack.Prelude.{ℕ, ◌≡◌, refl, ap, ◌∙◌, none, some, subst, assign}
use hoststack.Returns.{Result, returns, fails, exits, M, bound, bind_lem, try_lem, check_lem}
use hoststack.Pty.{
  Terminals, PtyRunArg, pty_clone, pty_clone_run, leave_master, max_sname, pty_master_open,
  close_and_fail,
}
use hoststack.Pty.Table.{standard}
use hoststack.Pty.Opens.{kept, OpensMaster, table-close_new, pty_master_open-OpensMaster}
use hoststack.Pty.Connects.{Left, leave_master-Left, connect_slave_lem}

module _ (term : Terminals) where
  -- The way of a child: it runs the function with the slave as its standard input, output and error
  -- and the master closed, or does not come to that.
  pub data Ran (arg : PtyRunArg term) (fn : M term.State ℕ) (s : term.State)
      : Result ℕ × term.State → Type 0 where
    ran :
        (t : term.State)
        → term.table t
          ≡ standard (assign (term.table s) arg.mfd none) (some (term.file_at arg.slname))
        → Ran arg fn s (fn t)
    failed : (t : term.State) → Ran arg fn s (fails, t)
    ended : (n : ℕ) (t : term.State) → Ran arg fn s (exits n, t)

  pub pty_clone_run-Ran :
      (arg : PtyRunArg term) (fn : M term.State ℕ) (s : term.State)
      → Ran arg fn s (pty_clone_run term arg fn s)
  unfolding pty_clone_run
  pty_clone_run-Ran arg fn s =
      bind_lem (Ran arg fn s) (leave_master term arg.mfd) _ s
        (λ x t e.
          let left = subst (Left term arg.mfd s) e (leave_master-Left term arg.mfd s) in
          connect_slave_lem term (λ A u. (fails, u)) (λ r. Ran arg fn s (bound r (λ y. fn)))
            (λ A f u. failed u) arg.slname arg.slave_termios arg.slave_ws t
            (λ u eu. ran u (eu ∙ ap (λ d. standard d (some (term.file_at arg.slname))) left)))
        (λ t e. failed t) (λ n t e. ended n t)

  abbrev pub Clones : term.State → Result (ℕ × ℕ) × term.State → Type 0
  Clones s (returns (pid, m), t) =
      (term.table s m ≡ none)
      × ((f : term.File) × (term.table t ≡ assign (term.table s) m (some f)))
  Clones s (fails, t) = term.table t ≡ term.table s
  Clones s (exits n, t) = n ≡ 0

  -- pty_clone returns the master, the only descriptor that it leaves open, or fails with every
  -- descriptor as it was; where there is no memory for the child's stack, it ends the program with
  -- the status of a success.
  pub pty_clone-Clones : (s : term.State) → Clones s (pty_clone term s)
  unfolding pty_clone close_and_fail
  pty_clone-Clones s =
      bind_lem (Clones s) (pty_master_open term max_sname) _ s
        (λ x t e.
          let (free, l, (f, new)) =
            subst (OpensMaster term max_sname s) e (pty_master_open-OpensMaster term max_sname s) in
          check_lem (Clones s) term.mmap _ _ t
            (λ u eu.
              let nu = kept term t (term.mmap t) (term.table-mmap t) eu ∙ new in
              try_lem (Clones s) term.clone _ _ u
                (λ pid v ev. (free, (f, kept term u (term.clone u) (term.table-clone u) ev ∙ nu)))
                (λ v ev.
                  let nv = kept term u (term.clone u) (term.table-clone u) ev ∙ nu in
                  term.table-set_errno _ (term.close x.0 v)
                  ∙ table-close_new term s v x.0 f free nv))
            (λ u eu. refl))
        (λ t e.
          (subst (OpensMaster term max_sname s) e (pty_master_open-OpensMaster term max_sname s)).0)
        (λ n t e.
          absurd
            (subst (OpensMaster term max_sname s) e (pty_master_open-OpensMaster term max_sname s)))
