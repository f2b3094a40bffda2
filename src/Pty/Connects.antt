-- ===== src/Pty/Connects.antt =====
-- pty/pty_fork.cpp: what the descriptors of parent and child refer to.
use hoststack.Prelude.{
  ℕ, ◌≡◌, refl, ap, ◌∙◌, Option, none, some, inl, inr, Bool-cases, ltb, assign, ltb→lt,
}
use hoststack.Prelude.Text.{Text}
use hoststack.Returns.{fails, exits, Result, returns, M, bound, ◌>>=◌, try_lem, check_lem, check}
use hoststack.Pty.{
  Terminals, Handler, set_attributes, set_size, close_spare, connect_slave, leave_master, err_exit,
}
use hoststack.Pty.Table.{standard, assign-standard, standard-assign, assign_self, assign_again}
use hoststack.Pty.Opens.{kept}

module _ (term : Terminals) (handle : Handler term) (P : Result (Unit {0}) × term.State → Type 0)
    (bad : (A : Type 0) (f : A → M term.State (Unit {0})) (u : term.State)
      → P (bound (handle A u) f)) where
  set_attributes_lem :
      (fd : ℕ) (a : Option term.Termios) (f : Unit {0} → M term.State (Unit {0})) (s : term.State)
      → ((t : term.State) → term.table t ≡ term.table s → P (f tt t))
      → P ((set_attributes term handle fd a >>= f) s)
  set_attributes_lem fd none f s go = go s refl
  set_attributes_lem fd (some a) f s go =
      check_lem P (term.tcsetattr fd a) _ f s
        (λ t e. go t (kept term s (term.tcsetattr fd a s) (term.table-tcsetattr fd a s) e))
        (λ t e. bad Unit f t)

  set_size_lem :
      (fd : ℕ) (w : Option term.Winsize) (f : Unit {0} → M term.State (Unit {0})) (s : term.State)
      → ((t : term.State) → term.table t ≡ term.table s → P (f tt t))
      → P ((set_size term handle fd w >>= f) s)
  set_size_lem fd none f s go = go s refl
  set_size_lem fd (some w) f s go =
      check_lem P (term.set_winsize fd w) _ f s
        (λ t e. go t (kept term s (term.set_winsize fd w s) (term.table-set_winsize fd w s) e))
        (λ t e. bad Unit f t)

  -- A further descriptor for the file of the first.
  dup_lem :
      (fd new : ℕ) (table : ℕ → Option term.File) (x : Option term.File)
      (f : Unit {0} → M term.State (Unit {0})) (s : term.State)
      → term.table s ≡ table
      → table fd ≡ x
      → ((t : term.State)
          → term.table t ≡ assign table new x
          → assign table new x fd ≡ x
          → P (f tt t))
      → P ((check (term.dup2 fd new) (handle Unit) >>= f) s)
  dup_lem fd new table x f s e h go =
      check_lem P (term.dup2 fd new) _ f s
        (λ t d.
          go t
            (term.dup2_lem fd new s t d ∙ ap (λ y. assign y new (y fd)) e ∙ ap (assign table new) h)
            (assign_again table fd new x h))
        (λ t d. bad Unit f t)

  close_spare-standard :
      (fd : ℕ) (table : ℕ → Option term.File) (x : Option term.File) (s : term.State)
      → table fd ≡ none
      → term.table s ≡ standard (assign table fd x) x
      → term.table (close_spare term fd s).1 ≡ standard table x
  close_spare-standard fd table x s h e = elim (Bool-cases (ltb 2 fd)) [
    | inl above ↦ rw above (
        term.table-close fd s
        ∙ ap (λ y. assign y fd none) e
        ∙ assign-standard table fd x h (ltb→lt 2 fd above))
    | inr among ↦ rw among (e ∙ standard-assign table fd x among)
  ]

  -- A child that comes to the end has the slave as its standard input, output and error, and no other
  -- descriptor has changed.
  pub connect_slave_lem :
      (name : Text) (a : Option term.Termios) (w : Option term.Winsize) (s : term.State)
      → ((t : term.State)
          → term.table t ≡ standard (term.table s) (some (term.file_at name))
          → P (returns tt, t))
      → P (connect_slave term handle name a w s)
  unfolding connect_slave
  connect_slave_lem name a w s go =
      let x : Option term.File = some (term.file_at name) in
      try_lem P (term.open_file name) _ _ s
        (λ fd t e.
          let (free, opened) = term.open_lem name fd s t e in
          let table = assign (term.table s) fd x in
          check_lem P (term.set_controlling fd) _ _ t
            (λ u eu.
              let nu =
                kept term t (term.set_controlling fd t) (term.table-set_controlling fd t) eu in
              set_attributes_lem fd a _ u (λ v ev. set_size_lem fd w _ v (λ z ez.
                dup_lem fd 0 table x _ z (ez ∙ ev ∙ nu ∙ opened) (assign_self (term.table s) fd x)
                  (λ z0 e0 h0. dup_lem fd 1 (assign table 0 x) x _ z0 e0 h0 (λ z1 e1 h1.
                    dup_lem fd 2 (assign (assign table 0 x) 1 x) x _ z1 e1 h1 (λ z2 e2 h2.
                      go (close_spare term fd z2).1
                        (close_spare-standard fd (term.table s) x z2 free e2)))))))
            (λ u eu. bad Unit _ u))
        (λ t e. bad ℕ _ t)

module _ (term : Terminals) where
  -- The table of a process that has left the master, and of a child whose errors end it.
  abbrev pub Left : ℕ → term.State → Result (Unit {0}) × term.State → Type 0
  Left mfd s (returns x, t) = term.table t ≡ assign (term.table s) mfd none
  Left mfd s (fails, t) = ⊥
  Left mfd s (exits n, t) = Unit

  pub leave_master-Left : (mfd : ℕ) (s : term.State) → Left mfd s (leave_master term mfd s)
  unfolding leave_master err_exit
  leave_master-Left mfd s =
      check_lem (Left mfd s) term.setsid _ _ s
        (λ t e.
          term.table-close mfd t
          ∙ ap (λ y. assign y mfd none) (kept term s (term.setsid s) (term.table-setsid s) e))
        (λ t e. tt)

  abbrev pub Connected : Text → term.State → Result (Unit {0}) × term.State → Type 0
  Connected name s (returns x, t) =
      term.table t ≡ standard (term.table s) (some (term.file_at name))
  Connected name s (fails, t) = ⊥
  Connected name s (exits n, t) = Unit

  pub connect_slave-Connected :
      (name : Text) (a : Option term.Termios) (w : Option term.Winsize) (s : term.State)
      → Connected name s (connect_slave term (err_exit term) name a w s)
  unfolding err_exit
  connect_slave-Connected name a w s =
      connect_slave_lem term (err_exit term) (Connected name s) (λ A f u. tt) name a w s (λ t e. e)
