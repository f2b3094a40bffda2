-- ===== src/Service/Namespaces/Entered.antt =====
-- util/container_service.cpp: which namespaces ContainerService::exec has entered, and what it leaves
-- open; and where dumpStdOut leaves the standard output.
use mathlib.Core.List.{append_assoc, append-nil}
use hoststack.Prelude.{
  ℕ, ◌≡◌, ◌≢◌, refl, sym, ap, ◌∙◌, Bool, true, false, Option, none, some, List, [], ◌∷◌, ◌++◌, ℤ,
  ◌==◌, arith, assign,
}
use mathlib.Core.Path.{fun_ext}
use hoststack.Prelude.Text.{Text, codes}
use hoststack.Returns.{Result, returns, fails, exits, try_lem, check_lem}
use hoststack.Pty.{Terminals, err_exit}
use hoststack.Pty.Table.{assign_back, assign_self}
use hoststack.Pty.Opens.{kept}
use hoststack.Service.Namespaces.{
  Namespaces, namespaces, nspath, enter, exec_container, dump_std_out,
}

module _ (term : Terminals) (ns : Namespaces term) (decimal : ℤ → Text) where
  abbrev pub files_of : ℤ → List Text → List (Option term.File)
  files_of pid [] = []
  files_of pid (name ∷ names) =
      some (term.file_at (nspath term ns decimal pid name)) ∷ files_of pid names

  -- The files have been entered in order, and every descriptor is as it was; or the program has ended.
  abbrev pub Enters : List (Option term.File) → term.State → Result (Unit {0}) × term.State → Type 0
  Enters files s (returns x, t) =
      (ns.entered t ≡ ns.entered s ++ files) × (term.table t ≡ term.table s)
  Enters files s (fails, t) = ⊥
  Enters files s (exits n, t) = Unit

  later :
      (files more : List (Option term.File)) (s t : term.State) (r : Result (Unit {0}) × term.State)
      → ns.entered t ≡ ns.entered s ++ files
      → term.table t ≡ term.table s
      → Enters more t r
      → Enters (files ++ more) s r
  later files more s t (returns x, u) e h (e', h') =
      (e' ∙ ap (λ z. z ++ more) e ∙ append_assoc (ns.entered s) files more, h' ∙ h)
  later files more s t (fails, u) e h k = k
  later files more s t (exits n, u) e h k = tt

  -- One file is opened, entered and closed.
  entered_one :
      (path : Text) (fd : ℕ) (s t u : term.State)
      → term.open_file path s ≡ (some fd, t)
      → ns.setns fd t ≡ (true, u)
      → (ns.entered (term.close fd u) ≡ ns.entered s ++ some (term.file_at path) ∷ [])
        × (term.table (term.close fd u) ≡ term.table s)
  entered_one path fd s t u e d =
      let (free, opened) = term.open_lem path fd s t e in
      let file = ap (λ x. x fd) opened ∙ assign_self (term.table s) fd (some (term.file_at path)) in
      let before = sym (ap (λ r. ns.entered r.1) e) ∙ ns.entered-open path s in
      let same = kept term t (ns.setns fd t) (ns.table-setns fd t) d ∙ opened in
      (
        ns.entered-close fd u
            ∙ ns.entered-setns fd t u d
            ∙ ap (λ z. z ++ term.table t fd ∷ []) before
            ∙ ap (λ z. ns.entered s ++ z ∷ []) file,
        term.table-close fd u
            ∙ ap (λ z. assign z fd none) same
            ∙ assign_back (term.table s) fd (some (term.file_at path)) free,
      )

  enter-Enters :
      (pid : ℤ) (names : List Text) (s : term.State)
      → Enters (files_of pid names) s (enter term ns decimal pid names s)
  unfolding enter err_exit
  enter-Enters pid [] s = (sym (append-nil (ns.entered s)), refl)
  enter-Enters pid (name ∷ names) s =
      let path = nspath term ns decimal pid name in
      try_lem (Enters (files_of pid (name ∷ names)) s) (term.open_file path) _ _ s
        (λ fd t e.
          check_lem (Enters (files_of pid (name ∷ names)) s) (ns.setns fd) _ _ t
            (λ u d.
              let (one, same) = entered_one path fd s t u e d in
              later (some (term.file_at path) ∷ []) (files_of pid names) s (term.close fd u) _ one
                same (enter-Enters pid names (term.close fd u)))
            (λ u d. tt))
        (λ t e. tt)

  -- /proc/PID/ns/pid and /proc/PID/ns/mnt
  abbrev pub entered_files : ℤ → List (Option term.File)
  entered_files pid =
      some (term.file_at (codes "/proc/" ++ (decimal pid ++ codes "/ns/pid")))
      ∷ some (term.file_at (codes "/proc/" ++ (decimal pid ++ codes "/ns/mnt")))
      ∷ []

  -- Where ContainerService::exec comes to its call of pty_exec, it has entered the pid namespace and
  -- then the mount namespace of the container's process, and every descriptor is as it was; otherwise
  -- it has ended the program.
  pub exec_container-Enters :
      (detach : Bool) (pid : ℤ) (s : term.State)
      → Enters (entered_files pid) s (exec_container term ns decimal detach pid s)
  unfolding exec_container err_exit
  exec_container-Enters true pid s =
      check_lem (Enters (entered_files pid) s) ns.daemon _ _ s
        (λ t e.
          later [] (entered_files pid) s t _
            (sym (ap (λ r. ns.entered r.1) e)
              ∙ ns.entered-daemon s
              ∙ sym (append-nil (ns.entered s)))
            (kept term s (ns.daemon s) (ns.table-daemon s) e) (enter-Enters pid namespaces t))
        (λ t e. tt)
  exec_container-Enters false pid s = enter-Enters pid namespaces s

  abbrev pub Dumps : term.State → Result (Unit {0}) × term.State → Type 0
  Dumps s (returns x, t) =
      term.table t ≡ assign (term.table s) 1 (some (term.file_at (codes "/dev/null")))
  Dumps s (fails, t) = ⊥
  Dumps s (exits n, t) = Unit

  -- dumpStdOut, where the standard output is open.
  pub dump_std_out-Dumps :
      (s : term.State) → term.table s 1 ≢ none → Dumps s (dump_std_out term ns decimal s)
  unfolding dump_std_out err_exit
  dump_std_out-Dumps s o =
      let null = some (term.file_at (codes "/dev/null")) in
      try_lem (Dumps s) (term.open_file (codes "/dev/null")) _ _ s
        (λ fd t e.
          let (free, opened) = term.open_lem (codes "/dev/null") fd s t e in
          check_lem (Dumps s) (term.dup2 fd 1) _ _ t
            (λ u d.
              term.table-close fd u
              ∙ ap (λ z. assign z fd none)
                  (term.dup2_lem fd 1 t u d
                    ∙ ap (λ z. assign z 1 (z fd)) opened
                    ∙ ap (assign (assign (term.table s) fd null) 1)
                        (assign_self (term.table s) fd null))
              ∙ moved (term.table s) fd null free o)
            (λ u d. tt))
        (λ t e. tt)
    where
      moved :
          (table : ℕ → Option term.File) (fd : ℕ) (x : Option term.File)
          → table fd ≡ none
          → table 1 ≢ none
          → assign (assign (assign table fd x) 1 x) fd none ≡ assign table 1 x
      moved table fd x free o = fun_ext (λ g. at g (g == fd) (g == 1) refl refl)
        where
          at :
              (g : ℕ) (b c : Bool)
              → (g == fd) ≡ b
              → (g == 1) ≡ c
              → assign (assign (assign table fd x) 1 x) fd none g ≡ assign table 1 x g
          at g true true e d = absurd (o (ground (arith, free)))
          at g true false e d = ground (arith, free)
          at g false c e d = ground arith
