-- ===== src/Cli/Exec/Enters.antt =====
-- cli/container_exec_cli.cpp: which processes exec enters.
use hoststack.Prelude.{
  ℕ, subst, ◌≡◌, refl, sym, ◌∙◌, ◌⊎◌, inl, inr, Bool, true, false, Option, none, some, List, [],
  ◌∷◌, ◌++◌, Bool-cases, int_eq, if◌then◌else◌, same_some,
}
use hoststack.Prelude.First.{find_first, map_first}
use hoststack.Prelude.Text.{Text, codes}
use hoststack.Outcome.{Outcome, ok, exits, undefined}
use hoststack.Getopt.{Options, has_option}
use hoststack.Info.{ContainerInfo, container_running}
use hoststack.Json.{Json}
use hoststack.Dao.{DataFile, Env}
use hoststack.Dao.Loops.{registry}
use hoststack.Dao.Registry.{
  Healed, has_id_or_name, heal, find-map_first-heal, get_container_by_id_or_name-Healed,
}
use hoststack.Service.{Processes, env_of}
use hoststack.Getopt.{getopt_long}
use hoststack.Cli.{flag, World, Call, ExecOption, asks_help, with_host}
use hoststack.Cli.Exec.{is_short, exec_command, exec_parsed, exec_found}

-- A container that a search corrects and that then runs has its process.
heal_alive :
    (env : Env) (c : ContainerInfo)
    → int_eq (heal env c).status container_running ≡ true
    → env.alive (heal env c).pid ≡ true
heal_alive env c e = elim (Bool-cases (int_eq c.status container_running)) [
  | inl s ↦ elim (Bool-cases (env.alive c.pid)) [
    | inl l ↦ rw (s, l) l
    | inr l ↦ cc (rw (s, l) at e)
  ]
  | inr s ↦ cc (s, rw s at e)
]

module _ (json : Json) where
  find_alive :
      (env : Env) (value : Text) (cs : List ContainerInfo) (c : ContainerInfo)
      → find_first (has_id_or_name value) (map_first (has_id_or_name value) (heal env) cs) ≡ some c
      → int_eq c.status container_running ≡ true
      → env.alive c.pid ≡ true
  find_alive env value cs c h e =
      go (find_first (has_id_or_name value) cs) (sym (find-map_first-heal json env value cs) ∙ h)
    where
      go :
          (o : Option ContainerInfo)
          → (elim o [ none ↦ none | some d ↦ some (heal env d) ]) ≡ some c
          → env.alive c.pid ≡ true
      go none f = cc
      go (some d) f =
          subst (λ x. int_eq x.status container_running ≡ true → env.alive x.pid ≡ true)
            (same_some f) (heal_alive env d) e

module _ (json : Json) (procs : Processes) where
  -- What the option parser makes of the arguments.
  abbrev pub parsed : List Text → Option Options
  parsed args = getopt_long true (flag (codes "detach") 100 ∷ []) args

  -- The call is of a running container that the search for the first argument has found, as the
  -- search corrects it, and its process is there.
  abbrev pub CallsExec : List Text → World json procs → ExecOption → Type 0
  CallsExec args w o =
      (os : List (ℕ × Text)) × (name a : Text) × (cmd : List Text) × (c : ContainerInfo) × (parsed
          args
        ≡ some (os, name ∷ a ∷ cmd))
      × (find_first (has_id_or_name name) (
            map_first (has_id_or_name name) (heal (env_of json procs w.host.state))
              (registry json w.host.file))
          ≡ some c)
      × (int_eq c.status container_running ≡ true)
      × (o.container_pid ≡ c.pid)
      × (procs.alive c.pid w.host.state ≡ true)

  -- The world after a call of exec has the calls of before, or one more. The search may have corrected
  -- the file; no process is touched. Only an option that the parser does not know ends the program.
  abbrev pub Enters : List Text → World json procs → Outcome (World json procs) → Type 0
  Enters args w undefined = ⊥
  Enters args w (exits n w') =
      (w' ≡ w) × (asks_help args ≡ false) × (is_short args ≡ false) × (parsed args ≡ none)
  Enters args w (ok w') =
      (w'.host.state ≡ w.host.state)
      × ((w'.calls ≡ w.calls)
          ⊎ ((o : ExecOption) × (w'.calls ≡ w.calls ++ Call.exec o ∷ []) × CallsExec args w o))

  found-Enters :
      (args : List Text) (os : List (ℕ × Text)) (name a : Text) (cmd : List Text)
      (w : World json procs) (r : Option ContainerInfo × DataFile json)
      → parsed args ≡ some (os, name ∷ a ∷ cmd)
      → Healed json (env_of json procs w.host.state) name (registry json w.host.file) r
      → let (info, file) = r in
        Enters args w (
          ok (
            exec_found json procs
              (has_option 100 os)
              (a ∷ cmd)
              info
              (with_host json procs w (record (w.host) { file = file }))))
  found-Enters args os name a cmd w (none, file) p (f, k) = (refl, inl refl)
  found-Enters args os name a cmd w (some c, file) p (f, k) =
      elim (Bool-cases (int_eq c.status container_running)) [
        | inl e ↦ rw e (
          refl,
          inr (
            _,
            refl,
            (
              os,
              name,
              a,
              cmd,
              c,
              p,
              sym f,
              e,
              refl,
              find_alive json (env_of json procs w.host.state) name _ c (sym f) e,
            ),
          ),
        )
        | inr e ↦ rw e (refl, inl refl)
      ]

  parsed-Enters :
      (args : List Text) (o : Option Options) (w : World json procs)
      → asks_help args ≡ false
      → is_short args ≡ false
      → parsed args ≡ o
      → Enters args w (exec_parsed json procs o w)
  parsed-Enters args none w h i e = (refl, h, i, e)
  parsed-Enters args (some (os, [])) w h i e = (refl, inl refl)
  parsed-Enters args (some (os, name ∷ [])) w h i e = (refl, inl refl)
  parsed-Enters args (some (os, name ∷ a ∷ cmd)) w h i e =
      found-Enters args os name a cmd w _ e
        (get_container_by_id_or_name-Healed json (env_of json procs w.host.state) name w.host.file)

  unless :
      (args : List Text) (b : Bool) (w : World json procs) (o : Outcome (World json procs))
      → (b ≡ false → Enters args w o)
      → Enters args w (if b then ok w else o)
  unless args true w o h = (refl, inl refl)
  unless args false w o h = h refl

  -- The exec command, whatever its arguments, calls ContainerService::exec at most once, and only
  -- with the process of the container that the search for its first argument finds, which is running
  -- and whose process exists; it changes no process itself, and ends the program only at an unknown
  -- option.
  pub exec_command-Enters :
      (args : List Text) (w : World json procs) → Enters args w (exec_command json procs args w)
  unfolding exec_command
  exec_command-Enters args w = unless args (asks_help args) w _ (λ h.
      unless args (is_short args) w (exec_parsed json procs (parsed args) w)
        (λ i. parsed-Enters args (parsed args) w h i refl))
