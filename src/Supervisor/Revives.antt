-- ===== src/Supervisor/Revives.antt =====
-- hoststack_supervisor.cpp: what a thread of the supervisor does for its container, through
-- change_status_to_stop and ContainerStartCli::startContainer.
use mathlib.Core.Option
use hoststack.Prelude.{
  ◌≡◌, refl, ap, ◌∙◌, inl, inr, Bool, true, false, Option, none, some, List, [], ◌∷◌, ◌++◌,
  Bool-cases, no_some, same_some, pos,
}
use hoststack.Prelude.First.{find_first, map_first}
use hoststack.Prelude.Text.{Text, text_eq, text_eq_refl}
use hoststack.Outcome.{Outcome, ok, exits, undefined}
use hoststack.Info.{ContainerInfo, container_stoped}
use hoststack.Json.{Json}
use hoststack.Strings.Split.{str_split}
use hoststack.Dao.{Env, DataFile, change_status_to_stop, get_container_by_id_or_name}
use hoststack.Dao.Records.{stored}
use hoststack.Dao.Loops.{registry}
use hoststack.Dao.Registry.{
  has_id, has_id_or_name, heal, get_container_by_id-eq-find, find-map_first-heal,
  get_container_by_id_or_name-Healed,
}
use hoststack.Dao.Stop.{stoped, registry-change_status_to_stop}
use hoststack.Service.{Processes, env_of}
use hoststack.Cli.{World, Call}
use hoststack.Strings.Trim.{blanks}
use hoststack.Cli.Run.{start_container, start_found}
use hoststack.Supervisor.{is_dead, run_checkandrestart}

-- The search by id or name finds what was put in the place of the container with the id.
replaced_found :
    (x : Text) (cs : List ContainerInfo) (c d : ContainerInfo)
    → find_first (has_id_or_name x) cs ≡ some c
    → text_eq c.id x ≡ true
    → text_eq d.id x ≡ true
    → find_first (has_id_or_name x) (map_first (has_id x) (λ _. d) cs) ≡ some d
replaced_found x [] c d h i j = absurd (no_some h)
replaced_found x (y ∷ cs) c d h i j = elim (Bool-cases (text_eq y.id x)) [
  | inl e ↦ elim (Bool-cases (text_eq d.name x)) [
    | inl n ↦ rw e (rw n refl)
    | inr n ↦ rw e (rw (n, j) refl)
  ]
  | inr e ↦ elim (Bool-cases (text_eq y.name x)) [
    | inl n ↦ absurd (clash (rw n at h) e i)
    | inr n ↦ rw e (rw (n, e) (replaced_found x cs c d (rw (n, e) at h) i j))
  ]
]
  where
    clash : some y ≡ some c → text_eq y.id x ≡ false → text_eq c.id x ≡ true → ⊥
    clash h e i = cc

-- The record that the file holds after change_status_to_stop.
abbrev after_stop : Env → ContainerInfo → ContainerInfo
after_stop env c = stored (stoped env (record c { status = container_stoped; pid = pos 0 }))

module _ (json : Json) (procs : Processes) where
  -- What a thread leaves: nothing has changed for a container that is not dead; the service is asked
  -- once to start a dead one, detached and with its own command and volumes, and no process has
  -- changed.
  abbrev pub Revives :
      Bool → ContainerInfo → List Text → World json procs → Outcome (World json procs) → Type 0
  Revives false c cmd w o = o ≡ ok w
  Revives true c cmd w (ok v) =
      (v.calls
        ≡ w.calls
          ++ Call.start (record {
            container_id = c.id;
            cmd = cmd;
            detach = true;
            volume_list = c.volume_list;
          })
            ∷ [])
      × (v.host.state ≡ w.host.state)
  Revives true c cmd w (exits n v) = ⊥
  Revives true c cmd w undefined = ⊥

  abbrev on_file : DataFile json → World json procs → World json procs
  on_file file w = record w { host = record (w.host) { file = file } }

  started :
      (c : ContainerInfo) (cmd : List Text) (w : World json procs) (file : DataFile json)
      → find_first (has_id_or_name c.id) (registry json file)
        ≡ some (after_stop (env_of json procs w.host.state) c)
      → str_split (some c.command) blanks ≡ some (some cmd)
      → Revives true c cmd w (start_container json procs true c.id (on_file file w))
  unfolding start_container
  started c cmd w file h e = go (get_container_by_id_or_name json env c.id file) (
      (get_container_by_id_or_name-Healed json env c.id file).0
      ∙ find-map_first-heal json env c.id (registry json file)
      ∙ ap (λ o. elim o as (λ _. Option ContainerInfo) [ none ↦ none | some d ↦ some (heal env d) ])
          h)
    where
      env : Env
      env = env_of json procs w.host.state

      go :
          (r : Option ContainerInfo × DataFile json)
          → r.0 ≡ some (after_stop env c)
          → Revives true c cmd w
              (start_found json procs true r.0 (record w { host = record (w.host) { file = r.1 } }))
      go (info, file') f = rw f (rw e (refl, refl))

  dead_healed :
      (w : World json procs) (c : ContainerInfo)
      → is_dead json procs w.host.state c ≡ true
      → heal (env_of json procs w.host.state) c
        ≡ record c { status = container_stoped; pid = pos 0 }
  unfolding is_dead
  dead_healed w c e = rw e refl

  revived :
      (c : ContainerInfo) (cmd : List Text) (w : World json procs)
      → find_first (has_id_or_name c.id) (registry json w.host.file) ≡ some c
      → is_dead json procs w.host.state c ≡ true
      → str_split (some c.command) blanks ≡ some (some cmd)
      → Revives true c cmd w
          (elim (change_status_to_stop json (env_of json procs w.host.state) c.id w.host.file)
            as (λ _. Outcome (World json procs)) [
              | none ↦ undefined
              | some file ↦ start_container json procs true c.id (on_file file w)
            ])
  revived c cmd w h d e = go (change_status_to_stop json env c.id w.host.file) (
      registry-change_status_to_stop json env c.id w.host.file
      ∙ ap
          (λ o. elim o as (λ _. Option (List ContainerInfo)) [
            | none ↦ none
            | some x ↦ some (map_first (has_id x.id) (λ _. stored (stoped env x)) healed)
          ])
          found)
    where
      env : Env
      env = env_of json procs w.host.state

      healed : List ContainerInfo
      healed = map_first (has_id_or_name c.id) (heal env) (registry json w.host.file)

      found :
          find_first (has_id_or_name c.id) healed
          ≡ some (record c { status = container_stoped; pid = pos 0 })
      found =
          find-map_first-heal json env c.id (registry json w.host.file)
          ∙ ap
              (λ o. elim o as (λ _. Option ContainerInfo) [
                | none ↦ none
                | some x ↦ some (heal env x)
              ])
              h
          ∙ ap some (dead_healed w c d)

      go :
          (o : Option (DataFile json))
          → Option.map (registry json) o
            ≡ some (map_first (has_id c.id) (λ _. after_stop env c) healed)
          → Revives true c cmd w (elim o as (λ _. Outcome (World json procs)) [
            | none ↦ undefined
            | some file ↦ start_container json procs true c.id (on_file file w)
          ])
      go none f = absurd (no_some f)
      go (some file) f =
          started c cmd w file
            (ap (find_first (has_id_or_name c.id)) (same_some f)
              ∙ replaced_found c.id healed _ (after_stop env c) found (text_eq_refl c.id)
                  (text_eq_refl c.id))
            e

  -- A thread of the supervisor, for a container whose identifier is no other one's identifier or name
  -- and whose command is stored as words, asks the service exactly once to start it, if its record says
  -- running and its process is gone when the thread looks: detached, with its own command and volumes.
  -- Otherwise the thread changes nothing.
  pub run_checkandrestart-Revives :
      (c : ContainerInfo) (cmd : List Text) (w : World json procs)
      → find_first (has_id c.id) (registry json w.host.file) ≡ some c
      → find_first (has_id_or_name c.id) (registry json w.host.file) ≡ some c
      → str_split (some c.command) blanks ≡ some (some cmd)
      → Revives (is_dead json procs w.host.state c) c cmd w (run_checkandrestart json procs c.id w)
  unfolding run_checkandrestart
  run_checkandrestart-Revives c cmd w i h e =
      rw (get_container_by_id-eq-find json c.id w.host.file, i)
        (elim (Bool-cases (is_dead json procs w.host.state c)) [
          | inl d ↦ rw d (revived c cmd w h d e)
          | inr d ↦ rw d refl
        ])
