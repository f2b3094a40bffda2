-- ===== src/Supervisor/Threads/Starts.antt =====
-- hoststack_supervisor.cpp: what a supervisor asks the service for.
use hoststack.Prelude.{
  subst, sym, ◌+◌, ◌≤◌, length, length-append, All, All-append, arith, ◌≡◌, refl, ◌⊎◌, inl, inr,
  true, Option, none, some, List, [], ◌∷◌, ◌++◌, Bool-cases, int_eq,
}
use hoststack.Prelude.Text.{Text}
use hoststack.Outcome.{Outcome, ok, exits, undefined}
use hoststack.Info.{ContainerInfo, container_running}
use hoststack.Json.{Json}
use hoststack.Strings.Trim.{blanks}
use hoststack.Strings.Split.{str_split}
use hoststack.Dao.{DataFile, get_container_by_id, change_status_to_stop}
use hoststack.Service.{Processes, env_of, find_container}
use hoststack.Cli.{World, Call}
use hoststack.Cli.Run.{start_container, start_found, start_split}
use hoststack.Supervisor.{is_dead, restart_found, run_checkandrestart}
use hoststack.Supervisor.Threads.{Supervision, Step, round, look, elsewhere, Reach, here, next}

-- A start of a container on no terminal.
abbrev pub IsDetachedStart : Call → Type 0
IsDetachedStart (Call.start opt) = opt.detach ≡ true
IsDetachedStart Call.create_repo = ⊥
IsDetachedStart (Call.create id) = ⊥
IsDetachedStart (Call.exec opt) = ⊥
IsDetachedStart (Call.attach id) = ⊥

module _ (json : Json) (procs : Processes) where
  -- At most one call more, and that is such a start.
  abbrev Adds : List Call → Outcome (World json procs) → Type 0
  Adds calls (ok v) =
      (v.calls ≡ calls) ⊎ ((c : Call) × (v.calls ≡ calls ++ c ∷ []) × IsDetachedStart c)
  Adds calls (exits n v) = Unit
  Adds calls undefined = Unit

  start_split-Adds :
      (info : ContainerInfo) (o : Option (Option (List Text))) (w : World json procs)
      → Adds w.calls (start_split json procs true info o w)
  start_split-Adds info none w = tt
  start_split-Adds info (some none) w = tt
  start_split-Adds info (some (some cmd)) w = inr (_, refl, refl)

  start_found-Adds :
      (info : Option ContainerInfo) (w : World json procs)
      → Adds w.calls (start_found json procs true info w)
  start_found-Adds none w = inl refl
  start_found-Adds (some info) w = elim (Bool-cases (int_eq info.status container_running)) [
    | inl e ↦ rw e (inl refl)
    | inr e ↦ rw e (start_split-Adds info (str_split (some info.command) blanks) w)
  ]

  start_container-Adds :
      (id : Text) (w : World json procs) → Adds w.calls (start_container json procs true id w)
  unfolding start_container
  start_container-Adds id w =
      start_found-Adds (find_container json procs id w.host).0
        (record w { host = (find_container json procs id w.host).1 })

  restarted-Adds :
      (id : Text) (w : World json procs) (o : Option (DataFile json))
      → Adds w.calls (elim o as (λ _. Outcome (World json procs)) [
        | none ↦ undefined
        | some file ↦
            start_container json procs true id (record w { host = record (w.host) { file = file } })
      ])
  restarted-Adds id w none = tt
  restarted-Adds id w (some file) =
      start_container-Adds id (record w { host = record (w.host) { file = file } })

  restart_found-Adds :
      (info : Option ContainerInfo) (w : World json procs)
      → Adds w.calls (restart_found json procs info w)
  restart_found-Adds none w = tt
  restart_found-Adds (some info) w = elim (Bool-cases (is_dead json procs w.host.state info)) [
    | inl e ↦ rw e (
        restarted-Adds info.id w
          (change_status_to_stop json (env_of json procs w.host.state) info.id w.host.file))
    | inr e ↦ rw e (inl refl)
  ]

  run_checkandrestart-Adds :
      (id : Text) (w : World json procs) → Adds w.calls (run_checkandrestart json procs id w)
  unfolding run_checkandrestart
  run_checkandrestart-Adds id w = restart_found-Adds (get_container_by_id json id w.host.file) w

  -- Every call is a detached start, and no thread has made more than one.
  abbrev pub Asks : Supervision json procs → Type 0
  Asks s =
      All IsDetachedStart s.world.calls
      × (length s.world.calls + length s.threads ≤ length s.created)

  looked-Asks :
      (w v : World json procs) (before after all : List Text) (id : Text)
      → Asks (record { world = w; threads = before ++ id ∷ after; created = all })
      → Adds w.calls (ok v)
      → Asks (record { world = v; threads = before ++ after; created = all })
  looked-Asks w v before after all id (h, n) (inl e) = (
    subst (All IsDetachedStart) (sym e) h,
    subst (λ c. length c + length (before ++ after) ≤ length all) (sym e)
        (omega (arith, n, length-append before (id ∷ after), length-append before after)),
  )
  looked-Asks w v before after all id (h, n) (inr (c, e, i)) = (
    subst (All IsDetachedStart) (sym e) (All-append IsDetachedStart w.calls (c ∷ []) h (i, tt)),
    subst (λ x. length x + length (before ++ after) ≤ length all) (sym e)
        (omega (
          arith,
          n,
          length-append before (id ∷ after),
          length-append before after,
          length-append w.calls (c ∷ []),
        )),
  )

  Step-Asks : {s t : Supervision json procs} → Step json procs s t → Asks s → Asks t
  Step-Asks (round w ts all ids e) (h, n) =
      (h, omega (arith, n, length-append ts ids, length-append all ids))
  Step-Asks (look w v before after all id e) a =
      looked-Asks w v before after all id a (subst (Adds w.calls) e (run_checkandrestart-Adds id w))
  Step-Asks (elsewhere w ts all host) a = a

  -- However the rounds of a supervisor, its threads and other programs follow one another, the
  -- supervisor only asks the service to start containers, detached from its terminal, and at most once
  -- for each thread that a round has created, if that was so before.
  pub Reach-Asks : {s t : Supervision json procs} → Reach json procs s t → Asks s → Asks t
  Reach-Asks here a = a
  Reach-Asks (next r step) a = Step-Asks step (Reach-Asks r a)
