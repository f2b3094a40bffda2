-- ===== src/Supervisor.antt =====
-- hoststack_supervisor.cpp: which containers a round of the supervisor restarts.
pub mod Restarts
pub mod Revives
pub mod Threads
use hoststack.Prelude.{
  Bool, true, false, not, ◌&&◌, Option, none, some, List, [], ◌∷◌, if◌then◌else◌, int_eq,
}
use hoststack.Prelude.Text.{Text}
use hoststack.Outcome.{Outcome, ok, undefined}
use hoststack.Info.{ContainerInfo, container_running}
use hoststack.Json.{Json}
use hoststack.Dao.{list, get_container_by_id, change_status_to_stop}
use hoststack.Service.{Processes, env_of}
use hoststack.Cli.{World}
use hoststack.Cli.Run.{start_container}

module _ (json : Json) (procs : Processes) where
  -- The test of run_checkandrestart: a container that says running without a process.
  unfoldable pub is_dead : procs.State → ContainerInfo → Bool
  is_dead s info = int_eq info.status container_running && not (procs.alive info.pid s)

  abbrev dead_ids : procs.State → List ContainerInfo → List Text
  dead_ids s [] = []
  dead_ids s (info ∷ infos) =
      let rest = dead_ids s infos in
      if int_eq info.status container_running && not (procs.alive info.pid s)
      then info.id ∷ rest
      else rest

  -- The body of the loop of main: a thread for each dead container, or the null pointer that list
  -- returns for a file without containers, which is dereferenced.
  unfoldable pub supervise : World json procs → Outcome (List Text)
  supervise w = elim (list json w.host.file) [
    | none ↦ undefined
    | some infos ↦ ok (dead_ids w.host.state infos)
  ]

  -- run_checkandrestart, after its sleep.
  abbrev pub restart_found : Option ContainerInfo → World json procs → Outcome (World json procs)
  restart_found none w = undefined
  restart_found (some info) w =
      let restarted =
        elim (change_status_to_stop json (env_of json procs w.host.state) info.id w.host.file)
          as (λ _. Outcome (World json procs)) [
            | none ↦ undefined
            | some file ↦
                start_container json procs true info.id
                  (record w { host = record (w.host) { file = file } })
          ] in
      if is_dead w.host.state info then restarted else ok w

  unfoldable pub run_checkandrestart : Text → World json procs → Outcome (World json procs)
  unfolding is_dead
  run_checkandrestart id w = restart_found (get_container_by_id json id w.host.file) w
