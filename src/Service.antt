-- ===== src/Service.antt =====
-- util/container_service.cpp: what ContainerService stops, and the container directories that
-- util/container_fs.cpp removes. Processes, time and the shell are an interface.
pub mod Stops
pub mod Table
pub mod Namespaces
use hoststack.Prelude.{
  ℕ, Bool, true, false, Option, none, some, List, [], ◌∷◌, ◌++◌, ◌≡◌, if◌then◌else◌, ℤ, int_eq,
}
use hoststack.Prelude.Text.{Text, codes}
use hoststack.Info.{ContainerInfo, container_running}
use hoststack.Json.{Json}
use hoststack.Paths.{hoststack_repo, get_layer_dir}
use hoststack.Dao.{Env, DataFile, get_container_by_id_or_name}

pub data Signal : Type 0 where
  sigterm : Signal
  sigkill : Signal

pub record Processes : Type 1 where
  pub State : Type 0
  pub now : State → ℤ
  -- access("/proc/PID", F_OK) == 0
  pub alive : ℤ → State → Bool
  -- `none` is -1.
  pub kill : Signal → ℤ → State → Option State
  pub sleep : ℕ → State → State
  -- system("sudo rm -rf PATH"), and whether its result is 0.
  pub remove : Text → State → Bool × State
  -- The signals that were sent, in order.
  pub sent : State → List (Signal × ℤ)
  pub sent-kill :
      (g : Signal) (pid : ℤ) (s t : State)
      → kill g pid s ≡ some t
      → sent t ≡ sent s ++ (g, pid) ∷ []
  pub sent-sleep : (n : ℕ) (s : State) → sent (sleep n s) ≡ sent s
  pub sent-remove : (path : Text) (s : State) → sent (remove path s).1 ≡ sent s

module _ (json : Json) (procs : Processes) where
  pub record Host : Type 0 where
    pub file : DataFile json
    pub state : procs.State

  abbrev pub env_of : procs.State → Env
  env_of s = record { now = procs.now s; alive = λ pid. procs.alive pid s }

  abbrev pub find_container : Text → Host → Option ContainerInfo × Host
  find_container name h =
      let (info, file) = get_container_by_id_or_name json (env_of h.state) name h.file in
      (info, record h { file = file })

  -- A failing kill ends the attempt.
  abbrev pub kill_or_log : Signal → ℤ → procs.State → Bool × procs.State
  kill_or_log g pid s = elim (procs.kill g pid s) [ none ↦ (false, s) | some t ↦ (true, t) ]

  unfoldable pub terminate : ℤ → procs.State → procs.State
  terminate pid s =
      let (ok, t) = kill_or_log sigterm pid s in
      let u = (kill_or_log sigkill pid (procs.sleep 3 t)).1 in if ok then u else t

  -- The messages that are printed are left out.
  unfoldable pub stop_found : Option ContainerInfo → Host → Host
  unfolding terminate
  stop_found none h = h
  stop_found (some info) h =
      if int_eq info.status container_running
      then record h { state = terminate info.pid h.state }
      else h

  unfoldable pub stop : Text → Host → Host
  unfolding stop_found
  stop name h = let (info, h') = find_container name h in stop_found info h'

  -- ContainerFs::remove_container, and whether it returned 0.
  unfoldable pub remove_container : Text → procs.State → Bool × procs.State
  remove_container id s =
      let (ok, t) = procs.remove (hoststack_repo ++ (codes "/containers/" ++ id)) s in
      let last = procs.remove (get_layer_dir id) t in if ok then last else (false, t)
