-- ===== src/Launch/Run.antt =====
-- pty/pty_exec_util.cpp: pty_run_container, after the container's process was cloned and its record
-- saved: the socket, the rounds of the loop, and what is cleared away after them. util/container_fs.cpp:
-- umount_container, with the volumes that it looks up in the data file.
pub mod Cleared
pub mod Clears
use hoststack.Prelude.{
  ℕ, List, ◌&&◌, ◌≡◌, ◌≤◌, Bool, true, false, Option, none, some, if◌then◌else◌, ◌==◌, replicate,
}
use hoststack.Prelude.Text.{Text}
use hoststack.Outcome.{Outcome, ok, exits, undefined, ◌>>=◌}
use hoststack.Io.{Io}
use hoststack.Info.{ContainerInfo}
use hoststack.Json.{Json}
use hoststack.Kernel.{Kernel}
use hoststack.Fs.{Host, mount_container}
use hoststack.Fs.Volumes.{umount_container, mount_volume_list}
use hoststack.Dao.{Env, DataFile, get_container_by_id_or_name, change_status_to_stop}
use hoststack.Pool.{Pool, fd_setsize, init_pool}
use hoststack.Pool.Serve.{Waiting, serve_rounds}
use hoststack.Relay.{Progress, going, ended, exited}
use hoststack.Pty.{Child, replaced, returned}
use hoststack.Relay.Session.{socket_path}
use hoststack.Launch.{sem_set}

-- The calls on the socket, the semctl of SemUtil::set, and the wait for the child; `none` and `false`
-- are -1.
pub record Listening (io : Io) : Type 0 where
  pub socket : io.State → Option ℕ × io.State
  pub exists : Text → io.State → Bool
  pub unlink : Text → io.State → io.State
  pub bind : ℕ → Text → io.State → Bool × io.State
  pub listen : ℕ → io.State → Bool × io.State
  pub sets : io.State → Bool
  pub wait : io.State → ℕ × io.State
  pub socket_patience : (s : io.State) → io.patience (socket s).1 ≤ io.patience s
  pub unlink_patience : (path : Text) (s : io.State) → io.patience (unlink path s) ≤ io.patience s
  pub bind_patience :
      (fd : ℕ) (path : Text) (s : io.State) → io.patience (bind fd path s).1 ≤ io.patience s
  pub listen_patience : (fd : ℕ) (s : io.State) → io.patience (listen fd s).1 ≤ io.patience s

-- A static variable holds zeros.
abbrev pub static_pool : Pool
static_pool = record {
  maxfd = 0;
  read_set = λ fd. false;
  ready_set = λ fd. false;
  nready = 0;
  clients = 0;
  clientfd = replicate fd_setsize (some 0);
  masterfd = 0;
}

module _ (io : Io) (kernel : Kernel) (json : Json) where
  pub record World : Type 0 where
    pub state : io.State
    pub host : Host kernel
    pub file : DataFile json
    pub sem : ℕ

  -- The function that the cloned process runs: the mounts, the root, and the command.
  abbrev pub mounted_volumes : Text → Option (List Text) → Host kernel → Outcome (Host kernel)
  mounted_volumes id none h = ok h
  mounted_volumes id (some volumes) h = mount_volume_list kernel id volumes h

  -- A failing chdir or chroot is logged, and the command runs all the same. execvp returns where it
  -- fails.
  abbrev pub exec_child : (chdir chroot execvp : Bool) → List Text → Child
  exec_child chdir chroot true cmd = replaced (chdir && chroot) cmd
  exec_child chdir chroot false cmd = returned 1

  abbrev pub rooted_child : Child → Outcome (Host kernel) → Outcome (Host kernel × Child)
  rooted_child child (ok h) = ok (h, child)
  rooted_child child (exits n h) = exits n (h, returned n)
  rooted_child child undefined = undefined

  unfoldable pub container_child :
      Text
      → Option (List Text)
      → List Text
      → (chdir chroot execvp : Bool) → Host kernel
      → Outcome (Host kernel × Child)
  container_child id volumes cmd chdir chroot execvp h =
      rooted_child (exec_child chdir chroot execvp cmd)
        (mount_container kernel id h >>= mounted_volumes id volumes)

  -- umount_volume_list dereferences what the search returns. Its reference to the volumes outlives
  -- the optional that holds them, and is read here as it was.
  abbrev pub umount_found : Text → Option ContainerInfo → Host kernel → Outcome (Host kernel)
  umount_found id none h = undefined
  umount_found id (some info) h = umount_container kernel id info.volume_list h

  abbrev pub marked : World → Option (DataFile json) → Progress World
  marked w none = Progress.undefined
  marked w (some file) = ended (record w { file = file })

  abbrev pub unmounted : Env → Text → World → Outcome (Host kernel) → Progress World
  unmounted env id w (ok h) =
      marked (record w { host = h }) (change_status_to_stop json env id w.file)
  unmounted env id w (exits n h) = exited (record w { host = h })
  unmounted env id w undefined = Progress.undefined

  -- umount_container, and change_status_to_stop.
  unfoldable pub clear_away : Env → Text → World → Progress World
  clear_away env id w =
      let (info, file) = get_container_by_id_or_name json env id w.file in
      unmounted env id (record w { file = file }) (umount_found id info w.host)

  module _ (waiting : Waiting io) (listening : Listening io) (tries : ℕ) where
    module _ (env : Env) (id header : Text) (masterfd child : ℕ) where
      -- The assertion aborts, if another process than the container's has ended.
      abbrev pub waited : World → ℕ × io.State → Progress World
      waited w (exit_child, s) =
          let cleared = clear_away env id (record w { state = s }) in
          if exit_child == child then cleared else exited (record w { state = s })

      abbrev pub served : World → Option (Bool × (Pool × io.State)) → Option (Progress World)
      served w none = none
      served w (some (false, (p, s))) = some (going (record w { state = s }))
      served w (some (true, (p, s))) = some (waited w (listening.wait s))

      -- The result of SemUtil::set is not looked at.
      abbrev pub after_set : io.State → ℕ → ℕ
      after_set s n = if listening.sets s then sem_set 0 n else n

      abbrev pub listened : ℕ → ℕ → World → Bool × io.State → Option (Progress World)
      listened rounds listenfd w (false, s) = some (exited (record w { state = s }))
      listened rounds listenfd w (true, s) =
          served (record w { state = s; sem = after_set s w.sem })
            (serve_rounds io waiting tries listenfd header rounds
              (init_pool listenfd masterfd static_pool) s)

      abbrev pub bound : ℕ → ℕ → World → Bool × io.State → Option (Progress World)
      bound rounds listenfd w (false, s) = some (exited (record w { state = s }))
      bound rounds listenfd w (true, s) = listened rounds listenfd w (listening.listen listenfd s)

      abbrev pub free_path : Text → io.State → io.State
      free_path path s = if listening.exists path s then listening.unlink path s else s

      abbrev pub opened : ℕ → World → Option ℕ × io.State → Option (Progress World)
      opened rounds w (none, s) = some (exited (record w { state = s }))
      opened rounds w (some listenfd, s) =
          bound rounds listenfd w
            (listening.bind listenfd (socket_path id) (free_path (socket_path id) s))

      -- `none` is the end of the tries of rio_writen.
      unfoldable pub run_server : ℕ → World → Option (Progress World)
      unfolding serve_rounds init_pool socket_path sem_set clear_away
      run_server rounds w = opened rounds w (listening.socket w.state)
