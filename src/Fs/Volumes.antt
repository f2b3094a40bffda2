-- ===== src/Fs/Volumes.antt =====
-- util/container_fs.cpp: the volumes of a container, and its directories.
pub mod Bound
pub mod Exits
use hoststack.Prelude.{Option, none, some, List, [], ◌∷◌, ◌++◌, if◌then◌else◌, ◌==◌, Bool, false}
use hoststack.Prelude.Text.{Text, codes}
use hoststack.Libc.{strtok}
use hoststack.Outcome.{Outcome, ok, exits, undefined, ◌>>=◌}
use hoststack.Paths.{hoststack_repo, get_union_fs, get_diff_dir, get_work_dir, get_merged_dir}
use hoststack.Strings.Join.{path_join}
use hoststack.Kernel.{Mount, Kernel}
use hoststack.Fs.{Host, make_dir, log_error, mount_or_exit, umount_or_log, umount_dirs}

abbrev pub colon : Text
colon = codes ":"

abbrev pub is_absolute : Text → Bool
is_absolute [] = false
is_absolute (c ∷ path) = c == 47

abbrev pub volume_mount : Text → Text → Mount
volume_mount src dest = record {
  source = src;
  target = dest;
  fstype = codes "none";
  options = codes "bind";
}

module _ (kernel : Kernel) where
  -- A failing path_join writes past its buffer.
  abbrev pub bind_at : Text → Option (Option Text) → Host kernel → Outcome (Host kernel)
  bind_at src none h = undefined
  bind_at src (some none) h = undefined
  bind_at src (some (some dest)) h =
      mount_or_exit kernel (volume_mount src dest) (make_dir kernel dest (make_dir kernel src h))

  unfoldable pub bind_mount : Text → Text → Text → Host kernel → Outcome (Host kernel)
  bind_mount id src dest h = bind_at src (path_join (some (get_merged_dir id)) (dest ∷ [])) h

  -- A relative path is logged after the string that holds it was freed.
  abbrev pub mount_dest : Text → Text → Option (Text × Text) → Host kernel → Outcome (Host kernel)
  mount_dest id src none h = ok (log_error kernel (codes "param volume format err.") h)
  mount_dest id src (some (dest, rest)) h =
      let bound = bind_mount id src dest h in if is_absolute dest then bound else undefined

  abbrev pub mount_src : Text → Option (Text × Text) → Host kernel → Outcome (Host kernel)
  mount_src id none h = ok (log_error kernel (codes "param volume format err.") h)
  mount_src id (some (src, rest)) h =
      let mounted = mount_dest id src (strtok colon rest) h in
      if is_absolute src then mounted else undefined

  unfoldable pub mount_volume : Text → Text → Host kernel → Outcome (Host kernel)
  unfolding bind_mount
  mount_volume id volume h = mount_src id (strtok colon volume) h

  unfoldable pub mount_volume_list : Text → List Text → Host kernel → Outcome (Host kernel)
  mount_volume_list id [] h = ok h
  mount_volume_list id (v ∷ vs) h = mount_volume id v h >>= mount_volume_list id vs

  abbrev pub umount_at : Option (Option Text) → Host kernel → Outcome (Host kernel)
  umount_at none h = undefined
  umount_at (some none) h = undefined
  umount_at (some (some target)) h = ok (umount_or_log kernel target h)

  -- Here a relative path is only reported.
  abbrev pub umount_dest : Text → Option (Text × Text) → Host kernel → Outcome (Host kernel)
  umount_dest id none h = ok (log_error kernel (codes "param volume format err.") h)
  umount_dest id (some (dest, rest)) h =
      let h' = if is_absolute dest then h else log_error kernel (codes "invalid umount path") h in
      umount_at (path_join (some (get_merged_dir id)) (dest ∷ [])) h'

  abbrev pub umount_src : Text → Option (Text × Text) → Host kernel → Outcome (Host kernel)
  umount_src id none h = ok (log_error kernel (codes "param volume format err.") h)
  umount_src id (some (src, rest)) h =
      let h' = if is_absolute src then h else log_error kernel (codes "invalid umount path") h in
      umount_dest id (strtok colon rest) h'

  unfoldable pub umount_volume : Text → Text → Host kernel → Outcome (Host kernel)
  umount_volume id volume h = umount_src id (strtok colon volume) h

  -- The volumes of the container, which the code looks up in the data file.
  unfoldable pub umount_volume_list : Text → List Text → Host kernel → Outcome (Host kernel)
  umount_volume_list id [] h = ok h
  umount_volume_list id (v ∷ vs) h = umount_volume id v h >>= umount_volume_list id vs

  unfoldable pub umount_container : Text → List Text → Host kernel → Outcome (Host kernel)
  unfolding umount_volume_list
  umount_container id volumes h = umount_dirs kernel id h >>= umount_volume_list id volumes

  abbrev make_dirs : List Text → Host kernel → Host kernel
  make_dirs [] h = h
  make_dirs (path ∷ paths) h = make_dirs paths (make_dir kernel path h)

  unfoldable pub create_repo : Host kernel → Host kernel
  unfolding get_union_fs
  create_repo h = make_dirs ((hoststack_repo ++ codes "/containers") ∷ get_union_fs ∷ []) h

  abbrev merged_dirs : Text → List Text → List Text
  merged_dirs id [] = []
  merged_dirs id (dir ∷ dirs) = (get_merged_dir id ++ (codes "/" ++ dir)) ∷ merged_dirs id dirs

  abbrev fslist : List Text
  fslist =
      codes "bin"
      ∷ codes "dev/pts"
      ∷ codes "dev/shm"
      ∷ codes "etc"
      ∷ codes "home"
      ∷ codes "lib"
      ∷ codes "lib64"
      ∷ codes "mnt"
      ∷ codes "opt"
      ∷ codes "proc"
      ∷ codes "root"
      ∷ codes "run"
      ∷ codes "sbin"
      ∷ codes "sys"
      ∷ codes "tmp"
      ∷ codes "usr"
      ∷ codes "var"
      ∷ []

  unfoldable pub create_container : Text → Host kernel → Host kernel
  create_container id h =
      make_dirs
        ((hoststack_repo ++ (codes "/containers/" ++ id))
          ∷ get_diff_dir id
          ∷ get_work_dir id
          ∷ get_merged_dir id
          ∷ merged_dirs id fslist)
        h
