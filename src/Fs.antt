-- ===== src/Fs.antt =====
-- util/container_fs.cpp: the directories that a container mounts.
pub mod Visits
pub mod Balance
pub mod Volumes
use hoststack.Prelude.{
  ℕ, zero, suc, ◌+◌, Option, none, some, List, [], ◌∷◌, ◌++◌, if◌then◌else◌, length, get_elem?,
}
use hoststack.Prelude.Text.{Text, codes, text_eq}
use hoststack.Outcome.{Outcome, ok, exits, undefined, ◌>>=◌}
use hoststack.Paths.{fs_type, get_merged_dir, get_work_dir, get_diff_dir}
use hoststack.Kernel.{Mount, Kernel}

-- mnt_dir_t
pub record MntDir : Type 0 where
  pub src : Text
  pub target : Text
  pub type : Text

abbrev pub same : Text → MntDir
same dir = record { src = dir; target = dir; type = fs_type }

abbrev special : Text → Text → Text → MntDir
special src target type = record { src = src; target = target; type = type }

-- The entry `{0}` that ends the array is its length.
unfoldable pub mnt_dir_arr : List MntDir
mnt_dir_arr =
    same (codes "/bin")
    ∷ same (codes "/etc")
    ∷ same (codes "/lib")
    ∷ same (codes "/lib64")
    ∷ same (codes "/opt")
    ∷ same (codes "/run")
    ∷ same (codes "/sbin")
    ∷ same (codes "/usr")
    ∷ same (codes "/var")
    ∷ special (codes "proc") (codes "/proc") (codes "proc")
    ∷ special (codes "sysfs") (codes "/sys") (codes "sysfs")
    ∷ special (codes "udev") (codes "/dev") (codes "devtmpfs")
    ∷ special (codes "devpts") (codes "/dev/pts") (codes "devpts")
    ∷ special (codes "shm") (codes "/dev/shm") (codes "tmpfs")
    ∷ special (codes "none") (codes "/tmp") (codes "tmpfs")
    ∷ []

-- The kernel's state, the directories that were asked for, and the subjects of logged errors.
pub record Host (kernel : Kernel) : Type 0 where
  pub state : kernel.State
  pub made : List Text
  pub log : List Text

module _ (kernel : Kernel) where
  -- mkdir_r, `mkdir -p`: a failure is only logged.
  abbrev pub make_dir : Text → Host kernel → Host kernel
  make_dir path h = record h { made = h.made ++ path ∷ [] }

  abbrev pub log_error : Text → Host kernel → Host kernel
  log_error subject h = record h { log = h.log ++ subject ∷ [] }

  -- A mount whose failure ends the process.
  pub mount_or_exit : Mount → Host kernel → Outcome (Host kernel)
  mount_or_exit m h = elim (kernel.mount m h.state) [
    | none ↦ exits 1 (log_error m.target h)
    | some s ↦ ok (record h { state = s })
  ]

  -- A mount whose failure is logged.
  pub mount_or_log : Mount → Host kernel → Host kernel
  mount_or_log m h = elim (kernel.mount m h.state) [
    | none ↦ log_error m.target h
    | some s ↦ record h { state = s }
  ]

  abbrev pub aufs_mount : Text → MntDir → Mount
  aufs_mount id d = record {
    source = codes "none";
    target = get_merged_dir id ++ d.target;
    fstype = codes "aufs";
    options =
        codes "dirs="
        ++ ((get_diff_dir id ++ d.target) ++ (codes "=rw:" ++ (d.src ++ codes "=ro")));
  }

  abbrev pub overlay_mount : Text → MntDir → Mount
  overlay_mount id d = record {
    source = codes "overlay";
    target = get_merged_dir id ++ d.target;
    fstype = codes "overlay";
    options =
        codes "lowerdir="
        ++ (d.src
            ++ (codes ",upperdir="
                ++ ((get_diff_dir id ++ d.target)
                    ++ (codes ",workdir=" ++ (get_work_dir id ++ d.target)))));
  }

  abbrev pub special_mount : Text → MntDir → Mount
  special_mount id d = record {
    source = d.src;
    target = get_merged_dir id ++ d.target;
    fstype = d.type;
    options = [];
  }

  -- The body of the loop of mount_container.
  pub mount_entry : Text → MntDir → Host kernel → Outcome (Host kernel)
  unfolding mount_or_exit mount_or_log
  mount_entry id d h =
      if text_eq d.type (codes "aufs")
      then mount_or_exit (aufs_mount id d) (make_dir (get_diff_dir id ++ d.target) h)
      else if text_eq d.type (codes "overlay2")
      then (let h' =
            make_dir (get_work_dir id ++ d.target) (make_dir (get_diff_dir id ++ d.target) h) in
          if kernel.exists d.target then mount_or_exit (overlay_mount id d) h' else ok h')
      else ok (mount_or_log (special_mount id d) h)

  -- The loop: after the body the entry becomes arr[i], and then i grows.
  pub mount_loop : List MntDir → Text → ℕ → ℕ → Option MntDir → Host kernel → Outcome (Host kernel)
  unfolding mount_entry
  mount_loop arr id zero i dir h = undefined
  mount_loop arr id (suc fuel) i none h = ok h
  mount_loop arr id (suc fuel) i (some d) h =
      mount_entry id d h >>= λ h'. mount_loop arr id fuel (suc i) (get_elem? arr i) h'

  pub mount_container : Text → Host kernel → Outcome (Host kernel)
  unfolding mount_loop
  mount_container id h =
      mount_loop mnt_dir_arr id (length mnt_dir_arr + 2) 0 (get_elem? mnt_dir_arr 0) h

  pub umount_or_log : Text → Host kernel → Host kernel
  umount_or_log path h = elim (kernel.umount path h.state) [
    | none ↦ log_error path h
    | some s ↦ record h { state = s }
  ]

  -- The body of the loop of umount_container, with `line`, which holds nothing at first.
  pub umount_entry : Text → MntDir → Option Text × Host kernel → Option Text × Host kernel
  unfolding umount_or_log
  umount_entry id d (line, h) =
      let path = get_merged_dir id ++ d.target in
      if kernel.exists d.target then (some path, umount_or_log path h) else (line, h)

  -- while (--i >= 0), at i = n
  pub umount_loop : List MntDir → Text → ℕ → Option Text × Host kernel → Option Text × Host kernel
  unfolding umount_entry
  umount_loop arr id zero r = r
  umount_loop arr id (suc i) r =
      umount_loop arr id i (elim (get_elem? arr i) [ none ↦ r | some d ↦ umount_entry id d r ])

  -- The unmounts of umount_container that come before those of the volumes: the loop, and the last
  -- path once more.
  pub umount_dirs : Text → Host kernel → Outcome (Host kernel)
  unfolding umount_loop umount_or_log
  umount_dirs id h =
      let (line, h') = umount_loop mnt_dir_arr id (length mnt_dir_arr) (none, h) in
      elim line [ none ↦ undefined | some path ↦ ok (umount_or_log path h') ]
