-- ===== src/Fs/Balance.antt =====
-- util/container_fs.cpp: the mounts of mount_container and the unmounts of umount_container.
use hoststack.Prelude.{
  ◌≡◌, refl, Bool, true, false, some, List, [], ◌∷◌, ◌++◌, if◌then◌else◌, ◌⊎◌, arith,
}
use hoststack.Prelude.Text.{Text, codes, text_eq}
use hoststack.Outcome.{Outcome, ok, undefined}
use hoststack.Kernel.{Kernel, Mount, take_off}
use hoststack.Fs.{
  MntDir, Host, overlay_mount, special_mount, mount_or_exit, umount_or_log, get_merged_dir, Option,
  none, same,
}

rest : List MntDir → List MntDir
rest [] = []
rest (d ∷ ds) = ds

module _ (kernel : Kernel) where
  -- The kernel refuses no mount.
  abbrev pub Accepts : Type 0
  Accepts = (m : Mount) (s : kernel.State) → (t : kernel.State) × (kernel.mount m s ≡ some t)

  -- An unmount fails only where nothing is mounted at the path, or something newer lies below it, and
  -- not for an open file in it.
  abbrev pub Unmounts : Type 0
  Unmounts =
      (path : Text) (s : kernel.State)
      → kernel.umount path s ≡ none
      → take_off path (kernel.mounts s) ≡ none

  abbrev pub is_overlay : MntDir → Bool
  is_overlay d = text_eq d.type (codes "overlay2")

  -- An entry of the two kinds that mnt_dir_arr has, whose target the host has if it is special.
  abbrev pub IsUsual : MntDir → Type 0
  IsUsual d =
      (text_eq d.type (codes "aufs") ≡ false)
      × ((is_overlay d ≡ true) ⊎ (kernel.exists d.target ≡ true))

  module _ (accepts : Accepts) (unmounts : Unmounts) (id : Text) where
    -- What an entry adds to the mounts.
    pushed : MntDir → List Mount
    pushed d =
        if kernel.exists d.target
        then (if is_overlay d then overlay_mount kernel id d else special_mount kernel id d) ∷ []
        else []

    abbrev pub Mounts : List Mount → Outcome (Host kernel) → Type 0
    Mounts ms r = (h : Host kernel) × (r ≡ ok h) × (kernel.mounts h.state ≡ ms)

    pub mount_or_exit-Mounts :
        (m : Mount) (h : Host kernel)
        → Mounts (m ∷ kernel.mounts h.state) (mount_or_exit kernel m h)
    unfolding mount_or_exit
    mount_or_exit-Mounts m h =
        let (t, e) = accepts m h.state in
        (record h { state = t }, rw (e, mount_or_exit), kernel.mounts-mount m h.state t e)

    -- What entries mounted in order add, the newest first.
    stack : List MntDir → List Mount
    stack [] = []
    stack (d ∷ ds) = stack ds ++ pushed d

    pub umount_or_log-take_off :
        (path : Text) (h : Host kernel) (ms : List Mount)
        → take_off path (kernel.mounts h.state) ≡ some ms
        → kernel.mounts (umount_or_log kernel path h).state ≡ ms
    unfolding umount_or_log
    umount_or_log-take_off path h ms e = go (kernel.umount path h.state) refl
      where
        go :
            (o : Option kernel.State)
            → kernel.umount path h.state ≡ o
            → kernel.mounts (umount_or_log kernel path h).state ≡ ms
        go none u = cc (unmounts path h.state u)
        go (some s) u =
            rw (u, umount_or_log) (ground (arith, kernel.mounts-umount path h.state s u))

    path_of : MntDir → Text
    path_of d = get_merged_dir id ++ d.target

    unstack : List MntDir → List Mount
    unstack [] = []
    unstack (d ∷ ds) = pushed d ++ unstack ds

    -- umount_container after its loop.
    last_again : Option Text × Host kernel → Outcome (Host kernel)
    last_again (line, h') = elim line [
      | none ↦ undefined
      | some path ↦ ok (umount_or_log kernel path h')
    ]

    bin : MntDir
    bin = same (codes "/bin")
