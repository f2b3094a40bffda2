-- ===== src/Kernel.antt =====
-- The system calls on mounts that util/container_fs.cpp makes, as an interface. The kernel is not
-- code of this repository. The child that mounts and the parent that unmounts see one table, as
-- with the shared propagation that systemd sets up.
pub mod Table
use hoststack.Prelude.{
  ◌≡◌, Bool, true, false, ◌||◌, Option, none, some, List, [], ◌∷◌, ◌++◌, if◌then◌else◌,
}
use hoststack.Prelude.Text.{Text, codes, text_eq}
use hoststack.Libc.{starts_with}

pub record Mount : Type 0 where
  pub source : Text
  pub target : Text
  pub fstype : Text
  pub options : Text

-- A path strictly below another.
unfoldable pub is_below : Text → Text → Bool
is_below path dir = starts_with path (dir ++ codes "/")

abbrev pub keep {ℓ} : {A : Type ℓ} → A → Option (List A) → Option (List A)
keep m none = none
keep m (some ms) = some (m ∷ ms)

-- What umount2 takes off the mounts, newest first: the newest at the target, unless a newer one
-- lies below it (EBUSY) or nothing is mounted there (EINVAL).
unfoldable pub take_off : Text → List Mount → Option (List Mount)
take_off path [] = none
take_off path (m ∷ ms) =
    let rest = take_off path ms in
    if text_eq m.target path then some ms else if is_below m.target path then none else keep m rest

pub record Kernel : Type 1 where
  pub State : Type 0
  -- access(path, F_OK) == 0 on the host
  pub exists : Text → Bool
  pub mount : Mount → State → Option State
  pub umount : Text → State → Option State
  pub mounts : State → List Mount
  pub mounts-mount : (m : Mount) (s t : State) → mount m s ≡ some t → mounts t ≡ m ∷ mounts s
  pub mounts-umount :
      (path : Text) (s t : State)
      → umount path s ≡ some t
      → take_off path (mounts s) ≡ some (mounts t)
