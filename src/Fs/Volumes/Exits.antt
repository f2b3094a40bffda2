-- ===== src/Fs/Volumes/Exits.antt =====
-- util/container_fs.cpp: umount_container does not end the program by exit.
use hoststack.Prelude.{Option, none, some, List, [], ◌∷◌, length}
use hoststack.Prelude.Text.{Text}
use hoststack.Libc.{strtok}
use hoststack.Outcome.{Outcome, ok, exits, undefined, ◌>>=◌}
use hoststack.Kernel.{Kernel}
use hoststack.Paths.{get_merged_dir}
use hoststack.Strings.Join.{path_join}
use hoststack.Fs.{Host, mnt_dir_arr, umount_loop, umount_or_log, umount_dirs}
use hoststack.Fs.Volumes.{
  colon, umount_at, umount_dest, umount_src, umount_volume, umount_volume_list, umount_container,
}

abbrev pub Stays {ℓ} : {A : Type ℓ} → Outcome A → Type 0
Stays (ok a) = Unit
Stays (exits n a) = ⊥
Stays undefined = Unit

Stays-bind {ℓ} :
    {A : Type ℓ} (m : Outcome A) (f : A → Outcome A)
    → Stays m
    → ((a : A) → Stays (f a))
    → Stays (m >>= f)
Stays-bind (ok a) f h k = k a
Stays-bind (exits n a) f h k = h
Stays-bind undefined f h k = tt

module _ (kernel : Kernel) where
  umount_dirs-Stays : (id : Text) (h : Host kernel) → Stays (umount_dirs kernel id h)
  unfolding umount_dirs
  umount_dirs-Stays id h = go (umount_loop kernel mnt_dir_arr id (length mnt_dir_arr) (none, h)).0
    where
      go :
          (line : Option Text)
          → Stays (elim line as (λ _. Outcome (Host kernel)) [
            | none ↦ undefined
            | some path ↦ ok (
                umount_or_log kernel path
                  (umount_loop kernel mnt_dir_arr id (length mnt_dir_arr) (none, h)).1)
          ])
      go none = tt
      go (some path) = tt

  umount_at-Stays :
      (target : Option (Option Text)) (h : Host kernel) → Stays (umount_at kernel target h)
  umount_at-Stays none h = tt
  umount_at-Stays (some none) h = tt
  umount_at-Stays (some (some target)) h = tt

  umount_dest-Stays :
      (id : Text) (token : Option (Text × Text)) (h : Host kernel)
      → Stays (umount_dest kernel id token h)
  umount_dest-Stays id none h = tt
  umount_dest-Stays id (some (dest, rest)) h =
      umount_at-Stays (path_join (some (get_merged_dir id)) (dest ∷ [])) _

  umount_src-Stays :
      (id : Text) (token : Option (Text × Text)) (h : Host kernel)
      → Stays (umount_src kernel id token h)
  umount_src-Stays id none h = tt
  umount_src-Stays id (some (src, rest)) h = umount_dest-Stays id (strtok colon rest) _

  umount_volume_list-Stays :
      (id : Text) (volumes : List Text) (h : Host kernel)
      → Stays (umount_volume_list kernel id volumes h)
  unfolding umount_volume_list umount_volume
  umount_volume_list-Stays id [] h = tt
  umount_volume_list-Stays id (v ∷ vs) h =
      Stays-bind (umount_volume kernel id v h) _ (umount_src-Stays id (strtok colon v) h)
        (λ g. umount_volume_list-Stays id vs g)

  pub umount_container-Stays :
      (id : Text) (volumes : List Text) (h : Host kernel)
      → Stays (umount_container kernel id volumes h)
  unfolding umount_container
  umount_container-Stays id volumes h =
      Stays-bind (umount_dirs kernel id h) _ (umount_dirs-Stays id h)
        (λ g. umount_volume_list-Stays id volumes g)
