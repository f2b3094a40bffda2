-- ===== src/Fs/Visits.antt =====
-- util/container_fs.cpp: which entries of mnt_dir_arr the loops of mount_container and
-- umount_container visit.
use mathlib.Core.Path.{fun_ext}
use mathlib.Core.List.{reverse-append}
use hoststack.Prelude.{
  ℕ, zero, suc, ◌+◌, ◌≤◌, ◌<◌, ◌≡◌, refl, ap, ◌∙◌, Option, none, some, List, [], ◌∷◌, ◌++◌, reverse,
  arith, length, get_elem?, take, drop,
}
use hoststack.Prelude.Text.{Text, codes}
use hoststack.Outcome.{Outcome, ok, ◌>>=◌}
use hoststack.Kernel.{Kernel}
use hoststack.Fs.{
  MntDir, mnt_dir_arr, same, Host, mount_entry, mount_loop, mount_container, umount_entry,
  umount_loop,
}

module _ (kernel : Kernel) where
  -- The body of mount_container for each entry of a list, in order.
  unfoldable pub mount_all : Text → List MntDir → Host kernel → Outcome (Host kernel)
  mount_all id [] h = ok h
  mount_all id (d ∷ ds) h = mount_entry kernel id d h >>= mount_all id ds

  unfoldable pub umount_all :
      Text → List MntDir → Option Text × Host kernel → Option Text × Host kernel
  umount_all id [] r = r
  umount_all id (d ∷ ds) r = umount_all id ds (umount_entry kernel id d r)

abbrev in_front : Option MntDir → List MntDir → List MntDir
in_front none ds = []
in_front (some d) ds = d ∷ ds

in_front-drop :
    (arr : List MntDir) (i : ℕ) → in_front (get_elem? arr i) (drop (suc i) arr) ≡ drop i arr
in_front-drop [] zero = refl
in_front-drop [] (suc i) = refl
in_front-drop (d ∷ arr) zero = refl
in_front-drop (d ∷ arr) (suc i) = in_front-drop arr i

length-drop_le : (arr : List MntDir) (i : ℕ) → length (drop i arr) ≤ length arr
length-drop_le [] zero = omega arith
length-drop_le [] (suc i) = omega arith
length-drop_le (d ∷ arr) zero = omega arith
length-drop_le (d ∷ arr) (suc i) = omega (arith, length-drop_le arr i)

take-suc :
    (arr : List MntDir) (i : ℕ) (d : MntDir)
    → get_elem? arr i ≡ some d
    → take (suc i) arr ≡ take i arr ++ d ∷ []
take-suc [] i d e = cc
take-suc (x ∷ arr) zero d e = ground arith
take-suc (x ∷ arr) (suc i) d e = ap (◌∷◌ x) (take-suc arr i d e)

take_over : (arr : List MntDir) (i : ℕ) → get_elem? arr i ≡ none → take (suc i) arr ≡ take i arr
take_over [] zero e = refl
take_over [] (suc i) e = refl
take_over (x ∷ arr) zero e = cc
take_over (x ∷ arr) (suc i) e = ap (◌∷◌ x) (take_over arr i e)

take_all : (arr : List MntDir) → take (length arr) arr ≡ arr
take_all [] = refl
take_all (d ∷ arr) = ap (◌∷◌ d) (take_all arr)

module _ (kernel : Kernel) (arr : List MntDir) (id : Text) where
  mount_loop-eq-mount_all :
      (fuel i : ℕ) (dir : Option MntDir) (h : Host kernel)
      → length (in_front dir (drop i arr)) < fuel
      → mount_loop kernel arr id fuel i dir h ≡ mount_all kernel id (in_front dir (drop i arr)) h
  unfolding mount_loop mount_all
  mount_loop-eq-mount_all zero i dir h l = elim l [ ]
  mount_loop-eq-mount_all (suc fuel) i none h l = refl
  mount_loop-eq-mount_all (suc fuel) i (some d) h l =
      ap (λ f. mount_entry kernel id d h >>= f)
        (fun_ext λ h'.
          mount_loop-eq-mount_all fuel (suc i) (get_elem? arr i) h'
            (rw (in_front-drop arr i) (omega arith))
          ∙ ap (λ ds. mount_all kernel id ds h') (in_front-drop arr i))

  umount_loop-eq-umount_all :
      (n : ℕ) (r : Option Text × Host kernel)
      → umount_loop kernel arr id n r ≡ umount_all kernel id (reverse (take n arr)) r
  unfolding umount_loop umount_all
  umount_loop-eq-umount_all zero r = refl
  umount_loop-eq-umount_all (suc i) r =
      go (get_elem? arr i) refl (λ r'. umount_loop-eq-umount_all i r')
    where
      go :
          (o : Option MntDir)
          → get_elem? arr i ≡ o
          → ((r' : Option Text × Host kernel)
              → umount_loop kernel arr id i r' ≡ umount_all kernel id (reverse (take i arr)) r')
          → umount_loop kernel arr id i (elim o [ none ↦ r | some d ↦ umount_entry kernel id d r ])
            ≡ umount_all kernel id (reverse (take (suc i) arr)) r
      go none e ih = ih r ∙ rw (take_over arr i e)
      go (some d) e ih =
          ih (umount_entry kernel id d r)
          ∙ rw (take-suc arr i d e, reverse-append (take i arr) (d ∷ []))

module _ (kernel : Kernel) (id : Text) where
  -- mount_container visits the first entry, /bin, twice, and then every other entry once.
  pub mount_container-eq-mount_all :
      (h : Host kernel)
      → mount_container kernel id h ≡ mount_all kernel id (same (codes "/bin") ∷ mnt_dir_arr) h
  unfolding mount_container mnt_dir_arr
  mount_container-eq-mount_all h =
      mount_loop-eq-mount_all kernel mnt_dir_arr id (length mnt_dir_arr + 2) 0
        (some (same (codes "/bin"))) h (omega arith)

  -- umount_container visits every entry once, from the last to the first.
  pub umount_loop-eq-reverse :
      (r : Option Text × Host kernel)
      → umount_loop kernel mnt_dir_arr id (length mnt_dir_arr) r
        ≡ umount_all kernel id (reverse mnt_dir_arr) r
  umount_loop-eq-reverse r =
      umount_loop-eq-umount_all kernel mnt_dir_arr id (length mnt_dir_arr) r
      ∙ ap (λ ds. umount_all kernel id (reverse ds) r) (take_all mnt_dir_arr)
