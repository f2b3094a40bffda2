-- ===== src/Launch/Run/Cleared.antt =====
-- pty/pty_exec_util.cpp: what pty_run_container clears away when its container has ended.
use mathlib.Core.Option
use hoststack.Prelude.{◌≡◌, refl, sym, ap, ◌∙◌, ◌⊎◌, inl, inr, Option, none, some, List, subst}
use hoststack.Prelude.First.{find_first, map_first}
use hoststack.Prelude.Text.{Text}
use hoststack.Outcome.{Outcome, ok, exits, undefined}
use hoststack.Io.{Io}
use hoststack.Info.{ContainerInfo}
use hoststack.Json.{Json}
use hoststack.Kernel.{Kernel}
use hoststack.Fs.{Host}
use hoststack.Fs.Volumes.{umount_container}
use hoststack.Fs.Volumes.Exits.{Stays, umount_container-Stays}
use hoststack.Dao.{Env, DataFile, get_container_by_id_or_name, change_status_to_stop}
use hoststack.Dao.Loops.{registry}
use hoststack.Dao.Registry.{has_id_or_name, heal, get_container_by_id_or_name-Healed}
use hoststack.Dao.Again.{heal_again}
use hoststack.Dao.Stop.{stoped_in, registry-change_status_to_stop}
use hoststack.Relay.{Progress, going, ended, exited}
use hoststack.Launch.Run.{World, umount_found, marked, unmounted, clear_away}

module _ (io : Io) (kernel : Kernel) (json : Json) (env : Env) (id : Text) where
  abbrev healed : List ContainerInfo → List ContainerInfo
  healed cs = map_first (has_id_or_name id) (heal env) cs

  abbrev found_in : DataFile json → Option ContainerInfo
  found_in file = find_first (has_id_or_name id) (healed (registry json file))

  -- What the end of the server's container leaves: its record says stopped, its mounts are taken off,
  -- and the semaphore is as it was.
  abbrev pub Cleared : World io kernel json → Progress (World io kernel json) → Type 0
  Cleared w (going v) = ⊥
  Cleared w (ended v) =
      ((info : ContainerInfo) × (found_in w.file ≡ some info)
        × (umount_container kernel id info.volume_list w.host ≡ ok v.host))
      × (some (registry json v.file) ≡ stoped_in env id (healed (registry json w.file)))
      × (v.sem ≡ w.sem)
  Cleared w (exited v) = ⊥
  Cleared w Progress.undefined =
      (found_in w.file ≡ none)
      ⊎ ((info : ContainerInfo) × (found_in w.file ≡ some info)
          × (umount_container kernel id info.volume_list w.host ≡ undefined))

  stoped_in-found :
      (cs : List ContainerInfo) (info : ContainerInfo)
      → find_first (has_id_or_name id) cs ≡ some info
      → stoped_in env id cs ≡ none
      → ⊥
  stoped_in-found cs info e h = cc (rw (stoped_in, e) at h)

  marked-Cleared :
      (w : World io kernel json) (h : Host kernel) (info : ContainerInfo) (file : DataFile json)
      (r : Option (DataFile json))
      → found_in w.file ≡ some info
      → umount_container kernel id info.volume_list w.host ≡ ok h
      → Option.map (registry json) r ≡ stoped_in env id (healed (registry json w.file))
      → Cleared w (marked io kernel json (record w { host = h; file = file }) r)
  marked-Cleared w h info file none f u e =
      absurd (stoped_in-found (healed (registry json w.file)) info f (sym e))
  marked-Cleared w h info file (some file') f u e = ((info, f, u), e, refl)

  unmounted-Cleared :
      (w : World io kernel json) (file : DataFile json) (info : ContainerInfo)
      (o : Outcome (Host kernel))
      → found_in w.file ≡ some info
      → registry json file ≡ healed (registry json w.file)
      → umount_container kernel id info.volume_list w.host ≡ o
      → Cleared w (unmounted io kernel json env id (record w { file = file }) o)
  unmounted-Cleared w file info (ok h) f k u =
      marked-Cleared w h info file (change_status_to_stop json env id file) f u (
        registry-change_status_to_stop json env id file
        ∙ ap (λ cs. stoped_in env id (healed cs)) k
        ∙ ap (stoped_in env id) (heal_again env id (registry json w.file)))
  unmounted-Cleared w file info (exits n h) f k u =
      absurd (subst Stays u (umount_container-Stays kernel id info.volume_list w.host))
  unmounted-Cleared w file info undefined f k u = inr (info, f, u)

  pub clear_away-Cleared :
      (w : World io kernel json) → Cleared w (clear_away io kernel json env id w)
  unfolding clear_away
  clear_away-Cleared w =
      let (f, k) = get_container_by_id_or_name-Healed json env id w.file in
      go (get_container_by_id_or_name json env id w.file) f k
    where
      go :
          (r : Option ContainerInfo × DataFile json)
          → r.0 ≡ found_in w.file
          → registry json r.1 ≡ healed (registry json w.file)
          → Cleared w (
              unmounted io kernel json env id
                (record w { file = r.1 })
                (umount_found io kernel json id r.0 w.host))
      go (none, file) f k = inl (sym f)
      go (some info, file) f k = unmounted-Cleared w file info _ (sym f) k refl
