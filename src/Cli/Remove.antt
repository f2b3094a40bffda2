-- ===== src/Cli/Remove.antt =====
-- cli/container_rm_cli.cpp: which containers rm removes.
use mathlib.Core.Option
use hoststack.Prelude.{
  ◌++◌, ◌≡◌, refl, ◌⊎◌, inl, inr, Bool, true, false, Option, none, some, List, Bool-cases, int_eq,
  if◌then◌else◌, subst,
}
use hoststack.Prelude.First.{find_first, map_first}
use hoststack.Prelude.Text.{Text, codes}
use hoststack.Paths.{get_layer_dir, get_union_fs}
use hoststack.Outcome.{Outcome, ok, exits, undefined}
use hoststack.Info.{ContainerInfo, container_running}
use hoststack.Json.{Json}
use hoststack.Dao.{DataFile, delete_by_id, get_container_by_id_or_name}
use hoststack.Dao.Loops.{registry}
use hoststack.Dao.Registry.{has_id_or_name, heal, get_container_by_id_or_name-Healed}
use hoststack.Dao.Delete.{deleted, registry-delete_by_id}
use hoststack.Service.{Processes, Host, env_of, remove_container}
use hoststack.Cli.{delete_from, delete_container, remove_found, remove_by_name, codes}

module _ (json : Json) (procs : Processes) where
  -- The containers of a host as a search for a name leaves them.
  abbrev pub searched : Text → Host json procs → List ContainerInfo
  searched name h =
      map_first (has_id_or_name name) (heal (env_of json procs h.state)) (registry json h.file)

  -- The record goes if both directories went, and stays otherwise. An undefined end is that of
  -- delete_by_id.
  abbrev pub Deletes :
      Text → Host json procs → Bool × procs.State → Outcome (Host json procs) → Type 0
  Deletes id h (false, s) o = o ≡ ok (record h { state = s })
  Deletes id h (true, s) (ok h') =
      (h'.state ≡ s)
      × (some (registry json h'.file) ≡ deleted id (searched id (record h { state = s })))
  Deletes id h (true, s) (exits n h') = ⊥
  Deletes id h (true, s) undefined = none ≡ deleted id (searched id (record h { state = s }))

  delete_from-Deletes :
      (id : Text) (h : Host json procs) (s : procs.State)
      → Deletes id h (true, s) (delete_from json procs id (record h { state = s }))
  delete_from-Deletes id h s =
      go (delete_by_id json (env_of json procs s) id h.file)
        (registry-delete_by_id json (env_of json procs s) id h.file)
    where
      go :
          (o : Option (DataFile json))
          → Option.map (registry json) o ≡ deleted id (searched id (record h { state = s }))
          → Deletes id h
              (true, s)
              (elim o as (λ _. Outcome (Host json procs)) [
                | none ↦ undefined
                | some file ↦ ok (record { file = file; state = s })
              ])
      go none d = d
      go (some file) d = (refl, d)

  delete_container-Deletes :
      (id : Text) (h : Host json procs)
      → Deletes id h (remove_container json procs id h.state) (delete_container json procs id h)
  unfolding delete_container
  delete_container-Deletes id h = go (remove_container json procs id h.state)
    where
      go :
          (r : Bool × procs.State)
          → Deletes id h r (
              let (removed, s) = r in
              let h' = record h { state = s } in
              if removed then delete_from json procs id h' else ok h')
      go (true, s) = delete_from-Deletes id h s
      go (false, s) = refl

  -- The two directories of the container, one after the other; the second stays where the first could
  -- not be removed.
  abbrev pub RemovesDirs : Text → Host json procs → Outcome (Host json procs) → Type 0
  RemovesDirs id h o =
      ((s : procs.State) × (procs.remove (codes "/data/hoststack/containers/" ++ id) h.state
          ≡ (false, s))
        × (o ≡ ok (record h { state = s })))
      ⊎ ((s : procs.State) × (procs.remove (codes "/data/hoststack/containers/" ++ id) h.state
            ≡ (true, s))
          × Deletes id h (procs.remove (codes "/data/hoststack/overlay2/" ++ id) s) o)

  delete_container-RemovesDirs :
      (id : Text) (h : Host json procs) → RemovesDirs id h (delete_container json procs id h)
  unfolding remove_container get_layer_dir get_union_fs
  delete_container-RemovesDirs id h =
      go (procs.remove (codes "/data/hoststack/containers/" ++ id) h.state) refl
        (delete_container-Deletes id h)
    where
      go :
          (r : Bool × procs.State)
          → procs.remove (codes "/data/hoststack/containers/" ++ id) h.state ≡ r
          → Deletes id h
              (if r.0
                then procs.remove (codes "/data/hoststack/overlay2/" ++ id) r.1
                else (false, r.1))
              (delete_container json procs id h)
          → RemovesDirs id h (delete_container json procs id h)
      go (true, s) e d = inr (s, e, d)
      go (false, s) e d = inl (s, e, d)

  -- What rm without -f does, by the container that its search finds.
  abbrev pub Removes : Option ContainerInfo → Host json procs → Outcome (Host json procs) → Type 0
  Removes none h o = o ≡ ok h
  Removes (some c) h o =
      ((int_eq c.status container_running ≡ true) × (o ≡ ok h))
      ⊎ ((int_eq c.status container_running ≡ false) × RemovesDirs c.id h o)

  remove_found-Removes :
      (name : Text) (info : Option ContainerInfo) (h : Host json procs)
      → Removes info h (remove_found json procs false name info h)
  unfolding remove_found
  remove_found-Removes name none h = refl
  remove_found-Removes name (some c) h = elim (Bool-cases (int_eq c.status container_running)) [
    | inl e ↦ rw e (inl (refl, refl))
    | inr e ↦ rw e (inr (refl, delete_container-RemovesDirs c.id h))
  ]

  -- rm without -f leaves a running container as it is, its process included. Of the first container
  -- with the id or name, if it does not run, it removes the directory under containers/, then, if
  -- that succeeded, its layer's, and then, if that succeeded, calls delete_by_id, which searches
  -- again, by id or name, for the container's id: where an earlier container has that id as its name,
  -- it is the earlier one whose records are deleted, even if it runs. Otherwise records change only as
  -- a search corrects them.
  pub remove_by_name-Removes :
      (name : Text) (h : Host json procs)
      → (file : DataFile json) × (registry json file ≡ searched name h)
        × Removes
            (find_first (has_id_or_name name) (searched name h))
            (record h { file = file })
            (remove_by_name json procs false name h)
  unfolding remove_by_name
  remove_by_name-Removes name h =
      let (found, kept) =
        get_container_by_id_or_name-Healed json (env_of json procs h.state) name h.file in
      let (info, file) = get_container_by_id_or_name json (env_of json procs h.state) name h.file in
      let h' = record h { file = file } in
      (
        file,
        kept,
        subst (λ o. Removes o h' (remove_found json procs false name info h')) found
            (remove_found-Removes name info h'),
      )
