-- ===== src/Dao/Stop.antt =====
-- util/container_dao.cpp: change_status_to_stop against the list of the containers that the data
-- file holds.
use mathlib.Core.Option
use hoststack.Prelude.{
  ◌≡◌, refl, sym, ap, ◌∙◌, inl, inr, Bool, Option, none, some, List, [], ◌∷◌, map, arith, pos,
  Bool-cases, subst,
}
use hoststack.Prelude.First.{find_first, map_first}
use hoststack.Prelude.Text.{Text, codes}
use hoststack.Info.{ContainerInfo, container_stoped}
use hoststack.Info.Volumes.{insert_all-IsVolumeSet}
use hoststack.Json.{Json}
use hoststack.Dao.{
  Env, DataFile, readable_records, pack_container_info, get_container_by_id_or_name, stop_found,
  change_status_to_stop,
}
use hoststack.Dao.Records.{IsStorable, stored}
use hoststack.Dao.Loops.{registry, IsReadable}
use hoststack.Dao.Registry.{has_id, has_id_or_name, heal, get_container_by_id_or_name-Healed}
use mathlib.Core.Option.{some-injective}
use hoststack.Dao.Update.{registry-update}

-- What change_status_to_stop makes of the container that it found.
abbrev pub stoped : Env → ContainerInfo → ContainerInfo
stoped env c = record c {
  status = container_stoped;
  abnormal_stoped = pos 0;
  stop_time = env.now;
  pid = pos 0;
}

-- `none` is the undefined case: no container is found.
abbrev pub stoped_in : Env → Text → List ContainerInfo → Option (List ContainerInfo)
stoped_in env value cs = elim (find_first (has_id_or_name value) cs) [
  | none ↦ none
  | some c ↦ some (map_first (has_id c.id) (λ _. stored (stoped env c)) cs)
]

module _ (json : Json) where
  open json use {
    Value, as_string, elements, append, set_element, member, null, parse, elements-null,
    elements-append, parse-to_styled_string, parse-empty_document, as_int-IsInt,
  }

  packed-IsStorable : (r : Value) → IsStorable (pack_container_info json r)
  unfolding pack_container_info
  packed-IsStorable r = record {
    pid_IsInt = as_int-IsInt _;
    status_IsInt = as_int-IsInt _;
    abnormal_IsInt = as_int-IsInt _;
    volumes = insert_all-IsVolumeSet (map as_string (elements (member r (codes "volume")))) [] tt;
  }

  stoped-IsStorable : (env : Env) (c : ContainerInfo) → IsStorable c → IsStorable (stoped env c)
  stoped-IsStorable env c s = record {
    pid_IsInt = omega arith;
    status_IsInt = omega arith;
    abnormal_IsInt = omega arith;
    volumes = s.volumes;
  }

  find_first-map :
      (P : ContainerInfo → Bool) (rs : List Value) (c : ContainerInfo)
      → find_first P (map (pack_container_info json) rs) ≡ some c
      → IsStorable c
  find_first-map P [] c h = cc
  find_first-map P (r ∷ rs) c h = elim (Bool-cases (P (pack_container_info json r))) [
    | inl e ↦
        let p : pack_container_info json r ≡ c = ground arith in
        subst IsStorable p (packed-IsStorable r)
    | inr e ↦ find_first-map P rs c (rw e at h)
  ]

  pub find_first-IsReadable :
      (P : ContainerInfo → Bool) (file : DataFile json) (c : ContainerInfo)
      → find_first P (registry json file) ≡ some c
      → IsReadable json file
  find_first-IsReadable P none c h = inl refl
  find_first-IsReadable P (some doc) c h = elim (Bool-cases (parse doc).0) [
    | inl e ↦ inr e
    | inr e ↦ cc (rw e at h)
  ]

  stop_found-registry :
      (env : Env) (value : Text) (file : DataFile json) (info : Option ContainerInfo)
      → info ≡ find_first (has_id_or_name value) (registry json file)
      → Option.map (registry json) (stop_found json env info file)
        ≡ stoped_in env value (registry json file)
  stop_found-registry env value file none h = rw (sym h, stoped_in)
  stop_found-registry env value file (some c) h =
      rw (sym h, stoped_in)
        (ap some (
          registry-update json (stoped env c) file (find_first-IsReadable _ file c (sym h))
            (stoped-IsStorable env c (find_first-map _ (readable_records json file) c (sym h)))))

  -- change_status_to_stop marks the first container with the id or name as stopped in the file: no
  -- process, not stopped abnormally, its start and stop times read back as 0, and
  -- no other container changes beyond the correction that the search makes; where none is found, it
  -- writes to an empty optional.
  pub registry-change_status_to_stop :
      (env : Env) (value : Text) (file : DataFile json)
      → Option.map (registry json) (change_status_to_stop json env value file)
        ≡ stoped_in env value (map_first (has_id_or_name value) (heal env) (registry json file))
  unfolding change_status_to_stop
  registry-change_status_to_stop env value file =
      let (found, kept) = get_container_by_id_or_name-Healed json env value file in
      let (info, file') = get_container_by_id_or_name json env value file in
      stop_found-registry env value file' info
        (found ∙ ap (find_first (has_id_or_name value)) (sym kept))
      ∙ ap (stoped_in env value) kept
