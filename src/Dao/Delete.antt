-- ===== src/Dao/Delete.antt =====
-- util/container_dao.cpp: delete_by_id and list against the list of the containers that the data
-- file holds.
use mathlib.Core.Option
use mathlib.Core.List.{append_assoc, append-nil, map-append}
use hoststack.Prelude.{
  ◌≡◌, refl, sym, ap, ◌∙◌, inl, inr, Option, none, some, List, [], ◌∷◌, ◌++◌, map, Bool-cases,
}
use hoststack.Prelude.First.{find_first, map_first, reject}
use hoststack.Prelude.Text.{Text, codes, text_eq}
use hoststack.Info.{ContainerInfo}
use hoststack.Json.{Json}
use hoststack.Dao.{
  Env, DataFile, readable_records, pack_container_info, get_container_by_id_or_name, delete_records,
  delete_by_id, keep_others, list_records, list,
}
use hoststack.Dao.Loops.{registry}
use hoststack.Dao.Registry.{has_id, has_id_or_name, heal, get_container_by_id_or_name-Healed}
use mathlib.Core.Option.{some-injective}

-- What is left when the first container with the id or name, and every one with its id, is
-- deleted. `none` is the undefined case: there are containers, and none is found.
abbrev pub deleted : Text → List ContainerInfo → Option (List ContainerInfo)
deleted value [] = some []
deleted value (c ∷ cs) = elim (find_first (has_id_or_name value) (c ∷ cs)) [
  | none ↦ none
  | some found ↦ some (reject (has_id found.id) (c ∷ cs))
]

abbrev pub listed : List ContainerInfo → Option (List ContainerInfo)
listed [] = none
listed (c ∷ cs) = some (c ∷ cs)

module _ (json : Json) where
  open json use {
    Value, as_string, elements, append, set_element, member, null, parse, elements-null,
    elements-append, parse-to_styled_string, parse-empty_document, as_int-IsInt,
  }

  keep_others-eq-reject :
      (id : Text) (root : Value) (rs : List Value)
      → map (pack_container_info json) (elements (keep_others json id root rs))
        ≡ map (pack_container_info json) (elements root)
          ++ reject (has_id id) (map (pack_container_info json) rs)
  unfolding pack_container_info
  keep_others-eq-reject id root [] = rw append-nil
  keep_others-eq-reject id root (r ∷ rs) =
      elim (Bool-cases (text_eq (as_string (member r (codes "id"))) id)) [
        | inl e ↦ rw e (keep_others-eq-reject id root rs)
        | inr e ↦ rw e (
            keep_others-eq-reject id (append root r) rs
            ∙ rw (elements-append, map-append)
                (append_assoc (map (pack_container_info json) (elements root))
                  (pack_container_info json r ∷ [])
                  (reject (has_id id) (map (pack_container_info json) rs))))
      ]

  delete_records-registry :
      (value : Text) (file : DataFile json) (info : Option ContainerInfo) (rs : List Value)
      → registry json file ≡ map (pack_container_info json) rs
      → info ≡ find_first (has_id_or_name value) (map (pack_container_info json) rs)
      → Option.map (registry json) (delete_records json info file rs)
        ≡ deleted value (map (pack_container_info json) rs)
  delete_records-registry value file info [] e h = ap some e
  delete_records-registry value file none (r ∷ rs) e h = rw (sym h, deleted)
  delete_records-registry value file (some c) (r ∷ rs) e h =
      rw (sym h, deleted)
        (rw parse-to_styled_string
          (ap some (keep_others-eq-reject c.id null (r ∷ rs) ∙ rw elements-null)))

  pub registry-delete_by_id :
      (env : Env) (value : Text) (file : DataFile json)
      → Option.map (registry json) (delete_by_id json env value file)
        ≡ deleted value (map_first (has_id_or_name value) (heal env) (registry json file))
  unfolding delete_by_id
  registry-delete_by_id env value file =
      let (found, kept) = get_container_by_id_or_name-Healed json env value file in
      let (info, file') = get_container_by_id_or_name json env value file in
      delete_records-registry value file' info (readable_records json file') refl
        (found ∙ ap (find_first (has_id_or_name value)) (sym kept))
      ∙ ap (deleted value) kept

  no_records : (rs : List Value) → map (pack_container_info json) rs ≡ [] → rs ≡ []
  no_records [] e = refl
  no_records (r ∷ rs) e = cc

  nothing_found :
      (env : Env) (value : Text) (file : DataFile json)
      → readable_records json file ≡ []
      → get_container_by_id_or_name json env value file ≡ (none, file)
  unfolding get_container_by_id_or_name
  nothing_found env value none e = refl
  nothing_found env value (some doc) e = elim (Bool-cases (parse doc).0) [
    | inl p ↦
        let h : elements (parse doc).1 ≡ [] = rw p at e in
        rw (get_container_by_id_or_name, readable_records, p, h) refl
    | inr p ↦ rw (get_container_by_id_or_name, readable_records, p) refl
  ]

  nothing_deleted :
      (env : Env) (value : Text) (file : DataFile json)
      → readable_records json file ≡ []
      → delete_by_id json env value file ≡ some file
  unfolding delete_by_id
  nothing_deleted env value file e =
      ap (λ r. delete_records json r.0 r.1 (readable_records json r.1))
        (nothing_found env value file e)
      ∙ ap (delete_records json none file) e

  -- The containers that are left, and the file where it has none.
  abbrev pub Deletes : Env → Text → DataFile json → Option (DataFile json) → Type 0
  Deletes env value file o =
      (Option.map (registry json) o
        ≡ deleted value (map_first (has_id_or_name value) (heal env) (registry json file)))
      × (registry json file ≡ [] → o ≡ some file)

  -- delete_by_id deletes every container with the id of the first that has the given id or name,
  -- after the correction that the search makes, and keeps the others in their order; a file without
  -- containers, be it one that cannot be read, stays as it is, and where there are containers and
  -- none is found, it reads an empty optional.
  pub delete_by_id-Deletes :
      (env : Env) (value : Text) (file : DataFile json)
      → Deletes env value file (delete_by_id json env value file)
  delete_by_id-Deletes env value file = (
    registry-delete_by_id env value file,
    λ e. nothing_deleted env value file (no_records (readable_records json file) e),
  )

  list_records-registry :
      (rs : List Value) → list_records json rs ≡ listed (map (pack_container_info json) rs)
  list_records-registry [] = refl
  list_records-registry (r ∷ rs) = refl

  -- list returns the containers of the data file in their order, or a null pointer where it holds
  -- none or cannot be read.
  pub list-registry : (file : DataFile json) → list json file ≡ listed (registry json file)
  unfolding list
  list-registry file = list_records-registry (readable_records json file)
