-- ===== src/Dao/Update.antt =====
-- util/container_dao.cpp: update against the list of the containers that the data file holds.
use hoststack.Prelude.{
  ℕ, suc, ◌≡◌, refl, ◌∙◌, inl, inr, Bool, Option, none, some, List, [], ◌∷◌, Bool-cases,
}
use hoststack.Prelude.First.{map_first}
use hoststack.Prelude.Text.{codes, text_eq}
use hoststack.Info.{ContainerInfo}
use hoststack.Json.{Json}
use hoststack.Dao.{
  DataFile, read_root, readable_records, pack_container_info, de_pack_container_info, update,
  update_loop, find_loop, write_root,
}
use hoststack.Dao.Records.{IsStorable, stored, pack-de_pack}
use hoststack.Dao.Loops.{
  Finds, map-Found, map-Fails, find_loop-Finds, written, registry, IsReadable,
}
use hoststack.Dao.Registry.{has_id}

module _ (json : Json) where
  open json use {
    Value, as_string, elements, append, set_element, member, null, parse, elements-null,
    elements-append, parse-to_styled_string, parse-empty_document, as_int-IsInt,
  }

  abbrev pub test_id : ContainerInfo → Value → Bool
  test_id info r = text_eq (as_string (member r (codes "id"))) info.id

  same_id :
      (info : ContainerInfo) (r : Value)
      → test_id info r ≡ has_id info.id (pack_container_info json r)
  unfolding pack_container_info
  same_id info r = refl

  pub update_loop-eq-find :
      (info : ContainerInfo) (root : Value) (i : ℕ) (rs : List Value)
      → update_loop json info root i rs ≡ (elim (find_loop json (test_id info) i rs) [
        | none ↦ root
        | some (j, r) ↦ set_element root j (de_pack_container_info json r info)
      ])
  unfolding update_loop
  update_loop-eq-find info root i [] = refl
  update_loop-eq-find info root i (r ∷ rs) = elim (Bool-cases (test_id info r)) [
    | inl e ↦ rw e
    | inr e ↦ rw e (update_loop-eq-find info root (suc i) rs)
  ]

  update_found :
      (info : ContainerInfo) (file : DataFile json) (o : Option (ℕ × Value))
      → IsStorable info
      → elements (read_root json file).1 ≡ readable_records json file
      → Finds json (test_id info) 0 (readable_records json file) o
      → registry json (
          write_root json file (elim o [
            | none ↦ (read_root json file).1
            | some (j, r) ↦
                set_element (read_root json file).1 j (de_pack_container_info json r info)
          ]))
        ≡ map_first (has_id info.id) (λ _. stored info) (registry json file)
  update_found info file none s e h =
      rw (parse-to_styled_string) (
        rw e (map-Fails json (test_id info) (has_id info.id) (same_id info) _ (λ _. stored info) h))
  update_found info file (some (j, r)) s e h =
      written json (test_id info) file j r _ h
      ∙ map-Found json (test_id info) (has_id info.id) (same_id info) _ j r _ (λ _. stored info) h
          (pack-de_pack json r info s)

  pub readable_root :
      (file : DataFile json)
      → IsReadable json file
      → elements (read_root json file).1 ≡ readable_records json file
  readable_root none h = rw (parse-empty_document) elements-null
  readable_root (some doc) (inl e) = cc
  readable_root (some doc) (inr e) = rw e

  -- On a data file that is missing or parses, with a container whose numbers are 32-bit integers and
  -- whose volumes are a set in its order, update overwrites the first container with the id, and
  -- changes nothing else: it adds no container, also where its early inserts for a missing or empty
  -- file run.
  pub registry-update :
      (info : ContainerInfo) (file : DataFile json)
      → IsReadable json file
      → IsStorable info
      → registry json (update json info file)
        ≡ map_first (has_id info.id) (λ _. stored info) (registry json file)
  unfolding update
  registry-update info file h s =
      let root = (read_root json file).1 in
      rw (update_loop-eq-find info root 0 (elements root)) (
        rw (readable_root file h) (
          update_found info file _ s (readable_root file h)
            (find_loop-Finds json (test_id info) 0 (readable_records json file))))
