-- ===== src/Dao/Registry.antt =====
-- util/container_dao.cpp: the data file seen as the list of the containers that it holds. insert and
-- the searches are about it.
use mathlib.Core.List.{map-append}
use hoststack.Prelude.{
  ℕ, ◌≡◌, refl, sym, ap, ◌∙◌, inl, inr, Bool, true, false, not, ◌&&◌, ◌||◌, Option, none, some,
  List, [], ◌∷◌, ◌++◌, map, arith, if◌then◌else◌, pos, int_eq, Bool-cases,
}
use hoststack.Prelude.First.{find_first, map_first}
use hoststack.Prelude.Text.{Text, text_eq}
use hoststack.Info.{ContainerInfo, container_stoped, container_running}
use hoststack.Json.{Json}
use hoststack.Dao.{
  Env, DataFile, read_root, readable_records, pack_container_info, insert, find_loop,
  get_container_by_id, get_container_by_name, is_stale, write_root, matches_id_or_name,
  get_container_by_id_or_name, mark_stoped,
}
use hoststack.Dao.Records.{IsStorable, stored, pack-de_pack, pack-mark_stoped}
use hoststack.Dao.Loops.{
  Found, Finds, find-Found, map-Found, map-Fails, find_loop-Finds, set_same, written, registry,
  IsReadable,
}

abbrev pub has_id : Text → ContainerInfo → Bool
has_id value c = text_eq c.id value

abbrev pub has_name : Text → ContainerInfo → Bool
has_name value c = text_eq c.name value

abbrev pub has_id_or_name : Text → ContainerInfo → Bool
has_id_or_name value c = text_eq c.name value || text_eq c.id value

-- A container whose process is gone is stopped.
abbrev pub heal : Env → ContainerInfo → ContainerInfo
heal env c =
    if int_eq c.status container_running && not (env.alive c.pid)
    then record c { status = container_stoped; pid = pos 0 }
    else c

module _ (json : Json) where
  open json use {
    Value, as_string, elements, append, set_element, member, to_styled_string, parse, elements-null,
    elements-append, elements-set_element, parse-to_styled_string, parse-empty_document,
  }

  -- A new container stands at the end, as its record keeps it.
  pub registry-insert :
      (info : ContainerInfo) (file : DataFile json)
      → IsReadable json file
      → IsStorable info
      → registry json (insert json info file) ≡ registry json file ++ stored info ∷ []
  unfolding insert
  registry-insert info none h s =
      rw (parse-to_styled_string)
        (rw (elements-append) (rw elements-null (ap (λ c. c ∷ []) (pack-de_pack json _ info s))))
  registry-insert info (some doc) (inl e) s = cc
  registry-insert info (some doc) (inr e) s = rw (parse-to_styled_string) (
      rw (elements-append, e, map-append)
        (ap (λ c. map (pack_container_info json) (elements (parse doc).1) ++ c ∷ [])
          (pack-de_pack json _ info s)))

  -- get_container_by_id returns the first container with the id, and reads the file alone.
  pub get_container_by_id-eq-find :
      (value : Text) (file : DataFile json)
      → get_container_by_id json value file ≡ find_first (has_id value) (registry json file)
  unfolding get_container_by_id pack_container_info
  get_container_by_id-eq-find value file = sym (
      find-Found json _ (has_id value) (λ r. refl) (readable_records json file) _
        (find_loop-Finds json _ 0 (readable_records json file)))

  pub get_container_by_name-eq-find :
      (value : Text) (file : DataFile json)
      → get_container_by_name json value file ≡ find_first (has_name value) (registry json file)
  unfolding get_container_by_name pack_container_info
  get_container_by_name-eq-find value file = sym (
      find-Found json _ (has_name value) (λ r. refl) (readable_records json file) _
        (find_loop-Finds json _ 0 (readable_records json file)))

  matches_same :
      (value : Text) (r : Value)
      → matches_id_or_name json value r ≡ has_id_or_name value (pack_container_info json r)
  unfolding matches_id_or_name pack_container_info
  matches_same value r = refl

  stale_same :
      (env : Env) (r : Value)
      → is_stale json env r ≡ (
          int_eq (pack_container_info json r).status container_running
          && not (env.alive (pack_container_info json r).pid))
  unfolding is_stale pack_container_info
  stale_same env r = refl

  pub find-map_first-heal :
      (env : Env) (value : Text) (cs : List ContainerInfo)
      → find_first (has_id_or_name value) (map_first (has_id_or_name value) (heal env) cs)
        ≡ (elim (find_first (has_id_or_name value) cs) [ none ↦ none | some c ↦ some (heal env c) ])
  find-map_first-heal env value [] = refl
  find-map_first-heal env value (c ∷ cs) = ground (arith, find-map_first-heal env value cs)

  stale_healed :
      (env : Env) (r : Value)
      → is_stale json env r ≡ true
      → pack_container_info json (mark_stoped json env r) ≡ heal env (pack_container_info json r)
  stale_healed env r e = let s = sym (stale_same env r) ∙ e in pack-mark_stoped json env r ∙ rw s

  fresh_healed :
      (env : Env) (r : Value)
      → is_stale json env r ≡ false
      → pack_container_info json r ≡ heal env (pack_container_info json r)
  fresh_healed env r e = let s = sym (stale_same env r) ∙ e in rw s

  -- A search by id or name and what it leaves in the file, against the containers.
  abbrev pub Healed :
      Env → Text → List ContainerInfo → Option ContainerInfo × DataFile json → Type 0
  Healed env value cs (info, file) =
      (info ≡ find_first (has_id_or_name value) (map_first (has_id_or_name value) (heal env) cs))
      × (registry json file ≡ map_first (has_id_or_name value) (heal env) cs)

  -- get_container_by_id_or_name returns the first container with the id or the name; if its record
  -- says running although its process is gone, it is first marked as stopped, in the file and in the
  -- result, and no other container changes.
  pub get_container_by_id_or_name-Healed :
      (env : Env) (value : Text) (file : DataFile json)
      → Healed env value (registry json file) (get_container_by_id_or_name json env value file)
  unfolding get_container_by_id_or_name
  get_container_by_id_or_name-Healed env value file =
      go (find_loop json (matches_id_or_name json value) 0 (readable_records json file))
        (find_loop-Finds json (matches_id_or_name json value) 0 (readable_records json file))
    where
      rs : List Value
      rs = readable_records json file

      result :
          (i : ℕ) (r : Value)
          → Found json (matches_id_or_name json value) 0 rs i r
          → (x : Value) → pack_container_info json x ≡ heal env (pack_container_info json r)
          → some (pack_container_info json x)
            ≡ find_first
                (has_id_or_name value)
                (map_first (has_id_or_name value) (heal env) (registry json file))
      result i r h x e = rw (find-map_first-heal env value (registry json file)) (
          rw
            (find-Found json (matches_id_or_name json value) (has_id_or_name value)
              (matches_same value) rs (some (i, r)) h)
            (ap some e))

      go :
          (o : Option (ℕ × Value))
          → Finds json (matches_id_or_name json value) 0 rs o
          → Healed env value (registry json file) (elim o [
            | none ↦ (none, file)
            | some (i, r) ↦
                if is_stale json env r
                then (
                  some (pack_container_info json (mark_stoped json env r)),
                  write_root json file
                      (set_element (read_root json file).1 i (mark_stoped json env r)),
                )
                else (some (pack_container_info json r), file)
          ])
      go none h =
          let m =
            map-Fails json (matches_id_or_name json value) (has_id_or_name value)
              (matches_same value) rs (heal env) h in
          (
            sym (
                ap (find_first (has_id_or_name value)) (sym m)
                ∙ find-Found json (matches_id_or_name json value) (has_id_or_name value)
                    (matches_same value) rs none h),
            m,
          )
      go (some (i, r)) h = elim (Bool-cases (is_stale json env r)) [
        | inl e ↦ rw e (
          result i r h (mark_stoped json env r) (stale_healed env r e),
          written json (matches_id_or_name json value) file i r (mark_stoped json env r) h
              ∙ map-Found json (matches_id_or_name json value) (has_id_or_name value)
                  (matches_same value) rs i r (mark_stoped json env r) (heal env) h
                  (stale_healed env r e),
        )
        | inr e ↦ rw e (
          result i r h r (fresh_healed env r e),
          ap (map (pack_container_info json))
                (sym (set_same json (matches_id_or_name json value) rs i r h))
              ∙ map-Found json (matches_id_or_name json value) (has_id_or_name value)
                  (matches_same value) rs i r r (heal env) h (fresh_healed env r e),
        )
      ]
