-- ===== src/Dao/Stamps.antt =====
-- util/container_dao.cpp: the stop time that change_status_to_stop leaves in a record, which
-- pack_container_info does not read.
use mathlib.Core.Option
use hoststack.Prelude.{◌≡◌, Option, some, map, ℤ, to_int}
use hoststack.Prelude.First.{find_first, map_first}
use hoststack.Prelude.Text.{Text, codes, text_eq}
use hoststack.Info.{ContainerInfo}
use hoststack.Json.{Json}
use hoststack.Dao.{Env, DataFile, readable_records}
use hoststack.Dao.Loops.{registry}
use hoststack.Dao.Registry.{has_id_or_name, heal}
use hoststack.Dao.Stop.{stoped_in}

module _ (json : Json) where
  open json use {
    Value, as_string, as_int, of_int, elements, member, set_element, elements-set_element,
    member-set_member, as_int-of_int,
  }

  -- The stop time in the first record with an id.
  abbrev pub stop_time_in : Text → DataFile json → Option ℤ
  stop_time_in id file =
      Option.map (λ r. as_int (member r (codes "stop_time")))
        (find_first (λ r. text_eq (as_string (member r (codes "id"))) id)
          (readable_records json file))

  -- The containers that are left, and the stop time that the record of the one that was found holds.
  abbrev pub Stops : Env → Text → DataFile json → Option (DataFile json) → Type 0
  Stops env value file o =
      (Option.map (registry json) o
        ≡ stoped_in env value (map_first (has_id_or_name value) (heal env) (registry json file)))
      × ((c : ContainerInfo)
          → find_first (has_id_or_name value)
              (map_first (has_id_or_name value) (heal env) (registry json file))
            ≡ some c
          → (file' : DataFile json) × (o ≡ some file')
            × (stop_time_in c.id file' ≡ some (to_int env.now)))
