-- ===== src/Tests/Data.antt =====
-- The data file of containers on concrete documents.
use hoststack.Prelude.{◌≡◌, refl, none, [], ◌∷◌, arith, false, inl, pos}
use hoststack.Prelude.Text.{codes, text_lt}
use hoststack.Info.{ContainerInfo, container_running}
use hoststack.Json.Tree.{tree_json}
use hoststack.Dao.{Env, DataFile, insert, update, get_container_by_id_or_name, delete_by_id}
use hoststack.Dao.Records.{IsStorable}
use hoststack.Dao.Loops.{registry}
use hoststack.Dao.Registry.{Healed, get_container_by_id_or_name-Healed}
use hoststack.Dao.Update.{registry-update}
use hoststack.Dao.Delete.{Deletes, delete_by_id-Deletes}
use hoststack.Dao.Unique.{
  Writes, none_yet, then_one, inserts, searches, UniqueIds, Writes-UniqueIds,
}

abbrev pub web : ContainerInfo
web = record {
  pid = pos 41;
  id = codes "id-1";
  name = codes "web";
  command = codes "bash -l";
  create_time = pos 1700000000;
  start_time = pos 1700000000;
  stop_time = pos 0;
  status = container_running;
  abnormal_stoped = pos 1;
  volume_list = codes "/a:/a" ∷ codes "/b:/b" ∷ [];
}

abbrev web_IsStorable : IsStorable web
unfolding text_lt
web_IsStorable = record {
  pid_IsInt = omega arith;
  status_IsInt = omega arith;
  abnormal_IsInt = omega arith;
  volumes = ((refl, tt), (tt, tt));
}

-- A clock, and no process.
abbrev pub later : Env
later = record { now = pos 1700000100; alive = λ pid. false }

pub one_container : DataFile tree_json
one_container = insert tree_json web none

get_container_by_id_or_name-Healed_example :
    Healed tree_json later
      (codes "web")
      (registry tree_json one_container)
      (get_container_by_id_or_name tree_json later (codes "web") one_container)
get_container_by_id_or_name-Healed_example =
    get_container_by_id_or_name-Healed tree_json later (codes "web") one_container

-- On a file that is not there, update stores nothing.
registry-update_example : registry tree_json (update tree_json web none) ≡ []
registry-update_example = registry-update tree_json web none (inl refl) web_IsStorable

delete_by_id-Deletes_example :
    Deletes tree_json later
      (codes "id-1")
      one_container
      (delete_by_id tree_json later (codes "id-1") one_container)
delete_by_id-Deletes_example = delete_by_id-Deletes tree_json later (codes "id-1") one_container

-- A container is saved, and found without its process.
abbrev saved_and_found :
    Writes tree_json none
      (get_container_by_id_or_name tree_json later (codes "web") (insert tree_json web none)).1
saved_and_found =
    then_one (then_one none_yet (inserts web none (inl refl) web_IsStorable tt))
      (searches later (codes "web") (insert tree_json web none))

Writes-UniqueIds_example :
    UniqueIds tree_json
      (get_container_by_id_or_name tree_json later (codes "web") (insert tree_json web none)).1
Writes-UniqueIds_example = Writes-UniqueIds tree_json saved_and_found tt
