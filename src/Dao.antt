-- ===== src/Dao.antt =====
-- util/container_dao.cpp: the data file of containers. The state is the document in
-- hoststack_data_file, `none` where it cannot be opened. The clock and the process table (the test
-- for /proc/PID) are arguments.
pub mod Records
pub mod Loops
pub mod Registry
pub mod Again
pub mod Update
pub mod Delete
pub mod Stop
pub mod Stamps
pub mod Unique
use hoststack.Prelude.{
  ℕ, suc, Bool, true, false, not, ◌&&◌, ◌||◌, Option, none, some, List, [], ◌∷◌, map, ◌==◌,
  if◌then◌else◌, length, ℤ, pos, to_int, int_eq,
}
use hoststack.Prelude.Text.{Text, codes, text_eq}
use hoststack.Info.{ContainerInfo, insert_all, container_running, container_stoped}
use hoststack.Json.{Json}

-- What the environment answers while an operation runs: the time, and which processes exist.
pub record Env : Type 0 where
  pub now : ℤ
  pub alive : ℤ → Bool

module _ (json : Json) where
  open json use {
    Value, Document, null, of_string, of_int, as_string, as_int, elements, append, set_element,
    member, set_member, to_styled_string, parse, empty_document,
  }

  abbrev pub DataFile : Type 0
  DataFile = Option Document

  -- start_time and stop_time are not read back: they stay 0.
  unfoldable pub pack_container_info : Value → ContainerInfo
  pack_container_info v = record {
    pid = as_int (member v (codes "pid"));
    id = as_string (member v (codes "id"));
    name = as_string (member v (codes "name"));
    command = as_string (member v (codes "command"));
    create_time = as_int (member v (codes "create_time"));
    start_time = pos 0;
    stop_time = pos 0;
    status = as_int (member v (codes "status"));
    abnormal_stoped = as_int (member v (codes "abnormal_stoped"));
    volume_list = insert_all [] (map as_string (elements (member v (codes "volume"))));
  }

  abbrev append_strings : Value → List Text → Value
  append_strings v [] = v
  append_strings v (s ∷ ss) = append_strings (append v (of_string s)) ss

  unfoldable pub de_pack_container_info : Value → ContainerInfo → Value
  de_pack_container_info v info =
      let v1 = set_member v (codes "id") (of_string info.id) in
      let v2 = set_member v1 (codes "name") (of_string info.name) in
      let v3 = set_member v2 (codes "pid") (of_int info.pid) in
      let v4 = set_member v3 (codes "command") (of_string info.command) in
      let v5 = set_member v4 (codes "create_time") (of_int (to_int info.create_time)) in
      let v6 = set_member v5 (codes "start_time") (of_int (to_int info.start_time)) in
      let v7 = set_member v6 (codes "stop_time") (of_int (to_int info.stop_time)) in
      let v8 = set_member v7 (codes "status") (of_int info.status) in
      let v9 = set_member v8 (codes "abnormal_stoped") (of_int info.abnormal_stoped) in
      set_member v9 (codes "volume") (append_strings null info.volume_list)

  -- What Reader::parse gives of the file's stream.
  abbrev pub read_root : DataFile → Bool × Value
  read_root none = parse empty_document
  read_root (some doc) = parse doc

  abbrev pub is_open : DataFile → Bool
  is_open none = false
  is_open (some doc) = true

  abbrev pub is_empty_root : Value → Bool
  is_empty_root root = length (elements root) == 0

  -- The file is truncated, whatever it held, and written anew.
  abbrev pub write_root : DataFile → Value → DataFile
  write_root file root = some (to_styled_string root)

  unfoldable pub insert : ContainerInfo → DataFile → DataFile
  unfolding de_pack_container_info
  insert info file =
      let root = if is_open file then (read_root file).1 else null in
      write_root file (append root (de_pack_container_info null info))

  -- The loop over root[i]: the first record with the id is overwritten.
  unfoldable pub update_loop : ContainerInfo → Value → ℕ → List Value → Value
  update_loop info root i [] = root
  update_loop info root i (r ∷ rs) =
      if text_eq (as_string (member r (codes "id"))) info.id
      then set_element root i (de_pack_container_info r info)
      else update_loop info root (suc i) rs

  -- The three early inserts do not return.
  unfoldable pub update : ContainerInfo → DataFile → DataFile
  unfolding insert update_loop
  update info file =
      let (parsed, root) = read_root file in
      let file1 = if is_open file then file else insert info file in
      let file2 = if parsed then file1 else insert info file1 in
      let file3 = if is_empty_root root then insert info file2 else file2 in
      write_root file3 (update_loop info root 0 (elements root))

  abbrev find_loop : (Value → Bool) → ℕ → List Value → Option (ℕ × Value)
  find_loop test i [] = none
  find_loop test i (r ∷ rs) = if test r then some (i, r) else find_loop test (suc i) rs

  -- The records that the early returns leave to a loop: none of a file that cannot be read.
  abbrev pub readable_records : DataFile → List Value
  readable_records none = []
  readable_records (some doc) =
      let (parsed, root) = parse doc in if parsed then elements root else []

  unfoldable pub get_container_by : Text → Text → DataFile → Option ContainerInfo
  unfolding pack_container_info
  get_container_by name value file =
      elim (find_loop (λ r. text_eq (as_string (member r name)) value) 0 (readable_records file)) [
        | none ↦ none
        | some (i, r) ↦ some (pack_container_info r)
      ]

  unfoldable pub get_container_by_id : Text → DataFile → Option ContainerInfo
  unfolding get_container_by
  get_container_by_id = get_container_by (codes "id")

  unfoldable pub get_container_by_name : Text → DataFile → Option ContainerInfo
  unfolding get_container_by
  get_container_by_name = get_container_by (codes "name")

  -- A record that says running although its process is gone.
  unfoldable pub is_stale : Env → Value → Bool
  is_stale env r =
      int_eq (as_int (member r (codes "status"))) container_running
      && not (env.alive (as_int (member r (codes "pid"))))

  unfoldable pub mark_stoped : Env → Value → Value
  mark_stoped env r =
      let r1 = set_member r (codes "status") (of_int container_stoped) in
      let r2 = set_member r1 (codes "stop_time") (of_int (to_int env.now)) in
      set_member r2 (codes "pid") (of_int (pos 0))

  unfoldable pub matches_id_or_name : Text → Value → Bool
  matches_id_or_name value r =
      text_eq (as_string (member r (codes "name"))) value
      || text_eq (as_string (member r (codes "id"))) value

  unfoldable pub get_container_by_id_or_name :
      Env → Text → DataFile → Option ContainerInfo × DataFile
  unfolding pack_container_info matches_id_or_name is_stale mark_stoped
  get_container_by_id_or_name env value file =
      elim (find_loop (matches_id_or_name value) 0 (readable_records file)) [
        | none ↦ (none, file)
        | some (i, r) ↦
            if is_stale env r
            then (
              some (pack_container_info (mark_stoped env r)),
              write_root file (set_element (read_root file).1 i (mark_stoped env r)),
            )
            else (some (pack_container_info r), file)
      ]

  abbrev keep_others : Text → Value → List Value → Value
  keep_others id root [] = root
  keep_others id root (r ∷ rs) =
      if text_eq (as_string (member r (codes "id"))) id
      then keep_others id root rs
      else keep_others id (append root r) rs

  abbrev delete_records : Option ContainerInfo → DataFile → List Value → Option DataFile
  delete_records info file [] = some file
  delete_records none file (r ∷ rs) = none
  delete_records (some found) file (r ∷ rs) =
      some (write_root file (keep_others found.id null (r ∷ rs)))

  -- `none`: the id of an empty optional is read, which is undefined.
  unfoldable pub delete_by_id : Env → Text → DataFile → Option DataFile
  unfolding get_container_by_id_or_name
  delete_by_id env name file =
      let (info, file') = get_container_by_id_or_name env name file in
      delete_records info file' (readable_records file')

  abbrev stop_found : Env → Option ContainerInfo → DataFile → Option DataFile
  stop_found env none file = none
  stop_found env (some info) file = some (
      update
        (record info {
          status = container_stoped;
          abnormal_stoped = pos 0;
          stop_time = env.now;
          pid = pos 0;
        })
        file)

  -- `none`: an empty optional is written to, which is undefined.
  unfoldable pub change_status_to_stop : Env → Text → DataFile → Option DataFile
  unfolding get_container_by_id_or_name update
  change_status_to_stop env name file =
      let (info, file') = get_container_by_id_or_name env name file in stop_found env info file'

  -- A null pointer for a file that cannot be read or holds nothing.
  abbrev list_records : List Value → Option (List ContainerInfo)
  list_records [] = none
  list_records (r ∷ rs) = some (map pack_container_info (r ∷ rs))

  unfoldable pub list : DataFile → Option (List ContainerInfo)
  list file = list_records (readable_records file)
