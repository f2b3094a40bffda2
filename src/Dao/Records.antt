-- ===== src/Dao/Records.antt =====
-- util/container_dao.cpp: what pack_container_info reads back of the record that
-- de_pack_container_info wrote.
use mathlib.Core.List.{append_assoc, append-nil}
use hoststack.Prelude.{
  ◌≡◌, refl, sym, ◌∙◌, List, [], ◌∷◌, ◌++◌, map, arith, pos, to_int, to_int-IsInt, IsInt,
}
use hoststack.Prelude.Text.{Text, codes, text_eq}
use hoststack.Info.{ContainerInfo, container_stoped}
use hoststack.Info.Volumes.{IsVolumeSet, insert_all_self}
use hoststack.Json.{Json}
use hoststack.Dao.{Env, pack_container_info, de_pack_container_info, append_strings, mark_stoped}

-- The numbers of a record fit an int, and its volumes are the list of a set.
pub record IsStorable (info : ContainerInfo) : Type 0 where
  pub pid_IsInt : IsInt info.pid
  pub status_IsInt : IsInt info.status
  pub abnormal_IsInt : IsInt info.abnormal_stoped
  pub volumes : IsVolumeSet info.volume_list

-- What a record keeps of a container: the start and stop times are lost.
abbrev pub stored : ContainerInfo → ContainerInfo
stored info = record info {
  create_time = to_int info.create_time;
  start_time = pos 0;
  stop_time = pos 0;
}

module _ (json : Json) where
  open json use {
    Value, null, of_string, of_int, as_string, as_int, elements, append, member, set_member,
    as_string-of_string, as_int-of_int, elements-null, elements-append, member-set_member,
  }

  elements-append_strings :
      (v : Value) (ss : List Text)
      → elements (append_strings json v ss) ≡ elements v ++ map of_string ss
  elements-append_strings v [] = sym (append-nil (elements v))
  elements-append_strings v (s ∷ ss) =
      elements-append_strings (append v (of_string s)) ss
      ∙ rw elements-append (append_assoc (elements v) (of_string s ∷ []) (map of_string ss))

  map-as_string : (ss : List Text) → map as_string (map of_string ss) ≡ ss
  map-as_string [] = refl
  map-as_string (s ∷ ss) = cc (as_string-of_string s, map-as_string ss)

  volumes_back : (ss : List Text) → map as_string (elements (append_strings json null ss)) ≡ ss
  volumes_back ss = rw (elements-append_strings null ss, elements-null) (map-as_string ss)

  pub id_back :
      (v : Value) (info : ContainerInfo)
      → as_string (member (de_pack_container_info json v info) (codes "id")) ≡ info.id
  unfolding de_pack_container_info text_eq
  id_back v info = simp member-set_member (as_string-of_string info.id)

  -- pack_container_info of a record that de_pack_container_info has written, over whatever the
  -- record held, gives the container back with its creation time cut to 32 bits, and loses its
  -- start and stop times.
  pub pack-de_pack :
      (v : Value) (info : ContainerInfo)
      → IsStorable info
      → pack_container_info json (de_pack_container_info json v info) ≡ stored info
  unfolding de_pack_container_info pack_container_info text_eq
  pack-de_pack v info s = simp (
    member-set_member,
    as_string-of_string,
    volumes_back info.volume_list,
    insert_all_self info.volume_list s.volumes,
    as_int-of_int info.pid s.pid_IsInt,
    as_int-of_int info.status s.status_IsInt,
    as_int-of_int info.abnormal_stoped s.abnormal_IsInt,
    as_int-of_int (to_int info.create_time) (to_int-IsInt info.create_time),
  )

  -- Marking a record as stopped changes two fields of its container.
  pub pack-mark_stoped :
      (env : Env) (r : Value)
      → pack_container_info json (mark_stoped json env r)
        ≡ record (pack_container_info json r) { status = container_stoped; pid = pos 0 }
  unfolding mark_stoped pack_container_info text_eq
  pack-mark_stoped env r = simp (
    member-set_member,
    as_int-of_int container_stoped (omega arith),
    as_int-of_int (pos 0) (omega arith),
  )
