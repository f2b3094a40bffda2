-- ===== src/Info.antt =====
-- util/container_info.h and util/container_info.cpp: the record of a container.
pub mod Volumes
pub mod Printed
use hoststack.Prelude.{Bool, true, false, List, [], ◌∷◌, if◌then◌else◌, ℤ, pos, IsInt, int_eq}
use hoststack.Prelude.Text.{Text, codes, text_lt}

-- container_status_t
abbrev pub container_running : ℤ
container_running = pos 0

abbrev pub container_stoped : ℤ
container_stoped = pos 1

-- `volume_list` is a std::set, listed in its order. A status may be any int that a record held.
pub record ContainerInfo : Type 0 where
  pub pid : ℤ
  pub id : Text
  pub name : Text
  pub command : Text
  pub create_time : ℤ
  pub start_time : ℤ
  pub stop_time : ℤ
  pub status : ℤ
  pub abnormal_stoped : ℤ
  pub volume_list : List Text

-- std::set::insert
unfoldable pub set_insert : Text → List Text → List Text
set_insert v [] = v ∷ []
set_insert v (x ∷ xs) =
    if text_lt v x then v ∷ (x ∷ xs) else if text_lt x v then x ∷ set_insert v xs else x ∷ xs

-- One insertion after another.
abbrev pub insert_all : List Text → List Text → List Text
insert_all set [] = set
insert_all set (v ∷ vs) = insert_all (set_insert v set) vs

unfoldable pub get_status_name : ContainerInfo → Text
get_status_name info =
    if int_eq info.status container_running
    then codes "running"
    else if int_eq info.status container_stoped
    then codes "stoped"
    else codes "---"

abbrev pub is_empty : Text → Bool
is_empty [] = true
is_empty (c ∷ s) = false

unfoldable pub get_name : ContainerInfo → Text
get_name info = if is_empty info.name then info.id else info.name
