-- ===== src/Paths.antt =====
-- util/path_assembler.cpp and util/path_assembler.h: where a container keeps its directories. Each
-- function of the source has a static buffer of its own, and no caller keeps a result over a second
-- call with another container.
use hoststack.Prelude.{◌++◌}
use hoststack.Prelude.Text.{Text, codes}

abbrev pub fs_type : Text
fs_type = codes "overlay2"

abbrev pub hoststack_repo : Text
hoststack_repo = codes "/data/hoststack"

unfoldable pub get_union_fs : Text
get_union_fs = hoststack_repo ++ (codes "/" ++ fs_type)

unfoldable pub get_layer_dir : Text → Text
unfolding get_union_fs
get_layer_dir container_id = get_union_fs ++ (codes "/" ++ container_id)

unfoldable pub get_merged_dir : Text → Text
unfolding get_layer_dir
get_merged_dir container_id = get_layer_dir container_id ++ codes "/merged"

unfoldable pub get_work_dir : Text → Text
unfolding get_layer_dir
get_work_dir container_id = get_layer_dir container_id ++ codes "/work"

unfoldable pub get_diff_dir : Text → Text
unfolding get_layer_dir
get_diff_dir container_id = get_layer_dir container_id ++ codes "/diff"
