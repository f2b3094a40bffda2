-- ===== src/Tests/Mounts.antt =====
-- util/container_fs.cpp and common/usg_common.cpp on a concrete kernel.
use hoststack.Prelude.{All, refl, inr, [], ◌∷◌, arith}
use hoststack.Prelude.Text.{codes, text_eq}
use hoststack.Kernel.Table.{table_kernel}
use hoststack.Fs.{Host, mnt_dir_arr}
use hoststack.Fs.Balance.{Accepts, Unmounts, IsUsual}
use hoststack.Dirs.{mkdir_r}
use hoststack.Dirs.Made.{IsNamed, Makes, mkdir_r-Makes}
use hoststack.Dirs.Tree.{tree_dirs}

abbrev bare_host : Host table_kernel
bare_host = record { state = []; made = []; log = [] }

abbrev accepts_all : Accepts table_kernel
accepts_all = λ m s. (m ∷ s, refl)

abbrev unmounts_all : Unmounts table_kernel
unmounts_all = λ path s e. e

abbrev usual_dirs : All (IsUsual table_kernel) mnt_dir_arr
unfolding mnt_dir_arr text_eq
usual_dirs = (
  (refl, inr refl),
  (
    (refl, inr refl),
    (
      (refl, inr refl),
      (
        (refl, inr refl),
        (
          (refl, inr refl),
          (
            (refl, inr refl),
            (
              (refl, inr refl),
              (
                (refl, inr refl),
                (
                  (refl, inr refl),
                  (
                    (refl, inr refl),
                    (
                      (refl, inr refl),
                      (
                        (refl, inr refl),
                        ((refl, inr refl), ((refl, inr refl), ((refl, inr refl), tt))),
                      ),
                    ),
                  ),
                ),
              ),
            ),
          ),
        ),
      ),
    ),
  ),
)

mkdir_r-Makes_example :
    Makes tree_dirs
      (IsNamed tree_dirs)
      (codes "/data/hoststack")
      []
      (mkdir_r tree_dirs 16 (codes "/data/hoststack") [])
mkdir_r-Makes_example = mkdir_r-Makes tree_dirs 16 (codes "/data/hoststack") [] (omega arith)
