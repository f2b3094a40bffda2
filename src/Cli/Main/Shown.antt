-- ===== src/Cli/Main/Shown.antt =====
-- cli/container_ls_cli.cpp: what ls shows of the data file.
use hoststack.Prelude.{
  ℕ, if◌then◌else◌, ◌≡◌, refl, ap, ◌∙◌, Bool, true, false, not, some, List, [], ◌∷◌, Bool-cases,
  inl, inr, int_eq,
}
use hoststack.Prelude.First.{reject}
use hoststack.Prelude.Text.{Text, codes}
use hoststack.Outcome.{ok}
use hoststack.Getopt.{getopt_long, has_option}
use hoststack.Info.{ContainerInfo, container_running}
use hoststack.Json.{Json}
use hoststack.Dao.{DataFile}
use hoststack.Dao.Delete.{listed, list-registry}
use hoststack.Dao.Loops.{registry}
use hoststack.Cli.{asks_help, flag}
use hoststack.Cli.Main.{shown, shown_of, ls_command}

abbrev pub is_stopped : ContainerInfo → Bool
is_stopped c = not (int_eq c.status container_running)

shown_all : (cs : List ContainerInfo) → shown true cs ≡ cs
shown_all [] = refl
shown_all (c ∷ cs) = ap (◌∷◌ c) (shown_all cs)

shown_running : (cs : List ContainerInfo) → shown false cs ≡ reject is_stopped cs
shown_running [] = refl
shown_running (c ∷ cs) = elim (Bool-cases (int_eq c.status container_running)) [
  | inl e ↦ rw e (ap (◌∷◌ c) (shown_running cs))
  | inr e ↦ rw e (shown_running cs)
]

module _ (json : Json) where
  shown_of-listed :
      (all : Bool) (cs : List ContainerInfo) → shown_of json all (listed cs) ≡ shown all cs
  shown_of-listed all [] = refl
  shown_of-listed all (c ∷ cs) = refl

  -- With options that are known, ls shows the containers of the data file in their order: all of
  -- them if -a or --all is among the options, and otherwise those that say running, whether their
  -- process exists or not.
  pub ls_command-registry :
      (args : List Text) (os : List (ℕ × Text)) (others : List Text) (file : DataFile json)
      → asks_help args ≡ false
      → getopt_long false (flag (codes "all") 97 ∷ []) args ≡ some (os, others)
      → ls_command json args file
        ≡ ok (
            if has_option 97 os then registry json file else reject is_stopped (registry json file))
  unfolding ls_command
  ls_command-registry args os others file h e =
      rw (h, e)
        (ap ok (
          ap (shown_of json (has_option 97 os)) (list-registry json file)
          ∙ shown_of-listed (has_option 97 os) (registry json file)
          ∙ by_option (has_option 97 os) (registry json file)))
    where
      by_option :
          (all : Bool) (cs : List ContainerInfo)
          → shown all cs ≡ (if all then cs else reject is_stopped cs)
      by_option true cs = shown_all cs
      by_option false cs = shown_running cs
