-- ===== src/Tests/Commands.antt =====
-- cli/ and util/container_service.cpp on a concrete data file.
use hoststack.Prelude.{◌≡◌, refl, none, some, [], ◌∷◌, false, true, pos, arith, inl}
use hoststack.Prelude.First.{find_first, map_first}
use hoststack.Prelude.Text.{codes, text_eq}
use hoststack.Outcome.{ok}
use hoststack.Info.{ContainerInfo}
use hoststack.Libc.{strchr, starts_with}
use hoststack.Json.Tree.{tree_json}
use hoststack.Strings.Trim.{blanks}
use hoststack.Strings.Split.{str_split}
use hoststack.Dao.{get_container_by_name, DataFile, insert, get_container_by_id}
use hoststack.Dao.Loops.{registry}
use hoststack.Dao.Registry.{has_id_or_name, heal}
use hoststack.Service.{Host, env_of, stop}
use hoststack.Service.Table.{one_process}
use hoststack.Service.Stops.{Stops, stop-Stops}
use hoststack.Cli.{asks_help, World, remove_by_name}
use hoststack.Cli.Remove.{searched, Removes, remove_by_name-Removes}
use hoststack.Cli.Exec.{exec_command}
use hoststack.Cli.Exec.Enters.{Enters, exec_command-Enters}
use hoststack.Cli.Main.{ls_command}
use hoststack.Cli.Main.Shown.{ls_command-registry}
use hoststack.Getopt.{getopt_long}
use hoststack.Cli.Run.{name_exists, RunArg, run_started}
use hoststack.Cli.Run.Names.{UniqueNames, run_started-UniqueNames, run_started-Restartable}

abbrev pub web : ContainerInfo
web = record {
  pid = pos 41;
  id = codes "id-1";
  name = codes "web";
  command = codes "bash -l";
  create_time = pos 1700000000;
  start_time = pos 1700000000;
  stop_time = pos 0;
  status = pos 0;
  abnormal_stoped = pos 1;
  volume_list = [];
}

one_container : DataFile tree_json
one_container = insert tree_json web none

abbrev host : Host tree_json one_process
host = record { file = one_container; state = [] }

abbrev world : World tree_json one_process
world = record { host = host; calls = [] }

abbrev options : RunArg
options = record { name = some (codes "db"); detach = true; volume_list = codes "/a:/b" ∷ [] }

stop-Stops_example :
    Stops tree_json one_process
      (find_first (has_id_or_name (codes "web")) (
        map_first
          (has_id_or_name (codes "web"))
          (heal (env_of tree_json one_process []))
          (registry tree_json one_container)))
      []
      (stop tree_json one_process (codes "web") host).state
    × (registry tree_json (stop tree_json one_process (codes "web") host).file
        ≡ map_first
            (has_id_or_name (codes "web"))
            (heal (env_of tree_json one_process []))
            (registry tree_json one_container))
stop-Stops_example = stop-Stops tree_json one_process (codes "web") host

remove_by_name-Removes_example :
    (file : DataFile tree_json) × (registry tree_json file
      ≡ searched tree_json one_process (codes "web") host)
    × Removes tree_json one_process
        (find_first
          (has_id_or_name (codes "web"))
          (searched tree_json one_process (codes "web") host))
        (record { file = file; state = [] })
        (remove_by_name tree_json one_process false (codes "web") host)
remove_by_name-Removes_example = remove_by_name-Removes tree_json one_process (codes "web") host

exec_command-Enters_example :
    Enters tree_json one_process
      (codes "-d" ∷ codes "web" ∷ codes "ls" ∷ [])
      world
      (exec_command tree_json one_process (codes "-d" ∷ codes "web" ∷ codes "ls" ∷ []) world)
exec_command-Enters_example =
    exec_command-Enters tree_json one_process (codes "-d" ∷ codes "web" ∷ codes "ls" ∷ []) world

run_started-UniqueNames_example :
    (file : DataFile tree_json) × (run_started tree_json
        (codes "id-2")
        options
        (codes "ls" ∷ codes "-l" ∷ [])
        (pos 42)
        (pos 7)
        none
      ≡ ok file)
    × UniqueNames (registry tree_json file)
unfolding strchr name_exists get_container_by_name
run_started-UniqueNames_example =
    run_started-UniqueNames tree_json (codes "id-2") options (codes "ls") (codes "-l" ∷ []) (pos 42)
      (pos 7) none ((refl, (refl, tt)), ((refl, (refl, tt)), tt)) (inl refl) (omega arith) (tt, tt)
      refl tt

run_started-Restartable_example :
    (file : DataFile tree_json) × (c : ContainerInfo) × (run_started tree_json
        (codes "id-2")
        options
        (codes "ls" ∷ codes "-l" ∷ [])
        (pos 42)
        (pos 7)
        none
      ≡ ok file)
    × (get_container_by_id tree_json (codes "id-2") file ≡ some c)
    × (str_split (some c.command) blanks ≡ some (some (codes "ls" ∷ codes "-l" ∷ [])))
    × (c.volume_list ≡ codes "/a:/b" ∷ [])
unfolding strchr
run_started-Restartable_example =
    run_started-Restartable tree_json (codes "id-2") options (codes "ls") (codes "-l" ∷ []) (pos 42)
      (pos 7) none ((refl, (refl, tt)), ((refl, (refl, tt)), tt)) (inl refl) (omega arith) (tt, tt)
      refl

ls_command-registry_example :
    ls_command tree_json (codes "--al" ∷ []) one_container ≡ ok (registry tree_json one_container)
unfolding asks_help getopt_long text_eq starts_with
ls_command-registry_example =
    ls_command-registry tree_json (codes "--al" ∷ []) ((97, []) ∷ []) [] one_container refl refl
