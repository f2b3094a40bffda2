-- ===== src/Cli/Run.antt =====
-- cli/container_run_cli.cpp and cli/container_start_cli.cpp: how a container is started, and what
-- its start writes to the data file.
pub mod Names
use hoststack.Prelude.{
  ℕ, Bool, true, false, Option, none, some, List, [], ◌∷◌, if◌then◌else◌, ◌==◌, ℤ, pos, int_eq,
}
use hoststack.Prelude.Text.{Text, codes}
use hoststack.Outcome.{Outcome, ok, exits, undefined, ◌>>=◌}
use hoststack.Getopt.{LongOption, Options, getopt_long, has_option}
use hoststack.Info.{ContainerInfo, container_running, set_insert}
use hoststack.Json.{Json}
use hoststack.Strings.Join.{array_join}
use hoststack.Strings.Split.{str_split}
use hoststack.Strings.Trim.{blanks}
use hoststack.Dao.{DataFile, insert, update, get_container_by_name}
use hoststack.Service.{Processes, Host, find_container}
use hoststack.Cli.{World, calling, with_host, asks_help, flag, valued, Call, StartOption, space}

-- container_run_arg_t
pub record RunArg : Type 0 where
  pub name : Option Text
  pub detach : Bool
  pub volume_list : List Text

-- The cases of the switch.
unfoldable pub run_option : ℕ → Text → RunArg → RunArg
unfolding set_insert
run_option c value opt =
    if c == 100
    then record opt { detach = true }
    else if c == 118
    then record opt { volume_list = set_insert value opt.volume_list }
    else if c == 110
    then record opt { name = some value }
    else opt

abbrev run_options : List (ℕ × Text) → RunArg → RunArg
run_options [] opt = opt
run_options ((c, value) ∷ os) opt = run_options os (run_option c value opt)

abbrev run_table : List LongOption
run_table = flag (codes "detach") 100 ∷ valued (codes "volume") 118 ∷ valued (codes "name") 110 ∷ []

abbrev run_defaults : RunArg
run_defaults = record { name = none; detach = false; volume_list = [] }

-- What getenv gives for SHELL, or bash where that is nothing or empty.
unfoldable pub shell_of : Option Text → Text
shell_of none = codes "/bin/bash"
shell_of (some []) = codes "/bin/bash"
shell_of (some (c ∷ shell)) = c ∷ shell

-- A login shell stands for a command that is not given.
abbrev pub command_of : Option Text → List Text → List Text
command_of shell [] = shell_of shell ∷ codes "-l" ∷ []
command_of shell (a ∷ args) = a ∷ args

abbrev name_text : Option Text → Text
name_text none = []
name_text (some name) = name

-- The record that the callback of a run saves.
abbrev pub run_info : Text → RunArg → Text → ℤ → ℤ → ContainerInfo
run_info id opt command pid now = record {
  pid = pid;
  id = id;
  name = name_text opt.name;
  command = command;
  create_time = now;
  start_time = now;
  stop_time = pos 0;
  status = container_running;
  abnormal_stoped = pos 1;
  volume_list = opt.volume_list;
}

module _ (json : Json) where
  abbrev is_taken : Option ContainerInfo → Bool
  is_taken none = false
  is_taken (some info) = true

  unfoldable pub name_exists : Option Text → DataFile json → Bool
  name_exists none file = false
  name_exists (some name) file = is_taken (get_container_by_name json name file)

  -- The callback of a run. A null pointer out of array_join is assigned to a string.
  abbrev pub save_joined :
      Text → RunArg → ℤ → ℤ → DataFile json → Option (Option Text) → Outcome (DataFile json)
  save_joined id opt pid now file none = undefined
  save_joined id opt pid now file (some none) = undefined
  save_joined id opt pid now file (some (some command)) =
      ok (insert json (run_info id opt command pid now) file)

  unfoldable pub run_started :
      Text → RunArg → List Text → ℤ → ℤ → DataFile json → Outcome (DataFile json)
  run_started id opt cmd pid now file = save_joined id opt pid now file (array_join cmd space)

  -- The callback of a start.
  unfoldable pub start_started : ContainerInfo → ℤ → ℤ → DataFile json → DataFile json
  start_started info pid now file =
      update json
        (record info {
          pid = pid;
          start_time = now;
          status = container_running;
          abnormal_stoped = pos 1;
        })
        file

module _ (json : Json) (procs : Processes) where
  -- ContainerRunCli::handleCommand after its options; the identifier is from gen_id.
  abbrev pub run_parsed :
      Text → Option Text → Option Options → World json procs → Outcome (World json procs)
  run_parsed id shell none w = exits 1 w
  run_parsed id shell (some (os, args)) w =
      let opt = run_options os run_defaults in
      let started = calling json procs (calling json procs w (Call.create id)) (
        Call.start (record {
          container_id = id;
          cmd = command_of shell args;
          detach = opt.detach;
          volume_list = opt.volume_list;
        })) in
      if name_exists json opt.name w.host.file then ok w else ok started

  unfoldable pub run_command :
      Text → Option Text → List Text → World json procs → Outcome (World json procs)
  run_command id shell args w =
      let parsed = run_parsed id shell (getopt_long true run_table args) w in
      if asks_help args then ok w else parsed

  -- What becomes of the command when it is split.
  abbrev pub start_split :
      Bool
      → ContainerInfo
      → Option (Option (List Text))
      → World json procs
      → Outcome (World json procs)
  start_split detach info none w = undefined
  start_split detach info (some none) w = undefined
  start_split detach info (some (some cmd)) w = ok (
      calling json procs w (
        Call.start (record {
          container_id = info.id;
          cmd = cmd;
          detach = detach;
          volume_list = info.volume_list;
        })))

  abbrev pub start_found :
      Bool → Option ContainerInfo → World json procs → Outcome (World json procs)
  start_found detach none w = ok w
  start_found detach (some info) w =
      let split = start_split detach info (str_split (some info.command) blanks) w in
      if int_eq info.status container_running then ok w else split

  -- ContainerStartCli::startContainer
  unfoldable pub start_container : Bool → Text → World json procs → Outcome (World json procs)
  start_container detach name w =
      let (info, h) = find_container json procs name w.host in
      start_found detach info (with_host json procs w h)

  abbrev start_parsed : Option Options → World json procs → Outcome (World json procs)
  start_parsed none w = exits 1 w
  start_parsed (some (os, [])) w = exits 1 w
  start_parsed (some (os, name ∷ names)) w = start_container (has_option 100 os) name w

  unfoldable pub start_command : List Text → World json procs → Outcome (World json procs)
  unfolding start_container
  start_command args w =
      let parsed = start_parsed (getopt_long true (flag (codes "detach") 100 ∷ []) args) w in
      if asks_help args then ok w else parsed
