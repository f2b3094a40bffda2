-- ===== src/Cli/Main.antt =====
-- hoststack.cpp and cli/container_cli.cpp: which command the arguments choose, and
-- cli/container_ls_cli.cpp: what ls shows.
pub mod Shown
use hoststack.Prelude.{
  Bool, true, false, Option, none, some, List, [], ◌∷◌, if◌then◌else◌, ◌||◌, int_eq, ℕ,
}
use hoststack.Prelude.Text.{Text, codes, text_eq}
use hoststack.Outcome.{Outcome, ok, exits, undefined}
use hoststack.Getopt.{Options, getopt_long, has_option}
use hoststack.Info.{ContainerInfo, container_running}
use hoststack.Json.{Json}
use hoststack.Dao.{DataFile, list}
use hoststack.Service.{Processes, Host}
use hoststack.Cli.{World, Call, calling, with_host, asks_help, flag, rm_command, stop_command}
use hoststack.Cli.Run.{run_command, start_command}
use hoststack.Cli.Exec.{exec_command, attach_command}

abbrev pub is_shown : Bool → ContainerInfo → Bool
is_shown all info = all || int_eq info.status container_running

abbrev pub shown : Bool → List ContainerInfo → List ContainerInfo
shown all [] = []
shown all (info ∷ infos) =
    let rest = shown all infos in if is_shown all info then info ∷ rest else rest

module _ (json : Json) where
  abbrev pub shown_of : Bool → Option (List ContainerInfo) → List ContainerInfo
  shown_of all none = []
  shown_of all (some infos) = shown all infos

  abbrev pub ls_parsed : Option Options → DataFile json → Outcome (List ContainerInfo)
  ls_parsed none file = exits 1 []
  ls_parsed (some (os, args)) file = ok (shown_of (has_option 97 os) (list json file))

  -- ContainerLsCli::handleCommand, whose options may stand anywhere: the containers that it shows.
  unfoldable pub ls_command : List Text → DataFile json → Outcome (List ContainerInfo)
  ls_command args file =
      let parsed = ls_parsed (getopt_long false (flag (codes "all") 97 ∷ []) args) file in
      if asks_help args then ok [] else parsed

module _ (json : Json) (procs : Processes) (id : Text) (shell : Option Text) where
  abbrev pub lift_host : World json procs → Outcome (Host json procs) → Outcome (World json procs)
  lift_host w (ok h) = ok (with_host json procs w h)
  lift_host w (exits n h) = exits n (with_host json procs w h)
  lift_host w undefined = undefined

  abbrev pub lift_shown :
      World json procs → Outcome (List ContainerInfo) → Outcome (World json procs)
  lift_shown w (ok infos) = ok w
  lift_shown w (exits n infos) = exits n w
  lift_shown w undefined = undefined

  -- The commands that hoststack and hoststack container share, but ls.
  abbrev pub shared_command :
      Text → List Text → World json procs → Outcome (World json procs) → Outcome (World json procs)
  shared_command action args w other =
      if text_eq action (codes "run")
      then run_command json procs id shell args w
      else if text_eq action (codes "stop")
      then ok (with_host json procs w (stop_command json procs args w.host))
      else if text_eq action (codes "start")
      then start_command json procs args w
      else if text_eq action (codes "exec")
      then exec_command json procs args w
      else if text_eq action (codes "attach")
      then ok (attach_command json procs args w)
      else if text_eq action (codes "rm")
      then lift_host w (rm_command json procs args w.host)
      else other

  -- ContainerCli::handleCommand
  unfoldable pub container_command : List Text → World json procs → Outcome (World json procs)
  container_command [] w = exits 1 w
  container_command (action ∷ args) w = shared_command action args w (
      if text_eq action (codes "ls")
      then lift_shown w (ls_command json args w.host.file)
      else if text_eq action (codes "--help")
      then ok w
      else exits 1 w)

  abbrev pub with_repo : World json procs → World json procs
  with_repo w = calling json procs w Call.create_repo

  -- main, for the effective user 0 or another. An unknown command only prints the usage.
  unfoldable pub main : Bool → List Text → World json procs → Outcome (World json procs)
  unfolding container_command
  main is_root [] w = exits 1 w
  main is_root (target ∷ args) w =
      let w' = with_repo w in
      let chosen =
        if text_eq target (codes "container")
        then container_command args w'
        else shared_command target args w' (
            if text_eq target (codes "ps")
            then lift_shown w' (ls_command json args w'.host.file)
            else ok w') in
      if is_root then chosen else exits 1 w
