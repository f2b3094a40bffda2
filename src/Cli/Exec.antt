-- ===== src/Cli/Exec.antt =====
-- cli/container_exec_cli.cpp and cli/container_attach_cli.cpp: the commands that enter a container.
pub mod Enters
use hoststack.Prelude.{Bool, true, false, Option, none, some, List, [], ◌∷◌, if◌then◌else◌, int_eq}
use hoststack.Prelude.Text.{Text, codes}
use hoststack.Outcome.{Outcome, ok, exits}
use hoststack.Getopt.{Options, getopt_long, has_option}
use hoststack.Info.{ContainerInfo, container_running, container_stoped}
use hoststack.Json.{Json}
use hoststack.Service.{Processes, find_container}
use hoststack.Cli.{World, calling, with_host, asks_help, flag, Call}

-- argc < 3
abbrev pub is_short : List Text → Bool
is_short [] = true
is_short (a ∷ []) = true
is_short (a ∷ b ∷ args) = false

module _ (json : Json) (procs : Processes) where
  abbrev pub exec_found :
      Bool → List Text → Option ContainerInfo → World json procs → World json procs
  exec_found detach cmd none w = w
  exec_found detach cmd (some info) w =
      let called = calling json procs w (
        Call.exec (record {
          container_pid = info.pid;
          container_id = info.id;
          cmd = cmd;
          detach = detach;
        })) in
      if int_eq info.status container_running then called else w

  abbrev pub exec_parsed : Option Options → World json procs → Outcome (World json procs)
  exec_parsed none w = exits 1 w
  exec_parsed (some (os, [])) w = ok w
  exec_parsed (some (os, name ∷ [])) w = ok w
  exec_parsed (some (os, name ∷ a ∷ cmd)) w =
      let (info, h) = find_container json procs name w.host in
      ok (exec_found (has_option 100 os) (a ∷ cmd) info (with_host json procs w h))

  unfoldable pub exec_command : List Text → World json procs → Outcome (World json procs)
  exec_command args w =
      let parsed = exec_parsed (getopt_long true (flag (codes "detach") 100 ∷ []) args) w in
      if asks_help args then ok w else if is_short args then ok w else parsed

  abbrev pub attach_found : Option ContainerInfo → World json procs → World json procs
  attach_found none w = w
  attach_found (some info) w =
      let called = calling json procs w (Call.attach info.id) in
      if int_eq info.status container_stoped then w else called

  unfoldable pub attach_command : List Text → World json procs → World json procs
  attach_command [] w = w
  attach_command (name ∷ args) w =
      let (info, h) = find_container json procs name w.host in
      let attached = attach_found info (with_host json procs w h) in
      if asks_help (name ∷ args) then w else attached
