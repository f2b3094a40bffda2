-- ===== src/Cli.antt =====
-- cli/: what the commands of hoststack do with the data file and with processes. Usage texts and
-- messages are left out. A command that hands a terminal or a new container on to pty/ records the
-- call.
pub mod Remove
pub mod Run
pub mod Exec
pub mod Main
use hoststack.Prelude.{
  ℕ, Bool, true, false, Option, none, some, List, [], ◌∷◌, ◌++◌, if◌then◌else◌, ℤ, pos, int_eq, not,
}
use hoststack.Prelude.Text.{Text, codes, text_eq}
use hoststack.Outcome.{Outcome, ok, exits, undefined, ◌>>=◌}
use hoststack.Getopt.{LongOption, Options, getopt_long, has_option}
use hoststack.Info.{ContainerInfo, container_running, container_stoped, set_insert}
use hoststack.Json.{Json}
use hoststack.Strings.Join.{array_join}
use hoststack.Strings.Split.{str_split}
use hoststack.Dao.{DataFile, insert, update, get_container_by_name, delete_by_id}
use hoststack.Service.{Processes, Host, env_of, find_container, stop, remove_container}

-- argc == 2 and argv[1] is --help, of the arguments after the command's name.
unfoldable pub asks_help : List Text → Bool
asks_help [] = false
asks_help (a ∷ []) = text_eq a (codes "--help")
asks_help (a ∷ b ∷ args) = false

abbrev pub flag : Text → ℕ → LongOption
flag name letter = record { name = name; letter = letter; takes = false }

abbrev pub valued : Text → ℕ → LongOption
valued name letter = record { name = name; letter = letter; takes = true }

-- container_start_option_t, without the terminal's attributes.
pub record StartOption : Type 0 where
  pub container_id : Text
  pub cmd : List Text
  pub detach : Bool
  pub volume_list : List Text

-- container_exec_option_t
pub record ExecOption : Type 0 where
  pub container_pid : ℤ
  pub container_id : Text
  pub cmd : List Text
  pub detach : Bool

pub data Call : Type 0 where
  create_repo : Call
  create : Text → Call
  start : StartOption → Call
  exec : ExecOption → Call
  attach : Text → Call

abbrev pub space : Text
space = codes " "

module _ (json : Json) (procs : Processes) where
  pub record World : Type 0 where
    pub host : Host json procs
    pub calls : List Call

  abbrev pub with_host : World → Host json procs → World
  with_host w h = record w { host = h }

  abbrev pub calling : World → Call → World
  calling w c = record w { calls = w.calls ++ c ∷ [] }

  -- removeContainer of cli/container_rm_cli.cpp, after its search.
  abbrev pub delete_from : Text → Host json procs → Outcome (Host json procs)
  delete_from id h = elim (delete_by_id json (env_of json procs h.state) id h.file) [
    | none ↦ undefined
    | some file ↦ ok (record h { file = file })
  ]

  unfoldable pub delete_container : Text → Host json procs → Outcome (Host json procs)
  delete_container id h =
      let (removed, s) = remove_container json procs id h.state in
      let h' = record h { state = s } in if removed then delete_from id h' else ok h'

  unfoldable pub remove_found :
      Bool → Text → Option ContainerInfo → Host json procs → Outcome (Host json procs)
  unfolding delete_container
  remove_found force name none h = ok h
  remove_found force name (some info) h =
      if int_eq info.status container_running
      then (if force then delete_container info.id (stop json procs name h) else ok h)
      else delete_container info.id h

  unfoldable pub remove_by_name : Bool → Text → Host json procs → Outcome (Host json procs)
  unfolding remove_found
  remove_by_name force name h =
      let (info, h') = find_container json procs name h in remove_found force name info h'

  abbrev remove_all : Bool → List Text → Host json procs → Outcome (Host json procs)
  remove_all force [] h = ok h
  remove_all force (name ∷ names) h = remove_by_name force name h >>= remove_all force names

  -- ContainerRMCli::handleCommand: what it does after the options.
  abbrev remove_parsed : Option Options → Host json procs → Outcome (Host json procs)
  remove_parsed none h = exits 1 h
  remove_parsed (some (os, [])) h = exits 1 h
  remove_parsed (some (os, name ∷ names)) h = remove_all (has_option 102 os) (name ∷ names) h

  abbrev pub is_nil : List Text → Bool
  is_nil [] = true
  is_nil (a ∷ args) = false

  unfoldable pub rm_command : List Text → Host json procs → Outcome (Host json procs)
  rm_command args h =
      let run = remove_parsed (getopt_long true (flag (codes "force") 102 ∷ []) args) h in
      if is_nil args then ok h else if asks_help args then ok h else run

  -- ContainerStopCli::handleCommand
  abbrev stop_all : List Text → Host json procs → Host json procs
  stop_all [] h = h
  stop_all (name ∷ names) h = stop_all names (stop json procs name h)

  unfoldable pub stop_command : List Text → Host json procs → Host json procs
  stop_command args h = let stopped = stop_all args h in if asks_help args then h else stopped
