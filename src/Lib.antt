-- ===== src/Lib.antt =====
-- hoststack, a container runtime.
--
-- A container is a record in one JSON file, hoststack_data_file, and a directory tree that a
-- process is rooted in. The commands (src/cli) change the file through ContainerDao
-- (src/util/container_dao.cpp) and hand over to ContainerService
-- (src/util/container_service.cpp), which starts the terminal server
-- (src/pty/pty_exec_util.cpp); its child mounts the container's directories
-- (src/util/container_fs.cpp). A supervisor (src/hoststack_supervisor.cpp) restarts the
-- containers that lost their process. All of them use the helpers under src/common.
--
-- The files, and the code that they model:
--   Prelude: shared names, tests, lists, C strings as lists of bytes, 32-bit integers, the first
--     element of a list that passes a test, equations between the answers of calls. Libc: strtok
--     and its relatives. Getopt: getopt_long. Outcome: a call that may exit or be undefined.
--     Returns: calls on a state that return a value, -1 or not at all, and their order.
--   Strings: the string helpers of src/common/usg_common.cpp. Trim: ltrim, rtrim, trim. Join:
--     str_join, array_join, path_join with their buffers (Buffer). Split: str_split. Search:
--     strstr_r.
--   Dirs: mkdir_r, mkdiratfd_r and mkdirat_r of src/common/usg_common.cpp.
--   Io: read and write, as an interface, with Io.Pipe as an instance. Rio: the functions
--     rio_readn, rio_writen, rio_read, rio_readnb and rio_readlineb of src/common/socket_io.cpp,
--     with their wrappers in Rio.Wrappers.
--   Sockets: open_clientfd and open_listenfd of src/common/socket_io.cpp, over the calls on
--     sockets as an interface, with Sockets.Ports as an instance.
--   Pool: the pool of descriptors in src/pty/pty_exec_util.cpp, with init_pool, add_client and
--     check_clients_and_master, and the rounds of the loop of pty_run_container in Pool.Serve.
--   Pty: src/pty/pty_master_open.cpp (Pty.Opens) and src/pty/pty_fork.cpp (Pty.Connects,
--     Pty.Forks, Pty.Clones) over the calls on descriptors, as an interface, with Pty.Desk as an
--     instance. Tty: src/pty/tty_functions.cpp over a terminal's attributes, with Tty.Console as
--     an instance.
--   Relay: pty_client and pty_exec of src/pty/pty_exec_util.cpp, the loops in Relay.Client and
--     Relay.Exec, the functions around them in Relay.Session, with Relay.Wires as an instance.
--   Info: src/util/container_info.h and src/util/container_info.cpp, the printing in
--     Info.Printed. Json: what the code uses of
--     jsoncpp, as an interface, with Json.Tree as an instance. Dao: src/util/container_dao.cpp,
--     one function for each of ContainerDao's; Dao.Loops sees the file as the list of its
--     containers.
--   Paths: src/util/path_assembler.cpp. Kernel: mount and umount2, as an interface, with
--     Kernel.Table as an instance. Fs: src/util/container_fs.cpp, with its volumes in
--     Fs.Volumes.
--   Service: ContainerService::stop, and processes, as an interface, with Service.Table as an
--     instance. Service.Namespaces: ContainerService::exec. Cli: src/cli, rm and stop in Cli,
--     run and start in Cli.Run, exec and attach in Cli.Exec, ls and the choice of a command,
--     with src/hoststack.cpp, in Cli.Main.
--   Supervisor: src/hoststack_supervisor.cpp, with its rounds and threads as a relation in
--     Supervisor.Threads. Launch: the steps of ContainerService::start and
--     of the server as a relation. Launch.Run: the server's whole run, with what it clears away.
--     Semaphores: src/common/sem_util.cpp, the race of SemUtil::get as a relation, the
--     operations over the system calls in Semaphores.Calls and Semaphores.Retries.
--   Logs: src/common/logger.cpp and src/common/logger_factory.cpp. Config:
--     src/common/properties_config.cpp.
--   Tests: the code on concrete inputs.
--
-- State is passed on explicitly: the data file (a document, or none), the kernel's mounts, the
-- state of the descriptors, the processes. Strings are lists of byte values. A buffer has its
-- size, and a write past it is a result of its own. Memory is never exhausted. Messages to the
-- user and the text of log lines are left out.
--
-- Loops that do not follow a list run on fuel: str_split on the length of the string, mkdir_r on
-- that of the path, the Rio loops on the bytes that are wanted and the signals that may still
-- interrupt a call, the waits at a semaphore on those signals. The loops that serve a terminal
-- run for a number of rounds, which is an argument. Either the definition gives this fuel, or
-- the theorem asks for it.
--
-- Not modelled: SemUtil::remove among the steps of the race of SemUtil::get; documents in the
-- data file with members of other types than the code writes, on which jsoncpp throws; the
-- signal handlers of src/util/container_service.cpp, which nothing installs; logPgrp of
-- src/util/logger_factory.h and the macros of src/common/log.h but for _dolog; and the copies
-- of jsoncpp and sole, which are other projects.
pub mod Prelude
pub mod Libc
pub mod Outcome
pub mod Paths
pub mod Kernel
pub mod Fs
pub mod Strings
pub mod Json
pub mod Info
pub mod Io
pub mod Dirs
pub mod Rio
pub mod Sockets
pub mod Pool
pub mod Dao
pub mod Getopt
pub mod Service
pub mod Cli
pub mod Supervisor
pub mod Launch
pub mod Returns
pub mod Pty
pub mod Tty
pub mod Logs
pub mod Config
pub mod Relay
pub mod Semaphores
mod Tests
