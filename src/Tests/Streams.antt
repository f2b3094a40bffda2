-- ===== src/Tests/Streams.antt =====
-- common/socket_io.cpp and pty/pty_exec_util.cpp on a concrete pipe.
use hoststack.Prelude.{ap, some, ◌==◌, refl, false, arith, [], same_some}
use hoststack.Prelude.Text.{codes}
use hoststack.Io.Pipe.{Pipe, pipe, pipe_io}
use hoststack.Rio.{Buffer, rio_readn, rio_writen, rio_readlineb}
use hoststack.Rio.Reads.{DeliversUpTo, rio_readn-DeliversUpTo}
use hoststack.Rio.Writes.{WritesAll, rio_writen-WritesAll}
use hoststack.Rio.Lines.{DeliversLine, rio_readlineb-DeliversLine}
use hoststack.Pool.{Pool, init_pool, check_clients_and_master}
use hoststack.Pool.Serve.{Waiting, serve_round}
use hoststack.Pool.Serve.Kept.{GivesNew, serve_round-Ends}
use hoststack.Pool.Valid.{IsValid}
use hoststack.Pool.Begins.{init_pool-IsValid}
use hoststack.Pool.Rounds.{Ends, check_clients_and_master-Ends}

-- One signal interrupts the first call.
abbrev source : Pipe
source = pipe false 1 (codes "ls -l") []

abbrev held : Buffer
held = record { fd = 5; unread = codes "p" }

rio_readn-DeliversUpTo_example : DeliversUpTo pipe_io 5 4 source (rio_readn pipe_io 6 5 4 source)
rio_readn-DeliversUpTo_example = rio_readn-DeliversUpTo pipe_io 5 6 4 source (omega arith)

rio_writen-WritesAll_example :
    WritesAll pipe_io 5
      (codes "exit now")
      source
      (rio_writen pipe_io 10 5 (codes "exit now") source)
rio_writen-WritesAll_example =
    rio_writen-WritesAll pipe_io 5 10 (codes "exit now") source (omega arith)

rio_readlineb-DeliversLine_example :
    DeliversLine pipe_io (codes "pls -l") 9 [] (rio_readlineb pipe_io 2 held 10 source)
rio_readlineb-DeliversLine_example =
    rio_readlineb-DeliversLine pipe_io 2 held 10 source (omega arith)

abbrev no_pool : Pool
no_pool = record {
  maxfd = 0;
  read_set = λ x. false;
  ready_set = λ x. false;
  nready = 1;
  clients = 0;
  clientfd = [];
  masterfd = 0;
}

abbrev fresh_pool : Pool
fresh_pool = init_pool 4 3 no_pool

fresh_pool-IsValid : IsValid 4 fresh_pool
fresh_pool-IsValid = init_pool-IsValid 4 3 no_pool (omega arith)

check_clients_and_master-Ends_example :
    Ends pipe_io 4100 4 source (check_clients_and_master pipe_io 4100 fresh_pool source)
check_clients_and_master-Ends_example =
    check_clients_and_master-Ends pipe_io 4100 4 fresh_pool source fresh_pool-IsValid (omega arith)

-- The listening descriptor is ready in every round, and clients come as descriptor 7.
abbrev one_client : Waiting pipe_io
one_client = record {
  select = λ n r s. (some (1, λ x. x == 4), s);
  accept = λ fd s. (some 7, s);
  select_patience = λ n r s. omega arith;
  accept_patience = λ fd s. omega arith;
}

gives_seven : GivesNew pipe_io one_client 4100 4 [] fresh_pool.read_set source
unfolding init_pool
gives_seven t fd e = rw (← same_some (ap (λ r. r.0) e)) (refl, omega arith)

serve_round-Ends_example :
    Ends pipe_io 4100 4 source (serve_round pipe_io one_client 4100 4 [] fresh_pool source)
serve_round-Ends_example =
    serve_round-Ends pipe_io one_client 4100 4 [] fresh_pool source gives_seven fresh_pool-IsValid
      (omega arith) (omega arith)
