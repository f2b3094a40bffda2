-- ===== src/Tests/Launches.antt =====
-- The launch of a container, and sockets, on concrete runs.
use hoststack.Prelude.{
  ◌≡◌, ◌≢◌, refl, some, [], ◌∷◌, ℕ, zero, suc, none, true, false, ◌==◌, arith, no_answer, some_part,
}
use hoststack.Prelude.Text.{codes}
use hoststack.Launch.{
  Launch, Step, at, serving, failed, waiting, released, unsynchronised, clone, save, listen,
  not_listening, signal, release, Reach, here, next, launched, sem_get, sem_set, sem_zero,
}
use hoststack.Launch.Order.{HasSignalled, Reach-HasSignalled, Reach-stuck}
use hoststack.Io.Pipe.{Pipe, pipe, pipe_io}
use hoststack.Json.Tree.{tree_json}
use hoststack.Kernel.Table.{table_kernel}
use hoststack.Pool.{Pool}
use hoststack.Pool.Serve.{Waiting, serve_round}
use hoststack.Pool.Serve.Kept.{NewEachRound, Onward-all}
use hoststack.Launch.Run.{Listening, World, run_server}
use hoststack.Launch.Run.Clears.{Clears, run_server-Clears}
use hoststack.Tests.Data.{later, one_container}
use hoststack.Sockets.{open_listenfd}
use hoststack.Sockets.Leaks.{Listens, open_listenfd-Listens}
use hoststack.Sockets.Ports.{port_sockets}

-- The server comes as far as the socket, and then the caller goes on.
abbrev normal_run : Reach launched (at 0 serving released)
unfolding sem_get sem_set sem_zero
normal_run =
    next
      (next (next (next (next here (clone 1 waiting)) (save 1 waiting)) (listen 1 waiting))
        (signal 1 waiting))
      (release 0 0 serving refl)

Reach-HasSignalled_example : HasSignalled serving × (◌≡◌ {A = ℕ} 0 0)
Reach-HasSignalled_example = Reach-HasSignalled normal_run refl

-- The socket cannot be bound.
abbrev failing_run : Reach launched (at 1 failed waiting)
unfolding sem_get
failing_run = next (next (next here (clone 1 waiting)) (save 1 waiting)) (not_listening 1 waiting)

Reach-stuck_example :
    (waiting ≢ released)
    × ((m : Launch)
        → Step (at 1 failed waiting) m
        → (waiting ≡ waiting) × (m ≡ at 1 failed unsynchronised))
Reach-stuck_example = Reach-stuck failing_run refl

open_listenfd-Listens_example :
    Listens port_sockets
      (λ fd s. refl)
      ([], [])
      (open_listenfd port_sockets (some (0 ∷ 80 ∷ [])) ([], []))
open_listenfd-Listens_example =
    open_listenfd-Listens port_sockets (λ fd s. refl) (some (0 ∷ 80 ∷ [])) ([], [])

-- The master, descriptor 3, is ready, and no client comes.
abbrev master_ready : Waiting pipe_io
master_ready = record {
  select = λ n r s. (some (1, λ x. x == 3), s);
  accept = λ fd s. (none, s);
  select_patience = λ n r s. omega arith;
  accept_patience = λ fd s. omega arith;
}

-- The socket becomes descriptor 4, a socket is there already, and the child is process 41.
abbrev four : Listening pipe_io
four = record {
  socket = λ s. (some 4, s);
  exists = λ path s. true;
  unlink = λ path s. s;
  bind = λ fd path s. (true, s);
  listen = λ fd s. (true, s);
  sets = λ s. true;
  wait = λ s. (41, s);
  socket_patience = λ s. omega arith;
  unlink_patience = λ path s. omega arith;
  bind_patience = λ fd path s. omega arith;
  listen_patience = λ fd s. omega arith;
}

-- The terminal has ended.
abbrev web_world : World pipe_io table_kernel tree_json
web_world = record {
  state = pipe false 1 [] [];
  host = record { state = []; made = []; log = [] };
  file = one_container;
  sem = 1;
}

no_newcomers : (n : ℕ) (p : Pool) (s : Pipe) → NewEachRound pipe_io master_ready 4100 4 [] n p s
no_newcomers zero p s = tt
no_newcomers (suc n) p s = (
  λ t fd e. absurd (no_answer e),
  Onward-all pipe_io master_ready 4100 4 [] (serve_round pipe_io master_ready 4100 4 [] p s) _
      (no_newcomers n),
)

run_server-Clears_example :
    Clears pipe_io table_kernel tree_json later
      (codes "id-1")
      master_ready
      four
      4100
      []
      3
      41
      2
      web_world
      (run_server pipe_io table_kernel tree_json master_ready four 4100 later
        (codes "id-1")
        []
        3
        41
        2
        web_world)
run_server-Clears_example =
    run_server-Clears pipe_io table_kernel tree_json later (codes "id-1") master_ready four 4100 []
      3 41 2 web_world (λ fd s e. rw (← some_part e) (omega arith))
      (λ fd s e. rw (← some_part e) (no_newcomers 2 _ _)) (omega arith) (omega arith)
