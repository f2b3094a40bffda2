-- ===== src/Pool/Serve.antt =====
-- pty/pty_exec_util.cpp: a round of the loop in pty_run_container, which waits for a descriptor, takes
-- a new client in and serves the ready ones. select and accept are interfaces.
pub mod Kept
use hoststack.Prelude.{ℕ, zero, suc, ◌≡◌, ◌≤◌, Bool, true, false, Option, none, some, if◌then◌else◌}
use hoststack.Prelude.Text.{Text}
use hoststack.Outcome.{Outcome, ok, exits, undefined}
use hoststack.Io.{Io}
use hoststack.Rio.{rio_writen}
use hoststack.Pool.{FdSet, Pool, Turn, add_client, and_then, check_clients_and_master}

pub record Waiting (io : Io) : Type 0 where
  -- `none` is -1; otherwise the number of ready descriptors, and their set.
  pub select : ℕ → FdSet → io.State → Option (ℕ × FdSet) × io.State
  pub accept : ℕ → io.State → Option ℕ × io.State
  pub select_patience :
      (n : ℕ) (r : FdSet) (s : io.State) → io.patience (select n r s).1 ≤ io.patience s
  pub accept_patience : (fd : ℕ) (s : io.State) → io.patience (accept fd s).1 ≤ io.patience s

module _ (io : Io) (waiting : Waiting io) (tries listenfd : ℕ) (header : Text) where
  -- The header is sent to the new client, whatever becomes of it.
  abbrev pub greeted : Pool → Option (Bool × io.State) → Turn io tries
  greeted p none = none
  greeted p (some (b, u)) = some (false, (p, u))

  abbrev pub joined : ℕ → Outcome Pool → io.State → Turn io tries
  joined connfd (ok p) t = greeted p (rio_writen io tries connfd header t)
  joined connfd (exits n p) t = none
  joined connfd undefined t = none

  abbrev pub accepted : Pool → Option ℕ × io.State → Turn io tries
  accepted p (none, t) = some (false, (p, t))
  accepted p (some connfd, t) = joined connfd (add_client connfd p) t

  unfoldable pub accept_ready : Pool → io.State → Turn io tries
  unfolding add_client rio_writen
  accept_ready p s =
      let taken = accepted p (waiting.accept listenfd s) in
      if p.ready_set listenfd then taken else some (false, (p, s))

  unfoldable pub serve_ready : Pool → io.State → Turn io tries
  unfolding accept_ready
  serve_ready p s = and_then io tries (accept_ready p s) (check_clients_and_master io tries)

  -- A failing select leaves the set as it was, and counts as no descriptor; after a signal the round
  -- ends at once.
  abbrev pub selected : Pool → Option (ℕ × FdSet) × io.State → Turn io tries
  selected p (none, t) =
      let served = serve_ready (record p { nready = 0; ready_set = p.read_set }) t in
      if io.eintr t
      then some (false, (record p { nready = 0; ready_set = p.read_set }, t))
      else served
  selected p (some (n, r), t) = serve_ready (record p { nready = n; ready_set = r }) t

  unfoldable pub serve_round : Pool → io.State → Turn io tries
  unfolding serve_ready
  serve_round p s = selected p (waiting.select (suc p.maxfd) p.read_set s)

  -- A number of rounds, or fewer where check_clients_and_master returns 1.
  unfoldable pub serve_rounds : ℕ → Pool → io.State → Turn io tries
  unfolding serve_round
  serve_rounds zero p s = some (false, (p, s))
  serve_rounds (suc n) p s = and_then io tries (serve_round p s) (serve_rounds n)
