-- ===== src/Pool.antt =====
-- pty/pty_exec_util.cpp: the pool of descriptors of the terminal server, and the loop of
-- pty_run_container over it. A client slot that holds -1 is `none`. A result `none` is the end of
-- the tries of rio_writen, and its Boolean tells whether the return value is 1.
pub mod Valid
pub mod Slots
pub mod Sets
pub mod Begins
pub mod Kept
pub mod Rounds
pub mod Serve
use hoststack.Prelude.{
  ℕ, zero, suc, ◌+◌, ◌-◌, Bool, true, false, Option, none, some, List, [], ◌∷◌, if◌then◌else◌, ltb,
  leb, ◌==◌, ◌&&◌, get_or, set, replicate, length,
}
use hoststack.Prelude.Text.{Text}
use hoststack.Outcome.{Outcome, ok, undefined}
use hoststack.Io.{Io}
use hoststack.Rio.{rio_writen, after_read}

-- fd_set
abbrev pub FdSet : Type 0
FdSet = ℕ → Bool

abbrev pub fd_set : ℕ → FdSet → FdSet
fd_set fd s x = if x == fd then true else s x

abbrev pub fd_clr : ℕ → FdSet → FdSet
fd_clr fd s x = if x == fd then false else s x

-- FD_SETSIZE
abbrev pub fd_setsize : ℕ
fd_setsize = 1024

-- `clients` is maxi + 1. nready is only tested for > 0, so that what lies below 0 is 0.
pub record Pool : Type 0 where
  pub maxfd : ℕ
  pub read_set : FdSet
  pub ready_set : FdSet
  pub nready : ℕ
  pub clients : ℕ
  pub clientfd : List (Option ℕ)
  pub masterfd : ℕ

abbrev pub slot : List (Option ℕ) → ℕ → Option ℕ
slot fds i = get_or fds i none

unfoldable pub init_pool : ℕ → ℕ → Pool → Pool
init_pool listenfd masterfd p = record p {
  maxfd = listenfd;
  read_set = fd_set masterfd (fd_set listenfd (λ x. false));
  clients = 0;
  clientfd = replicate fd_setsize none;
  masterfd = masterfd;
}

abbrev pub max : ℕ → ℕ → ℕ
max a b = if ltb a b then b else a

-- The first slot with a negative descriptor.
unfoldable pub free_slot : List (Option ℕ) → Option ℕ
free_slot [] = none
free_slot (none ∷ fds) = some 0
free_slot (some fd ∷ fds) = elim (free_slot fds) [ none ↦ none | some i ↦ some (suc i) ]

abbrev pub fill_slot : ℕ → ℕ → Pool → Pool
fill_slot connfd i p = record p {
  clientfd = set p.clientfd i (some connfd);
  read_set = fd_set connfd p.read_set;
  maxfd = max p.maxfd connfd;
  clients = max p.clients (suc i);
}

-- FD_SET of a descriptor past the set is undefined. Too many clients are only logged.
unfoldable pub add_client : ℕ → Pool → Outcome Pool
unfolding free_slot
add_client connfd p₀ =
    let p = record p₀ { nready = p₀.nready - 1 } in
    elim (free_slot p.clientfd) [
      | none ↦ ok p
      | some i ↦ if ltb connfd fd_setsize then ok (fill_slot connfd i p) else undefined
    ]

abbrev pub clear_slot : ℕ → ℕ → Pool → Pool
clear_slot connfd i p = record p {
  read_set = fd_clr connfd p.read_set;
  clientfd = set p.clientfd i none;
}

abbrev pub one_less : Pool → Pool
one_less p = record p { nready = p.nready - 1 }

module _ (io : Io) (tries : ℕ) where
  abbrev pub Turn : Type 0
  Turn = Option (Bool × (Pool × io.State))

  -- close, FD_CLR, -1
  abbrev pub drop_client : ℕ → ℕ → Pool → io.State → Pool × io.State
  drop_client connfd i p t = (clear_slot connfd i p, io.close connfd t)

  -- read returned 0 or -1: errno decides.
  abbrev pub unless_interrupted : Turn → Turn → io.State → Turn
  unless_interrupted same other t = if io.eintr t then same else other

  abbrev pub forwarded : Pool → Option (Bool × io.State) → Turn
  forwarded p none = none
  forwarded p (some (true, u)) = some (false, (p, u))
  forwarded p (some (false, u)) = some (true, (p, u))

  -- What a ready client has typed goes to the master.
  pub serve_client : ℕ → ℕ → Pool → io.State → Turn
  unfolding rio_writen
  serve_client connfd i p s =
      after_read io.eintr (io.read connfd 4096 s) (λ t. some (false, (p, t)))
        (λ t. some (false, drop_client connfd i p t))
        (λ t. unless_interrupted (some (false, (p, t))) (some (false, drop_client connfd i p t)) t)
        (λ d t. forwarded p (rio_writen io tries p.masterfd d t))

  -- The body of the first loop. A descriptor 0 is no client's.
  pub check_client : ℕ → Pool → io.State → Turn
  unfolding serve_client
  check_client i p s = elim (slot p.clientfd i) [
    | none ↦ some (false, (p, s))
    | some connfd ↦
        let turn = serve_client connfd i (one_less p) s in
        if ltb 0 connfd && p.ready_set connfd then turn else some (false, (p, s))
  ]

  abbrev pub and_then : Turn → (Pool → io.State → Turn) → Turn
  and_then none go = none
  and_then (some (true, r)) go = some (true, r)
  and_then (some (false, (p, s))) go = go p s

  -- The first loop, from i on with k slots to go.
  pub check_clients : ℕ → ℕ → Pool → io.State → Turn
  unfolding check_client
  check_clients zero i p s = some (false, (p, s))
  check_clients (suc k) i p s =
      let turn = and_then (check_client i p s) (λ p' t. check_clients k (suc i) p' t) in
      if ltb 0 p.nready then turn else some (false, (p, s))

  abbrev pub sent : ℕ → ℕ → Pool → Option (Bool × io.State) → Turn
  sent connfd i p none = none
  sent connfd i p (some (true, u)) = some (false, (p, u))
  sent connfd i p (some (false, u)) = some (false, drop_client connfd i p u)

  -- The body of the loop that sends the master's output to every client.
  pub send_client : Text → ℕ → Pool → io.State → Turn
  unfolding rio_writen
  send_client buf i p s = elim (slot p.clientfd i) [
    | none ↦ some (false, (p, s))
    | some connfd ↦
        let turn = sent connfd i p (rio_writen io tries connfd buf s) in
        if ltb 0 connfd then turn else some (false, (p, s))
  ]

  pub send_clients : Text → ℕ → ℕ → Pool → io.State → Turn
  unfolding send_client
  send_clients buf zero i p s = some (false, (p, s))
  send_clients buf (suc k) i p s =
      and_then (send_client buf i p s) (λ p' t. send_clients buf k (suc i) p' t)

  pub check_master : Pool → io.State → Turn
  unfolding send_clients
  check_master p s =
      let turn =
        after_read io.eintr (io.read p.masterfd 4096 s) (λ t. some (false, (one_less p, t)))
          (λ t. some (true, (one_less p, t)))
          (λ t. unless_interrupted (some (false, (one_less p, t))) (some (true, (one_less p, t))) t)
          (λ d t. send_clients d p.clients 0 (one_less p) t) in
      if p.ready_set p.masterfd then turn else some (false, (p, s))

  unfoldable pub check_clients_and_master : Pool → io.State → Turn
  unfolding check_clients check_master
  check_clients_and_master p s = and_then (check_clients p.clients 0 p s) check_master
