-- ===== src/Pool/Serve/Kept.antt =====
-- pty/pty_exec_util.cpp: a round of the server's loop, against the validity of the pool.
use hoststack.Prelude.{
  ℕ, zero, suc, ◌+◌, ◌≤◌, ◌<◌, ◌≡◌, refl, Bool, true, false, Option, none, some, Bool-cases, inl,
  inr, arith, length, subst,
}
use hoststack.Prelude.Text.{Text}
use hoststack.Io.{Io}
use hoststack.Rio.Writes.{WritesAll, rio_writen-WritesAll}
use hoststack.Pool.{and_then, Turn, FdSet, Pool, fd_setsize, add_client, Turn, and_then}
use hoststack.Pool.Valid.{IsValid}
use hoststack.Pool.Kept.{add_client-Adds}
use hoststack.Pool.Rounds.{Ends, check_clients_and_master-Ends, then-Ends, skip-Ends, since}
use hoststack.Pool.Serve.{
  Waiting, greeted, joined, accepted, accept_ready, serve_ready, selected, serve_round,
  serve_rounds,
}

module _ (io : Io) (waiting : Waiting io) (tries listenfd : ℕ) (header : Text) where
  -- In this state, accept gives a descriptor that is not in use, and that fits the set.
  abbrev pub GivesNew : FdSet → io.State → Type 0
  GivesNew read_set s =
      (t : io.State) (fd : ℕ)
      → waiting.accept listenfd s ≡ (some fd, t)
      → (read_set fd ≡ false) × (fd < fd_setsize)

  greeted-Ends :
      (connfd : ℕ) (p : Pool) (t : io.State) (o : Option (Bool × io.State))
      → IsValid listenfd p
      → WritesAll io connfd header t o
      → Ends io tries listenfd t (greeted io waiting tries listenfd header p o)
  greeted-Ends connfd p t none v w = w
  greeted-Ends connfd p t (some (true, u)) v (w, m) = (v, m)
  greeted-Ends connfd p t (some (false, u)) v (x, rest, e, w, m, r) = (v, m)

  joined-Ends :
      (connfd : ℕ) (p : Pool) (t : io.State)
      → IsValid listenfd p
      → connfd < fd_setsize
      → p.read_set connfd ≡ false
      → length header + io.patience t < tries
      → Ends io tries listenfd t
          (joined io waiting tries listenfd header connfd (add_client connfd p) t)
  joined-Ends connfd p t v l fresh h =
      let (p', e, a) = add_client-Adds listenfd connfd p v l fresh in
      rw e (greeted-Ends connfd p' t _ a.0 (rio_writen-WritesAll io connfd tries header t h))

  accepted-Ends :
      (p : Pool) (s : io.State) (r : Option ℕ × io.State)
      → waiting.accept listenfd s ≡ r
      → GivesNew p.read_set s
      → IsValid listenfd p
      → length header + io.patience s < tries
      → Ends io tries listenfd s (accepted io waiting tries listenfd header p r)
  accepted-Ends p s (none, t) e g v h =
      (v, subst (λ x. io.patience x.1 ≤ io.patience s) e (waiting.accept_patience listenfd s))
  accepted-Ends p s (some connfd, t) e g v h =
      let m = subst (λ x. io.patience x.1 ≤ io.patience s) e (waiting.accept_patience listenfd s) in
      let (fresh, l) = g t connfd e in
      since io tries listenfd s t m _ (joined-Ends connfd p t v l fresh (omega (arith, h, m)))

  serve_ready-Ends :
      (p : Pool) (s : io.State)
      → GivesNew p.read_set s
      → IsValid listenfd p
      → length header + io.patience s < tries
      → 4096 + io.patience s < tries
      → Ends io tries listenfd s (serve_ready io waiting tries listenfd header p s)
  unfolding serve_ready accept_ready
  serve_ready-Ends p s g v h l =
      then-Ends io tries listenfd s _ _
        (skip-Ends io tries listenfd (p.ready_set listenfd) p s _ v
          (accepted-Ends p s (waiting.accept listenfd s) refl g v h))
        (λ p' t v' m. check_clients_and_master-Ends io tries listenfd p' t v' (omega (arith, l, m)))

  selected-Ends :
      (p : Pool) (s : io.State) (r : Option (ℕ × FdSet) × io.State)
      → io.patience r.1 ≤ io.patience s
      → GivesNew p.read_set r.1
      → IsValid listenfd p
      → length header + io.patience s < tries
      → 4096 + io.patience s < tries
      → Ends io tries listenfd s (selected io waiting tries listenfd header p r)
  selected-Ends p s (none, t) m g v h l = elim (Bool-cases (io.eintr t)) [
    | inl e ↦ rw e (v, m)
    | inr e ↦ rw e (
        since io tries listenfd s t m _ (
          serve_ready-Ends (record p { nready = 0; ready_set = p.read_set }) t g v
            (omega (arith, h, m)) (omega (arith, l, m))))
  ]
  selected-Ends p s (some (n, r), t) m g v h l = since io tries listenfd s t m _ (
      serve_ready-Ends (record p { nready = n; ready_set = r }) t g v (omega (arith, h, m))
        (omega (arith, l, m)))

  -- The accept of the next round.
  abbrev pub NewNext : Pool → io.State → Type 0
  NewNext p s = GivesNew p.read_set (waiting.select (suc p.maxfd) p.read_set s).1

  -- A round of the server's loop ends, with tries for the header, for a buffer and for every
  -- interrupt, and keeps the pool valid, whichever clients come, write, read or leave in it, if
  -- accept, after the select of the round, gives a descriptor that is not in use and below FD_SETSIZE.
  pub serve_round-Ends :
      (p : Pool) (s : io.State)
      → NewNext p s
      → IsValid listenfd p
      → length header + io.patience s < tries
      → 4096 + io.patience s < tries
      → Ends io tries listenfd s (serve_round io waiting tries listenfd header p s)
  unfolding serve_round
  serve_round-Ends p s g v h l =
      selected-Ends p s (waiting.select (suc p.maxfd) p.read_set s)
        (waiting.select_patience (suc p.maxfd) p.read_set s) g v h l

  -- Where the server serves on after a turn.
  abbrev pub Onward : Turn io tries → (Pool → io.State → Type 0) → Type 0
  Onward none P = Unit
  Onward (some (true, r)) P = Unit
  Onward (some (false, (p, s))) P = P p s

  -- The accepts of the next rounds.
  abbrev pub NewEachRound : ℕ → Pool → io.State → Type 0
  NewEachRound zero p s = Unit
  NewEachRound (suc n) p s =
      NewNext p s
      × Onward (serve_round io waiting tries listenfd header p s) (λ q t. NewEachRound n q t)

  pub Onward-all :
      (turn : Turn io tries) (P : Pool → io.State → Type 0)
      → ((q : Pool) (t : io.State) → P q t)
      → Onward turn P
  Onward-all none P h = tt
  Onward-all (some (true, r)) P h = tt
  Onward-all (some (false, (p, s))) P h = h p s

  onward-Ends :
      (s : io.State) (turn : Turn io tries) (P : Pool → io.State → Type 0)
      (go : Pool → io.State → Turn io tries)
      → Ends io tries listenfd s turn
      → Onward turn P
      → ((q : Pool) (u : io.State)
          → P q u
          → IsValid listenfd q
          → io.patience u ≤ io.patience s
          → Ends io tries listenfd u (go q u))
      → Ends io tries listenfd s (and_then io tries turn go)
  onward-Ends s none P go h w k = h
  onward-Ends s (some (true, (q, u))) P go h w k = h
  onward-Ends s (some (false, (q, u))) P go (v, l) w k =
      since io tries listenfd s u l _ (k q u w v l)

  -- Any number of rounds ends like one, on a valid pool.
  pub serve_rounds-Ends :
      (n : ℕ) (p : Pool) (s : io.State)
      → NewEachRound n p s
      → IsValid listenfd p
      → length header + io.patience s < tries
      → 4096 + io.patience s < tries
      → Ends io tries listenfd s (serve_rounds io waiting tries listenfd header n p s)
  unfolding serve_rounds
  serve_rounds-Ends zero p s g v h l = (v, omega arith)
  serve_rounds-Ends (suc n) p s (g, w) v h l =
      onward-Ends s (serve_round io waiting tries listenfd header p s) (NewEachRound n) _
        (serve_round-Ends p s g v h l) w
        (λ q u w' v' m. serve_rounds-Ends n q u w' v' (omega (arith, h, m)) (omega (arith, l, m)))
