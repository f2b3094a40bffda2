-- ===== src/Pool/Rounds.antt =====
-- pty/pty_exec_util.cpp: check_clients_and_master and its loops, against the validity of the pool.
use hoststack.Prelude.{
  ℕ, zero, suc, ◌+◌, ◌≤◌, ◌<◌, ◌≡◌, inl, inr, refl, true, false, none, some, Option, [], ◌∷◌,
  length, arith, Bool-cases, Bool, ltb, ◌&&◌, if◌then◌else◌,
}
use hoststack.Prelude.Text.{Text}
use hoststack.Io.{Io}
use hoststack.Rio.{after_read_lem, rio_writen}
use hoststack.Rio.Writes.{WritesAll, rio_writen-WritesAll}
use hoststack.Pool.{
  Pool, Turn, slot, one_less, drop_client, unless_interrupted, forwarded, serve_client,
  check_client, and_then, check_clients, sent, send_client, send_clients, check_master,
  check_clients_and_master,
}
use hoststack.Pool.Valid.{IsValid}
use hoststack.Pool.Kept.{clear-Valid}

module _ (io : Io) (tries listenfd : ℕ) where
  -- The round has an end, the pool is valid after it, and the budget of interrupts has not grown.
  abbrev pub Ends : io.State → Turn io tries → Type 0
  Ends s none = ⊥
  Ends s (some (b, (p, t))) = IsValid listenfd p × (io.patience t ≤ io.patience s)

  drop-Ends :
      (connfd i : ℕ) (p : Pool) (s t : io.State) (b : Bool)
      → IsValid listenfd p
      → slot p.clientfd i ≡ some connfd
      → io.patience t ≤ io.patience s
      → Ends s (some (b, drop_client io tries connfd i p t))
  drop-Ends connfd i p s t b v e l = (
    clear-Valid listenfd p.masterfd p.maxfd p.clients p.clientfd p.read_set i connfd v e,
    omega (arith, l, io.close_patience connfd t),
  )

  by_errno-Ends :
      (s t : io.State) (same other : Turn io tries)
      → Ends s same
      → Ends s other
      → Ends s (unless_interrupted io tries same other t)
  by_errno-Ends s t same other a b = elim (Bool-cases (io.eintr t)) [
    | inl e ↦ rw e a
    | inr e ↦ rw e b
  ]

  forwarded-Ends :
      (p : Pool) (s t : io.State) (d : Text) (o : Option (Bool × io.State))
      → IsValid listenfd p
      → io.patience t ≤ io.patience s
      → WritesAll io p.masterfd d t o
      → Ends s (forwarded io tries p o)
  forwarded-Ends p s t d none v l w = w
  forwarded-Ends p s t d (some (true, u)) v l (w, m) = (v, omega (arith, l, m))
  forwarded-Ends p s t d (some (false, u)) v l (x, rest, e, w, m, r) = (v, omega (arith, l, m))

  sent-Ends :
      (connfd i : ℕ) (p : Pool) (s : io.State) (d : Text) (o : Option (Bool × io.State))
      → IsValid listenfd p
      → slot p.clientfd i ≡ some connfd
      → WritesAll io connfd d s o
      → Ends s (sent io tries connfd i p o)
  sent-Ends connfd i p s d none v e w = w
  sent-Ends connfd i p s d (some (true, u)) v e (w, m) = (v, m)
  sent-Ends connfd i p s d (some (false, u)) v e (_, _, _, _, m, _) =
      drop-Ends connfd i p s u false v e m

  serve_client-Ends :
      (connfd i : ℕ) (p : Pool) (s : io.State)
      → IsValid listenfd p
      → slot p.clientfd i ≡ some connfd
      → 4096 + io.patience s < tries
      → Ends s (serve_client io tries connfd i p s)
  unfolding serve_client
  serve_client-Ends connfd i p s v e l =
      after_read_lem (Ends s) io.eintr (io.read connfd 4096 s) _ _ _ _
        (λ t r f. (v, (io.read_refused connfd 4096 s t r).1))
        (λ t r f. drop-Ends connfd i p s t false v e (io.read_refused connfd 4096 s t r).1)
        (λ t r.
          let (q, n, m) = io.read_data connfd 4096 s t [] r in
          by_errno-Ends s t _ _ (v, m) (drop-Ends connfd i p s t false v e m))
        (λ c d t r.
          let (q, n, m) = io.read_data connfd 4096 s t (c ∷ d) r in
          forwarded-Ends p s t (c ∷ d) _ v m
            (rio_writen-WritesAll io p.masterfd tries (c ∷ d) t (omega (arith, l, n, m))))

  pub skip-Ends :
      (b : Bool) (p : Pool) (s : io.State) (turn : Turn io tries)
      → IsValid listenfd p
      → Ends s turn
      → Ends s (if b then turn else some (false, (p, s)))
  skip-Ends true p s turn v h = h
  skip-Ends false p s turn v h = (v, omega arith)

  check_client-Ends :
      (i : ℕ) (p : Pool) (s : io.State)
      → IsValid listenfd p
      → 4096 + io.patience s < tries
      → Ends s (check_client io tries i p s)
  unfolding check_client
  check_client-Ends i p s v l = go (slot p.clientfd i) refl
    where
      go :
          (o : Option ℕ)
          → slot p.clientfd i ≡ o
          → Ends s (elim o [
            | none ↦ some (false, (p, s))
            | some connfd ↦
                if ltb 0 connfd && p.ready_set connfd
                then serve_client io tries connfd i (one_less p) s
                else some (false, (p, s))
          ])
      go none e = (v, omega arith)
      go (some connfd) e =
          skip-Ends (ltb 0 connfd && p.ready_set connfd) p s _ v
            (serve_client-Ends connfd i (one_less p) s v e l)

  pub since :
      (s t : io.State) → io.patience t ≤ io.patience s → (o : Turn io tries) → Ends t o → Ends s o
  since s t l none h = h
  since s t l (some (b, (q, u))) (w, m) = (w, omega (arith, l, m))

  pub then-Ends :
      (s : io.State) (turn : Turn io tries) (go : Pool → io.State → Turn io tries)
      → Ends s turn
      → ((p : Pool) (t : io.State)
          → IsValid listenfd p
          → io.patience t ≤ io.patience s
          → Ends t (go p t))
      → Ends s (and_then io tries turn go)
  then-Ends s none go h g = h
  then-Ends s (some (true, (p, t))) go h g = h
  then-Ends s (some (false, (p, t))) go (v, l) g = since s t l (go p t) (g p t v l)

  check_clients-Ends :
      (k i : ℕ) (p : Pool) (s : io.State)
      → IsValid listenfd p
      → 4096 + io.patience s < tries
      → Ends s (check_clients io tries k i p s)
  unfolding check_clients
  check_clients-Ends zero i p s v l = (v, omega arith)
  check_clients-Ends (suc k) i p s v l = skip-Ends (ltb 0 p.nready) p s _ v (
      then-Ends s _ _ (check_client-Ends i p s v l)
        (λ p' t v' m. check_clients-Ends k (suc i) p' t v' (omega (arith, l, m))))

  send_client-Ends :
      (buf : Text) (i : ℕ) (p : Pool) (s : io.State)
      → IsValid listenfd p
      → length buf + io.patience s < tries
      → Ends s (send_client io tries buf i p s)
  unfolding send_client
  send_client-Ends buf i p s v l = go (slot p.clientfd i) refl
    where
      go :
          (o : Option ℕ)
          → slot p.clientfd i ≡ o
          → Ends s (elim o [
            | none ↦ some (false, (p, s))
            | some connfd ↦
                if ltb 0 connfd
                then sent io tries connfd i p (rio_writen io tries connfd buf s)
                else some (false, (p, s))
          ])
      go none e = (v, omega arith)
      go (some connfd) e =
          skip-Ends (ltb 0 connfd) p s _ v
            (sent-Ends connfd i p s buf _ v e (rio_writen-WritesAll io connfd tries buf s l))

  send_clients-Ends :
      (buf : Text) (k i : ℕ) (p : Pool) (s : io.State)
      → IsValid listenfd p
      → length buf + io.patience s < tries
      → Ends s (send_clients io tries buf k i p s)
  unfolding send_clients
  send_clients-Ends buf zero i p s v l = (v, omega arith)
  send_clients-Ends buf (suc k) i p s v l =
      then-Ends s _ _ (send_client-Ends buf i p s v l)
        (λ p' t v' m. send_clients-Ends buf k (suc i) p' t v' (omega (arith, l, m)))

  check_master-Ends :
      (p : Pool) (s : io.State)
      → IsValid listenfd p
      → 4096 + io.patience s < tries
      → Ends s (check_master io tries p s)
  unfolding check_master
  check_master-Ends p s v l = skip-Ends (p.ready_set p.masterfd) p s _ v (
      after_read_lem (Ends s) io.eintr (io.read p.masterfd 4096 s) _ _ _ _
        (λ t r f. (v, (io.read_refused p.masterfd 4096 s t r).1))
        (λ t r f. (v, (io.read_refused p.masterfd 4096 s t r).1))
        (λ t r.
          let (q, n, m) = io.read_data p.masterfd 4096 s t [] r in
          by_errno-Ends s t _ _ (v, m) (v, m))
        (λ c d t r.
          let (q, n, m) = io.read_data p.masterfd 4096 s t (c ∷ d) r in
          since s t m _
            (send_clients-Ends (c ∷ d) p.clients 0 (one_less p) t v (omega (arith, l, n, m)))))

  -- With tries for a buffer's bytes and every interrupt, check_clients_and_master ends on a valid
  -- pool, and the pool is valid after it, whichever clients it has dropped on the way.
  pub check_clients_and_master-Ends :
      (p : Pool) (s : io.State)
      → IsValid listenfd p
      → 4096 + io.patience s < tries
      → Ends s (check_clients_and_master io tries p s)
  unfolding check_clients_and_master
  check_clients_and_master-Ends p s v l =
      then-Ends s _ _ (check_clients-Ends p.clients 0 p s v l)
        (λ p' t v' m. check_master-Ends p' t v' (omega (arith, l, m)))
