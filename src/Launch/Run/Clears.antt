-- ===== src/Launch/Run/Clears.antt =====
-- pty/pty_exec_util.cpp: what a server leaves behind, against the data file and the mounts.
use hoststack.Prelude.{
  ℕ, ◌+◌, ◌≡◌, ◌≤◌, ◌<◌, refl, inl, inr, Bool, true, false, Option, none, some, ◌==◌, ==_iff, ◌⊎◌,
  Bool-cases, length, arith,
}
use hoststack.Prelude.Text.{Text}
use hoststack.Io.{Io}
use hoststack.Json.{Json}
use hoststack.Kernel.{Kernel}
use hoststack.Dao.{Env}
use hoststack.Pool.{Pool, init_pool}
use hoststack.Pool.Begins.{init_pool-IsValid}
use hoststack.Pool.Rounds.{Ends}
use hoststack.Pool.Serve.{Waiting, serve_rounds}
use hoststack.Pool.Serve.Kept.{NewEachRound, serve_rounds-Ends}
use hoststack.Relay.{Progress, going, ended, exited}
use hoststack.Relay.Session.{socket_path}
use hoststack.Launch.{sem_set}
use hoststack.Launch.Run.{
  Listening, static_pool, World, waited, served, after_set, listened, bound, opened, free_path,
  run_server,
}
use hoststack.Launch.Run.Cleared.{Cleared, clear_away-Cleared}

module _ (io : Io) (kernel : Kernel) (json : Json) (env : Env) (id : Text) (waiting : Waiting io)
    (listening : Listening io) (tries : ℕ) (header : Text) (masterfd child rounds : ℕ) where
  -- The calls on the socket have succeeded, and the loop begins.
  abbrev pub Listens : World io kernel json → ℕ → io.State → Type 0
  Listens w fd s =
      (q b : io.State) × (listening.socket w.state ≡ (some fd, q))
      × (listening.bind fd (socket_path id) (
            free_path io kernel json waiting listening tries env id header masterfd child
              (socket_path id) q)
          ≡ (true, b))
      × (listening.listen fd b ≡ (true, s))

  -- How far the loop has come.
  abbrev pub Serves : World io kernel json → Bool → io.State → Type 0
  Serves w over r =
      (fd : ℕ) × (s : io.State) × (p : Pool) × Listens w fd s
      × (serve_rounds io waiting tries fd header rounds (init_pool fd masterfd static_pool) s
          ≡ some (over, (p, r)))

  -- A call on the socket has failed.
  abbrev pub Unheard : World io kernel json → io.State → Type 0
  Unheard w t =
      (listening.socket w.state ≡ (none, t))
      ⊎ ((fd : ℕ) × (q b : io.State) × (listening.socket w.state ≡ (some fd, q))
          × ((listening.bind fd (socket_path id) (
                  free_path io kernel json waiting listening tries env id header masterfd child
                    (socket_path id) q)
                ≡ (false, t))
              ⊎ ((listening.bind fd (socket_path id) (
                      free_path io kernel json waiting listening tries env id header masterfd child
                        (socket_path id) q)
                    ≡ (true, b))
                  × (listening.listen fd b ≡ (false, t)))))

  -- The semaphore is 0, unless SemUtil::set has failed.
  abbrev pub SemaphoreOf : World io kernel json → ℕ → Type 0
  SemaphoreOf w n = (n ≡ 0) ⊎ ((s : io.State) × (listening.sets s ≡ false) × (n ≡ w.sem))

  -- What the server has done, wherever it stands, and why.
  abbrev pub Clears : World io kernel json → Option (Progress (World io kernel json)) → Type 0
  Clears w none = ⊥
  Clears w (some (going v)) =
      Serves w false v.state × (v.file ≡ w.file) × (v.host ≡ w.host) × SemaphoreOf w v.sem
  Clears w (some (ended v)) =
      ((r : io.State) × Serves w true r × ((listening.wait r).0 ≡ child))
      × ((n : ℕ) × SemaphoreOf w n × Cleared io kernel json env id (record w { sem = n }) (ended v))
  Clears w (some (exited v)) =
      (Unheard w v.state
        ⊎ ((r : io.State) × Serves w true r × (((listening.wait r).0 == child) ≡ false)))
      × (v.file ≡ w.file)
      × (v.host ≡ w.host)
  Clears w (some Progress.undefined) =
      ((r : io.State) × Serves w true r × ((listening.wait r).0 ≡ child))
      × Cleared io kernel json env id w Progress.undefined

  finished-Clears :
      (w : World io kernel json) (s : io.State) (n : ℕ) (o : Progress (World io kernel json))
      → SemaphoreOf w n
      → (r : io.State) × Serves w true r × ((listening.wait r).0 ≡ child)
      → Cleared io kernel json env id (record w { state = s; sem = n }) o
      → Clears w (some o)
  finished-Clears w s n (going v) m c h = absurd h
  finished-Clears w s n (ended v) m c h = (c, (n, m, h))
  finished-Clears w s n (exited v) m c h = absurd h
  finished-Clears w s n Progress.undefined m c h = (c, h)

  waited-Clears :
      (w : World io kernel json) (s r : io.State) (n : ℕ)
      → SemaphoreOf w n
      → Serves w true r
      → Clears w (
          some (
            waited io kernel json waiting listening tries env id header masterfd child
              (record w { state = s; sem = n })
              (listening.wait r)))
  waited-Clears w s r n m c = elim (Bool-cases ((listening.wait r).0 == child)) [
    | inl e ↦ rw e (
        finished-Clears w (listening.wait r).1 n _ m (r, c, (==_iff (listening.wait r).0 child).0 e)
          (clear_away-Cleared io kernel json env id
            (record w { state = (listening.wait r).1; sem = n })))
    | inr e ↦ rw e (inr (r, c, e), refl, refl)
  ]

  served-Clears :
      (fd : ℕ) (w : World io kernel json) (s : io.State) (n : ℕ)
      (turn : Option (Bool × (Pool × io.State)))
      → SemaphoreOf w n
      → Listens w fd s
      → serve_rounds io waiting tries fd header rounds (init_pool fd masterfd static_pool) s ≡ turn
      → Ends io tries fd s turn
      → Clears w (
          served io kernel json waiting listening tries env id header masterfd child
            (record w { state = s; sem = n })
            turn)
  served-Clears fd w s n none m c e h = h
  served-Clears fd w s n (some (false, (p, t))) m c e h = ((fd, s, p, c, e), refl, refl, m)
  served-Clears fd w s n (some (true, (p, t))) m c e h = waited-Clears w s t n m (fd, s, p, c, e)

  after_set_lem :
      (w : World io kernel json) (s : io.State)
      → SemaphoreOf w
          (after_set io kernel json waiting listening tries env id header masterfd child s w.sem)
  unfolding sem_set
  after_set_lem w s = elim (Bool-cases (listening.sets s)) [
    | inl e ↦ rw e (inl refl)
    | inr e ↦ rw e (inr (s, e, refl))
  ]

  listened-Clears :
      (fd : ℕ) (w : World io kernel json) (q b : io.State) (r : Bool × io.State)
      → listening.socket w.state ≡ (some fd, q)
      → listening.bind fd (socket_path id) (
          free_path io kernel json waiting listening tries env id header masterfd child
            (socket_path id)
            q)
        ≡ (true, b)
      → listening.listen fd b ≡ r
      → masterfd ≤ fd
      → NewEachRound io waiting tries fd header rounds (init_pool fd masterfd static_pool) r.1
      → length header + io.patience r.1 < tries
      → 4096 + io.patience r.1 < tries
      → Clears w (
          listened io kernel json waiting listening tries env id header masterfd child rounds fd w
            r)
  unfolding sem_set
  listened-Clears fd w q b (false, s) eq eb el l g h k =
      (inl (inr (fd, q, b, eq, inr (eb, el))), refl, refl)
  listened-Clears fd w q b (true, s) eq eb el l g h k =
      served-Clears fd w s _ _ (after_set_lem w s) (q, b, eq, eb, el) refl
        (serve_rounds-Ends io waiting tries fd header rounds _ s g
          (init_pool-IsValid fd masterfd static_pool l) h k)

  -- The state in which the loop begins, if nothing has failed.
  abbrev pub after_setup : ℕ → io.State → io.State
  after_setup listenfd s =
      (listening.listen listenfd
        (listening.bind listenfd (socket_path id) (
          free_path io kernel json waiting listening tries env id header masterfd child
            (socket_path id) s)).1).1

  free_patience :
      (path : Text) (s : io.State)
      → io.patience
          (free_path io kernel json waiting listening tries env id header masterfd child path s)
        ≤ io.patience s
  free_patience path s = elim (Bool-cases (listening.exists path s)) [
    | inl e ↦ rw e (listening.unlink_patience path s)
    | inr e ↦ rw e (omega arith)
  ]

  bound-Clears :
      (fd : ℕ) (w : World io kernel json) (q : io.State) (r : Bool × io.State)
      → listening.socket w.state ≡ (some fd, q)
      → listening.bind fd (socket_path id) (
          free_path io kernel json waiting listening tries env id header masterfd child
            (socket_path id)
            q)
        ≡ r
      → masterfd ≤ fd
      → NewEachRound io waiting tries fd header rounds
          (init_pool fd masterfd static_pool)
          (listening.listen fd r.1).1
      → length header + io.patience r.1 < tries
      → 4096 + io.patience r.1 < tries
      → Clears w
          (bound io kernel json waiting listening tries env id header masterfd child rounds fd w r)
  bound-Clears fd w q (false, s) eq eb l g h k = (inl (inr (fd, q, s, eq, inl eb)), refl, refl)
  bound-Clears fd w q (true, s) eq eb l g h k =
      let m = listening.listen_patience fd s in
      listened-Clears fd w q s (listening.listen fd s) eq eb refl l g (omega (arith, h, m))
        (omega (arith, k, m))

  opened-Clears :
      (w : World io kernel json) (r : Option ℕ × io.State)
      → listening.socket w.state ≡ r
      → ((fd : ℕ) (s : io.State) → r ≡ (some fd, s) → masterfd ≤ fd)
      → ((fd : ℕ) (s : io.State)
          → r ≡ (some fd, s)
          → NewEachRound io waiting tries fd header rounds
              (init_pool fd masterfd static_pool)
              (after_setup fd s))
      → length header + io.patience r.1 < tries
      → 4096 + io.patience r.1 < tries
      → Clears w
          (opened io kernel json waiting listening tries env id header masterfd child rounds w r)
  opened-Clears w (none, s) e l g h k = (inl (inl e), refl, refl)
  opened-Clears w (some fd, s) e l g h k =
      let m = free_patience (socket_path id) s in
      let b = listening.bind_patience fd (socket_path id) (
        free_path io kernel json waiting listening tries env id header masterfd child
          (socket_path id) s) in
      bound-Clears fd w s _ e refl (l fd s refl) (g fd s refl) (omega (arith, h, m, b))
        (omega (arith, k, m, b))

  -- With tries for the header, for a buffer and for every interrupt, and descriptors from socket
  -- that are not below the master and from accept that are not in use, pty_run_container, after its
  -- clone, has for any number of rounds done one of these. It still serves, with the data file and
  -- the mounts as they were and the semaphore set to 0, unless SemUtil::set has failed. Or socket,
  -- bind or listen has failed, or another process than the container's was reaped after the loop,
  -- and the program has ended with the file and the mounts as they were. Or the loop is over and
  -- the container's process was reaped, umount_container has run with the volumes of the
  -- container's record, found by id or name, and that record says stopped. It is undefined only
  -- after the container's process was reaped, where no such record is found or umount_container is
  -- undefined.
  pub run_server-Clears :
      (w : World io kernel json)
      → ((fd : ℕ) (s : io.State) → listening.socket w.state ≡ (some fd, s) → masterfd ≤ fd)
      → ((fd : ℕ) (s : io.State)
          → listening.socket w.state ≡ (some fd, s)
          → NewEachRound io waiting tries fd header rounds
              (init_pool fd masterfd static_pool)
              (after_setup fd s))
      → length header + io.patience w.state < tries
      → 4096 + io.patience w.state < tries
      → Clears w
          (run_server io kernel json waiting listening tries env id header masterfd child rounds w)
  unfolding run_server
  run_server-Clears w l g h k =
      let m = listening.socket_patience w.state in
      opened-Clears w (listening.socket w.state) refl l g (omega (arith, h, m))
        (omega (arith, k, m))
