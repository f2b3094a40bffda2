-- ===== src/Relay/Session/Modes.antt =====
-- pty/pty_exec_util.cpp: the terminal during and after a session of pty_client.
use hoststack.Prelude.{
  ◌⊎◌, inl, inr, ℕ, ◌+◌, ◌≡◌, ◌≢◌, ◌≤◌, ◌<◌, refl, sym, subst, Bool, true, false, Option, none,
  some, arith,
}
use hoststack.Prelude.Text.{Text}
use hoststack.Io.{Io}
use hoststack.Pool.Serve.{Waiting}
use hoststack.Tty.{Termios, Tty, tty_reset}
use hoststack.Relay.{Traffic, going, ended, exited, undefined, Turn, client_rounds, buf_size}
use hoststack.Relay.Client.{Relayed, client_rounds-Relayed}
use hoststack.Relay.Session.{
  Dialing, socket_path, Session, after_loop, in_raw, connected, dialed, pty_client,
}

-- The calls on the terminal that pty_client makes do not fail.
pub record Obeys (tty : Tty) : Type 0 where
  pub reads : (t : tty.State) → (tty.tcgetattr 0 t).0 ≡ some (tty.attributes 0 t)
  pub writes : (a : Termios) (t : tty.State) → (tty.tcsetattr 0 a t).0 ≡ true

module _ (tty : Tty) (obeys : Obeys tty) where
  pub written : (a : Termios) (t : tty.State) → tty.attributes 0 (tty.tcsetattr 0 a t).1 ≡ a
  written a t = go (tty.tcsetattr 0 a t) refl (obeys.writes a t)
    where
      go : (r : Bool × tty.State) → tty.tcsetattr 0 a t ≡ r → r.0 ≡ true → tty.attributes 0 r.1 ≡ a
      go (true, u) e h = tty.setattr_lem 0 a t u e
      go (false, u) e h = cc

module _ (io : Io) (waiting : Waiting io) (traffic : Traffic io waiting) (tries : ℕ) (tty : Tty)
    (obeys : Obeys tty) (dialing : Dialing io) (cfmakeraw : Termios → Termios) (old : Termios) where
  -- The state in which the connection to the container's socket stands.
  abbrev pub Reached : Text → io.State → ℕ → io.State → Type 0
  Reached id s fd u =
      (r : io.State) × (dialing.socket s ≡ (some fd, r))
      × (dialing.connect fd (socket_path id) r ≡ (true, u))

  -- socket or connect has failed.
  abbrev pub Unreached : Text → io.State → io.State → Type 0
  Unreached id s u =
      (dialing.socket s ≡ (none, u))
      ⊎ ((fd : ℕ) × (r : io.State) × (dialing.socket s ≡ (some fd, r))
          × (dialing.connect fd (socket_path id) r ≡ (false, u)))

  -- Without a server the terminal is as it was. With one, it is in raw mode while the loop runs and if
  -- err_exit ends the program, and has its attributes again when pty_client returns; and the loop has
  -- relayed the bytes since the connection stands.
  pub data Serves (id : Text) (o : io.State) (t : tty.State)
      : Session io waiting tries tty → Type 0 where
    unreached :
        (s : io.State) (u : tty.State)
        → Unreached id o s
        → tty.attributes 0 u ≡ tty.attributes 0 t
        → Serves id o t (some (exited (s, u)))
    running :
        (fd : ℕ) (s r : io.State) (u : tty.State)
        → Reached id o fd s
        → Relayed io waiting traffic tries fd s (some (going r))
        → tty.attributes 0 u ≡ cfmakeraw (tty.attributes 0 t)
        → Serves id o t (some (going (r, u)))
    returned :
        (fd : ℕ) (s r : io.State) (u : tty.State)
        → Reached id o fd s
        → Relayed io waiting traffic tries fd s (some (ended r))
        → tty.attributes 0 u ≡ tty.attributes 0 t
        → Serves id o t (some (ended (r, u)))
    died :
        (fd : ℕ) (s r : io.State) (u : tty.State)
        → Reached id o fd s
        → Relayed io waiting traffic tries fd s (some (exited r))
        → tty.attributes 0 u ≡ cfmakeraw (tty.attributes 0 t)
        → Serves id o t (some (exited (r, u)))

  after_loop-Serves :
      (id : Text) (o : io.State) (t u : tty.State) (fd : ℕ) (s : io.State)
      (r : Turn io waiting tries)
      → Reached id o fd s
      → tty.attributes 0 u ≡ cfmakeraw (tty.attributes 0 t)
      → Relayed io waiting traffic tries fd s r
      → Serves id o t (after_loop io waiting tries tty (tty.attributes 0 t) u r)
  unfolding tty_reset
  after_loop-Serves id o t u fd s none c e h = absurd h
  after_loop-Serves id o t u fd s (some (going r)) c e h = running fd s r u c h e
  after_loop-Serves id o t u fd s (some (ended r)) c e h =
      returned fd s r _ c h (written tty obeys (tty.attributes 0 t) u)
  after_loop-Serves id o t u fd s (some (exited r)) c e h = died fd s r u c h e
  after_loop-Serves id o t u fd s (some undefined) c e h = absurd h

  in_raw-Serves :
      (id : Text) (o : io.State) (rounds fd : ℕ) (s : io.State) (t : tty.State)
      → Reached id o fd s
      → fd ≢ 0
      → fd ≢ 1
      → buf_size + io.patience s < tries
      → Serves id o t
          (in_raw io waiting tries tty dialing cfmakeraw old rounds fd s (tty.tcgetattr 0 t))
  in_raw-Serves id o rounds fd s t c n0 n1 l = go (tty.tcgetattr 0 t) refl (obeys.reads t)
    where
      serves :
          (u : tty.State)
          → Serves id o t (
              in_raw io waiting tries tty dialing cfmakeraw old rounds fd s
                (some (tty.attributes 0 t), u))
      serves u =
          after_loop-Serves id o t (tty.tcsetattr 0 (cfmakeraw (tty.attributes 0 t)) u).1 fd s
            (client_rounds io waiting tries fd rounds s) c
            (written tty obeys (cfmakeraw (tty.attributes 0 t)) u)
            (client_rounds-Relayed io waiting traffic tries fd n0 n1 rounds s l)

      go :
          (r : Option Termios × tty.State)
          → tty.tcgetattr 0 t ≡ r
          → r.0 ≡ some (tty.attributes 0 t)
          → Serves id o t (in_raw io waiting tries tty dialing cfmakeraw old rounds fd s r)
      go (got, u) e h =
          subst
            (λ x.
              Serves id o t (in_raw io waiting tries tty dialing cfmakeraw old rounds fd s (x, u)))
            (sym h) (serves u)

  -- The descriptor of a new socket is neither 0 nor 1, and the calls leave the signals that may still
  -- come as they are, or fewer.
  pub record Dials : Type 0 where
    pub above : (fd : ℕ) (s r : io.State) → dialing.socket s ≡ (some fd, r) → (fd ≢ 0) × (fd ≢ 1)
    pub socket_patience : (s : io.State) → io.patience (dialing.socket s).1 ≤ io.patience s
    pub connect_patience :
        (fd : ℕ) (path : Text) (s : io.State)
        → io.patience (dialing.connect fd path s).1 ≤ io.patience s

  -- Where the terminal obeys and a new socket is neither 0 nor 1: pty_client ends with the
  -- terminal as it was where socket or connect fails. From the connection on, every byte that was read is relayed, in
  -- order, in both directions, with the terminal in raw mode, but for what a write to the socket has
  -- left of the last input when the loop is over. When it returns, after such a write or a read that
  -- failed or delivered the end, the terminal has its attributes
  -- again, but not when err_exit ends it, after a write to the terminal that has left the end of the
  -- last output.
  pub pty_client-Serves :
      Dials
      → (rounds : ℕ) (id : Text) (s : io.State) (t : tty.State) → buf_size + io.patience s < tries
      → Serves id s t (pty_client io waiting tries tty dialing cfmakeraw old rounds id (s, t))
  unfolding pty_client
  pty_client-Serves dials rounds id s t l = go (dialing.socket s) refl
    where
      opened :
          (fd : ℕ) (q : io.State)
          → dialing.socket s ≡ (some fd, q)
          → fd ≢ 0
          → fd ≢ 1
          → (r : Bool × io.State) → dialing.connect fd (socket_path id) q ≡ r
          → buf_size + io.patience r.1 < tries
          → Serves id s t (connected io waiting tries tty dialing cfmakeraw old rounds fd r t)
      opened fd q e n0 n1 (true, u) d k = in_raw-Serves id s rounds fd u t (q, e, d) n0 n1 k
      opened fd q e n0 n1 (false, u) d k = unreached u t (inr (fd, q, e, d)) refl

      go :
          (r : Option ℕ × io.State)
          → dialing.socket s ≡ r
          → Serves id s t (dialed io waiting tries tty dialing cfmakeraw old rounds id r t)
      go (none, u) e = unreached u t (inl e) refl
      go (some fd, u) e =
          let (n0, n1) = dials.above fd s u e in
          let m = subst (λ x. io.patience x.1 ≤ io.patience s) e (dials.socket_patience s) in
          opened fd u e n0 n1 (dialing.connect fd (socket_path id) u) refl
            (omega (arith, l, m, dials.connect_patience fd (socket_path id) u))
