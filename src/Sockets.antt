-- ===== src/Sockets.antt =====
-- common/socket_io.cpp: open_clientfd and open_listenfd, which walk a list of addresses, over the
-- calls on sockets as an interface. The list is what getaddrinfo gives.
pub mod Leaks
pub mod Wrappers
pub mod Ports
use hoststack.Prelude.{ℕ, ◌≡◌, Bool, true, false, Option, none, some, List, [], ◌∷◌, if◌then◌else◌}

pub record Sockets : Type 1 where
  pub State : Type 0
  pub Address : Type 0
  -- `none` is a negative result, and the Booleans tell whether a call succeeded.
  pub socket : Address → State → Option ℕ × State
  pub connect : ℕ → Address → State → Bool × State
  pub setsockopt : ℕ → State → State
  pub bind : ℕ → Address → State → Bool × State
  pub listen : ℕ → State → Bool × State
  pub close : ℕ → State → Bool × State
  -- The open descriptors, the newest first, and which of them listen.
  pub opened : State → List ℕ
  pub listening : ℕ → State → Type 0
  pub opened-socket :
      (a : Address) (s t : State) (fd : ℕ) → socket a s ≡ (some fd, t) → opened t ≡ fd ∷ opened s
  pub socket_refused : (a : Address) (s t : State) → socket a s ≡ (none, t) → opened t ≡ opened s
  pub opened-connect : (fd : ℕ) (a : Address) (s : State) → opened (connect fd a s).1 ≡ opened s
  pub opened-setsockopt : (fd : ℕ) (s : State) → opened (setsockopt fd s) ≡ opened s
  pub opened-bind : (fd : ℕ) (a : Address) (s : State) → opened (bind fd a s).1 ≡ opened s
  pub opened-listen : (fd : ℕ) (s : State) → opened (listen fd s).1 ≡ opened s
  pub listens : (fd : ℕ) (s : State) → (listen fd s).0 ≡ true → listening fd (listen fd s).1
  -- A close that succeeds frees the descriptor.
  pub closed :
      (fd : ℕ) (s : State) (fds : List ℕ)
      → opened s ≡ fd ∷ fds
      → (close fd s).0 ≡ true
      → opened (close fd s).1 ≡ fds

-- The result of the functions: a descriptor, -1, or -2.
pub data Opened : Type 0 where
  descriptor : ℕ → Opened
  failed : Opened
  unresolved : Opened

module _ (net : Sockets) where
  abbrev pub Result : Type 0
  Result = Opened × net.State

  -- A descriptor that did not reach its address is closed, and the walk goes on.
  abbrev pub after_close : Bool × net.State → (net.State → Result) → Result
  after_close (true, t) go = go t
  after_close (false, t) go = (failed, t)

  abbrev pub after_connect : ℕ → Bool × net.State → (net.State → Result) → Result
  after_connect fd (true, t) go = (descriptor fd, t)
  after_connect fd (false, t) go = after_close (net.close fd t) go

  abbrev pub after_socket :
      Option ℕ × net.State → (net.State → Result) → (ℕ → net.State → Result) → Result
  after_socket (none, t) skip go = skip t
  after_socket (some fd, t) skip go = go fd t

  -- The walk of open_clientfd.
  unfoldable pub connect_any : List net.Address → net.State → Result
  connect_any [] s = (failed, s)
  connect_any (a ∷ list) s =
      after_socket (net.socket a s) (λ t. connect_any list t)
        (λ fd t. after_connect fd (net.connect fd a t) (λ u. connect_any list u))

  unfoldable pub open_clientfd : Option (List net.Address) → net.State → Result
  unfolding connect_any
  open_clientfd none s = (unresolved, s)
  open_clientfd (some addresses) s = connect_any addresses s

  -- The walk of open_listenfd.
  unfoldable pub bind_any : List net.Address → net.State → Result
  bind_any [] s = (failed, s)
  bind_any (a ∷ list) s =
      after_socket (net.socket a s) (λ t. bind_any list t)
        (λ fd t. after_connect fd (net.bind fd a (net.setsockopt fd t)) (λ u. bind_any list u))

  abbrev pub after_listen : ℕ → Bool × net.State → Result
  after_listen fd (true, t) = (descriptor fd, t)
  after_listen fd (false, t) = (failed, (net.close fd t).1)

  abbrev pub then_listen : Result → Result
  then_listen (descriptor fd, t) = after_listen fd (net.listen fd t)
  then_listen (failed, t) = (failed, t)
  then_listen (unresolved, t) = (unresolved, t)

  unfoldable pub open_listenfd : Option (List net.Address) → net.State → Result
  unfolding bind_any
  open_listenfd none s = (unresolved, s)
  open_listenfd (some addresses) s = then_listen (bind_any addresses s)
