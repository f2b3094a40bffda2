-- ===== src/Sockets/Wrappers.antt =====
-- common/socket_io.cpp: Open_clientfd, Open_listenfd and Close, which end the program on an error.
use hoststack.Prelude.{
  ℕ, ◌≡◌, refl, Bool, true, false, Option, none, some, List, ◌∷◌, ◌++◌, if◌then◌else◌, ltb, length,
}
use hoststack.Prelude.Text.{Text, codes}
use hoststack.Returns.{Result, returns, fails, exits}
use hoststack.Sockets.{
  Sockets, Opened, descriptor, failed, unresolved, open_clientfd, open_listenfd,
}
use hoststack.Sockets.Leaks.{
  Closes, OpensOne, open_clientfd-OpensOne, Listens, open_listenfd-Listens,
}

-- MAXLINE
abbrev pub maxline : ℕ
maxline = 1024

-- Open_clientfd writes the message into a buffer first.
abbrev pub client_message : Text → Text → Text
client_message hostname port = codes "Open_clientfd error " ++ (hostname ++ (codes ":" ++ port))

module _ (net : Sockets) (errno : net.State → ℕ) where
  abbrev pub fits : Text → net.State → Option (Result ℕ × net.State)
  fits msg t = if ltb (length msg) maxline then some (exits (errno t), t) else none

  abbrev pub client_or_exit : Text → Text → Opened × net.State → Option (Result ℕ × net.State)
  client_or_exit hostname port (descriptor fd, t) = some (returns fd, t)
  client_or_exit hostname port (failed, t) = fits (client_message hostname port) t
  client_or_exit hostname port (unresolved, t) = fits (client_message hostname port) t

  -- Open_clientfd; `none` is a write past the buffer of the message.
  unfoldable pub open_client_or_exit :
      Text → Text → Option (List net.Address) → net.State → Option (Result ℕ × net.State)
  unfolding open_clientfd
  open_client_or_exit hostname port addresses s =
      client_or_exit hostname port (open_clientfd net addresses s)

  abbrev pub listen_or_exit : Opened × net.State → Result ℕ × net.State
  listen_or_exit (descriptor fd, t) = (returns fd, t)
  listen_or_exit (failed, t) = (exits (errno t), t)
  listen_or_exit (unresolved, t) = (exits (errno t), t)

  -- Open_listenfd
  unfoldable pub open_listen_or_exit : Option (List net.Address) → net.State → Result ℕ × net.State
  unfolding open_listenfd
  open_listen_or_exit addresses s = listen_or_exit (open_listenfd net addresses s)

  abbrev pub closed_or_exit : Bool × net.State → Result (Unit {0}) × net.State
  closed_or_exit (true, t) = (returns tt, t)
  closed_or_exit (false, t) = (exits (errno t), t)

  -- Close, which passes over the standard input.
  unfoldable pub close_or_exit : ℕ → net.State → Result (Unit {0}) × net.State
  close_or_exit fd s =
      let closed = closed_or_exit (net.close fd s) in if ltb fd 1 then (returns tt, s) else closed

  module _ (closes : Closes net) where
    abbrev pub ListensOrExits : net.State → Result ℕ × net.State → Type 0
    ListensOrExits s (returns fd, t) = (net.opened t ≡ fd ∷ net.opened s) × net.listening fd t
    ListensOrExits s (fails, t) = ⊥
    ListensOrExits s (exits n, t) = (net.opened t ≡ net.opened s) × (n ≡ errno t)

    -- Where no close fails, Open_listenfd returns a descriptor that listens, the only one that it
    -- leaves open, or ends the program with none left open.
    pub open_listen_or_exit-Listens :
        (addresses : Option (List net.Address)) (s : net.State)
        → ListensOrExits s (open_listen_or_exit addresses s)
    unfolding open_listen_or_exit
    open_listen_or_exit-Listens addresses s =
        go (open_listenfd net addresses s) (open_listenfd-Listens net closes addresses s)
      where
        go : (r : Opened × net.State) → Listens net closes s r → ListensOrExits s (listen_or_exit r)
        go (descriptor fd, t) h = h
        go (failed, t) h = (h, refl)
        go (unresolved, t) h = (h, refl)

    abbrev pub OpensOrExits : net.State → Option (Result ℕ × net.State) → Type 0
    OpensOrExits s none = ⊥
    OpensOrExits s (some (returns fd, t)) = net.opened t ≡ fd ∷ net.opened s
    OpensOrExits s (some (fails, t)) = ⊥
    OpensOrExits s (some (exits n, t)) = (net.opened t ≡ net.opened s) × (n ≡ errno t)

    -- Open_clientfd does so for a connection, with a host and a port that fit its message.
    pub open_client_or_exit-Opens :
        (hostname port : Text) (addresses : Option (List net.Address)) (s : net.State)
        → ltb (length (client_message hostname port)) maxline ≡ true
        → OpensOrExits s (open_client_or_exit hostname port addresses s)
    unfolding open_client_or_exit
    open_client_or_exit-Opens hostname port addresses s l =
        go (open_clientfd net addresses s) (open_clientfd-OpensOne net closes addresses s)
      where
        go :
            (r : Opened × net.State)
            → OpensOne net s r
            → OpensOrExits s (client_or_exit hostname port r)
        go (descriptor fd, t) h = h
        go (failed, t) h = rw l (h, refl)
        go (unresolved, t) h = rw l (h, refl)
