-- ===== src/Sockets/Leaks.antt =====
-- common/socket_io.cpp: which descriptors open_clientfd and open_listenfd leave open.
use hoststack.Prelude.{
  ℕ, ◌≡◌, refl, sym, ap, ◌∙◌, Bool, true, false, Option, none, some, List, [], ◌∷◌, subst,
}
use hoststack.Sockets.{
  Sockets, descriptor, failed, unresolved, Result, after_close, after_connect, after_socket,
  connect_any, open_clientfd, bind_any, after_listen, then_listen, open_listenfd,
}

module _ (net : Sockets) where
  -- No close fails.
  abbrev pub Closes : Type 0
  Closes = (fd : ℕ) (s : net.State) → (net.close fd s).0 ≡ true

  -- The descriptor that is returned is the only new one; there is none with an error.
  abbrev pub OpensOne : net.State → Result net → Type 0
  OpensOne s (descriptor fd, t) = net.opened t ≡ fd ∷ net.opened s
  OpensOne s (failed, t) = net.opened t ≡ net.opened s
  OpensOne s (unresolved, t) = net.opened t ≡ net.opened s

  since :
      (s t : net.State) (r : Result net) → net.opened t ≡ net.opened s → OpensOne t r → OpensOne s r
  since s t (descriptor fd, u) e h = h ∙ ap (◌∷◌ fd) e
  since s t (failed, u) e h = h ∙ e
  since s t (unresolved, u) e h = h ∙ e

  module _ (closes : Closes) where
    after_close-OpensOne :
        (s t : net.State) (fd : ℕ) (r : Bool × net.State) (go : net.State → Result net)
        → net.opened t ≡ fd ∷ net.opened s
        → net.close fd t ≡ r
        → ((u : net.State) → OpensOne u (go u))
        → OpensOne s (after_close net r go)
    after_close-OpensOne s t fd (true, u) go e c g =
        since s u (go u)
          (ap (λ x. net.opened x.1) (sym c) ∙ net.closed fd t (net.opened s) e (closes fd t)) (g u)
    after_close-OpensOne s t fd (false, u) go e c g =
        ap (λ x. net.opened x.1) (sym c) ∙ net.closed fd t (net.opened s) e (closes fd t)

    after_connect-OpensOne :
        (s t : net.State) (fd : ℕ) (r : Bool × net.State) (go : net.State → Result net)
        → net.opened t ≡ fd ∷ net.opened s
        → net.opened r.1 ≡ net.opened t
        → ((u : net.State) → OpensOne u (go u))
        → OpensOne s (after_connect net fd r go)
    after_connect-OpensOne s t fd (true, u) go e c g = c ∙ e
    after_connect-OpensOne s t fd (false, u) go e c g =
        after_close-OpensOne s u fd (net.close fd u) go (c ∙ e) refl g

    after_socket-OpensOne :
        (a : net.Address) (s : net.State) (r : Option ℕ × net.State) (skip : net.State → Result net)
        (go : ℕ → net.State → Result net)
        → net.socket a s ≡ r
        → ((t : net.State) → OpensOne t (skip t))
        → ((fd : ℕ) (t : net.State) → net.opened t ≡ fd ∷ net.opened s → OpensOne s (go fd t))
        → OpensOne s (after_socket net r skip go)
    after_socket-OpensOne a s (none, t) skip go e k g =
        since s t (skip t) (net.socket_refused a s t e) (k t)
    after_socket-OpensOne a s (some fd, t) skip go e k g = g fd t (net.opened-socket a s t fd e)

    connect_any-OpensOne :
        (list : List net.Address) (s : net.State) → OpensOne s (connect_any net list s)
    unfolding connect_any
    connect_any-OpensOne [] s = refl
    connect_any-OpensOne (a ∷ list) s =
        after_socket-OpensOne a s (net.socket a s) _ _ refl (λ t. connect_any-OpensOne list t)
          (λ fd t e.
            after_connect-OpensOne s t fd (net.connect fd a t) _ e (net.opened-connect fd a t)
              (λ u. connect_any-OpensOne list u))

    -- Where no close fails, open_clientfd returns the only descriptor that it leaves open, and leaves
    -- none open with an error, whichever of the addresses could not be reached.
    pub open_clientfd-OpensOne :
        (addresses : Option (List net.Address)) (s : net.State)
        → OpensOne s (open_clientfd net addresses s)
    unfolding open_clientfd
    open_clientfd-OpensOne none s = refl
    open_clientfd-OpensOne (some list) s = connect_any-OpensOne list s

    bind_any-OpensOne : (list : List net.Address) (s : net.State) → OpensOne s (bind_any net list s)
    unfolding bind_any
    bind_any-OpensOne [] s = refl
    bind_any-OpensOne (a ∷ list) s =
        after_socket-OpensOne a s (net.socket a s) _ _ refl (λ t. bind_any-OpensOne list t)
          (λ fd t e.
            after_connect-OpensOne s (net.setsockopt fd t) fd _ _ (net.opened-setsockopt fd t ∙ e)
              (net.opened-bind fd a (net.setsockopt fd t)) (λ u. bind_any-OpensOne list u))

    -- What open_listenfd adds to the walk: the descriptor listens.
    abbrev pub Listens : net.State → Result net → Type 0
    Listens s (descriptor fd, t) = (net.opened t ≡ fd ∷ net.opened s) × net.listening fd t
    Listens s (failed, t) = net.opened t ≡ net.opened s
    Listens s (unresolved, t) = net.opened t ≡ net.opened s

    after_listen-Listens :
        (s t : net.State) (fd : ℕ) (r : Bool × net.State)
        → net.listen fd t ≡ r
        → net.opened t ≡ fd ∷ net.opened s
        → Listens s (after_listen net fd r)
    after_listen-Listens s t fd (true, u) e h =
        let kept = ap (λ x. net.opened x.1) (sym e) ∙ net.opened-listen fd t in
        (kept ∙ h, subst (λ x. net.listening fd x.1) e (net.listens fd t (ap (λ x. x.0) e)))
    after_listen-Listens s t fd (false, u) e h =
        let kept = ap (λ x. net.opened x.1) (sym e) ∙ net.opened-listen fd t in
        net.closed fd u (net.opened s) (kept ∙ h) (closes fd u)

    then_listen-Listens :
        (s : net.State) (r : Result net) → OpensOne s r → Listens s (then_listen net r)
    then_listen-Listens s (descriptor fd, t) h =
        after_listen-Listens s t fd (net.listen fd t) refl h
    then_listen-Listens s (failed, t) h = h
    then_listen-Listens s (unresolved, t) h = h

    -- Where no close fails, the descriptor that open_listenfd returns listens and is the only one that
    -- it leaves open, and it leaves none open with an error, that of listen included.
    pub open_listenfd-Listens :
        (addresses : Option (List net.Address)) (s : net.State)
        → Listens s (open_listenfd net addresses s)
    unfolding open_listenfd
    open_listenfd-Listens none s = refl
    open_listenfd-Listens (some list) s =
        then_listen-Listens s (bind_any net list s) (bind_any-OpensOne list s)
