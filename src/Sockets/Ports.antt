-- ===== src/Sockets/Ports.antt =====
-- An instance of the interface: an address is a port, the port 0 cannot be reached, and no call but
-- that fails.
use hoststack.Prelude.{
  ℕ, zero, suc, ◌≡◌, refl, ap, ◌∙◌, sym, Bool, true, false, Option, none, some, List, [], ◌∷◌,
  length, same_some, no_some,
}
use hoststack.Sockets.{Sockets}

-- The open descriptors, and those that listen.
abbrev pub Table : Type 0
Table = List ℕ × List ℕ

-- The next descriptor, above the standard ones.
abbrev pub fresh : List ℕ → ℕ
fresh fds = suc (suc (suc (length fds)))

abbrev pub reach : ℕ → Bool
reach zero = false
reach (suc port) = true

abbrev pub rest : List ℕ → List ℕ
rest [] = []
rest (fd ∷ fds) = fds

abbrev pub make_socket : Table → Option ℕ × Table
make_socket (fds, ls) = (some (fresh fds), (fresh fds ∷ fds, ls))

abbrev pub IsListening : ℕ → Table → Type 0
IsListening fd (fds, []) = ⊥
IsListening fd (fds, l ∷ ls) = l ≡ fd

pub make_socket_opens : (s t : Table) (fd : ℕ) → make_socket s ≡ (some fd, t) → t.0 ≡ fd ∷ s.0
make_socket_opens (fds, ls) t fd e =
    sym (ap (λ r. r.1.0) e) ∙ ap (λ x. x ∷ fds) (same_some (ap (λ r. r.0) e))

pub make_socket_refuses : (s t : Table) → make_socket s ≡ (none, t) → t.0 ≡ s.0
make_socket_refuses (fds, ls) t e = absurd (no_some (sym (ap (λ r. r.0) e)))

abbrev pub port_sockets : Sockets
port_sockets = record {
  State = Table;
  Address = ℕ;
  socket = λ a s. make_socket s;
  connect = λ fd a s. (reach a, s);
  setsockopt = λ fd s. s;
  bind = λ fd a s. (reach a, s);
  listen = λ fd s. (true, (s.0, fd ∷ s.1));
  close = λ fd s. (true, (rest s.0, s.1));
  opened = λ s. s.0;
  listening = IsListening;
  opened-socket = λ a s t fd e. make_socket_opens s t fd e;
  socket_refused = λ a s t e. make_socket_refuses s t e;
  opened-connect = λ fd a s. refl;
  opened-setsockopt = λ fd s. refl;
  opened-bind = λ fd a s. refl;
  opened-listen = λ fd s. refl;
  listens = λ fd s e. refl;
  closed = λ fd s fds e c. ap rest e;
}
