-- ===== src/Pool/Begins.antt =====
-- pty/pty_exec_util.cpp: init_pool against the validity of the pool.
use hoststack.Prelude.{
  ℕ, ◌≤◌, ◌≡◌, ◌⊎◌, inl, inr, sym, ◌∙◌, true, false, none, some, Option, length-replicate, arith,
  replicate, no_some,
}
use hoststack.Pool.{Pool, fd_set, slot, fd_setsize, init_pool}
use hoststack.Pool.Valid.{IsValid}
use hoststack.Pool.Slots.{slot-replicate}
use hoststack.Pool.Sets.{fd_set_same, fd_set_more, fd_set_iff}

init_members :
    (listenfd masterfd fd : ℕ)
    → fd_set masterfd (fd_set listenfd (λ x. false)) fd ≡ true
    → (fd ≡ listenfd)
      ⊎ ((fd ≡ masterfd) ⊎ ((i : ℕ) × (slot (replicate fd_setsize none) i ≡ some fd)))
init_members listenfd masterfd fd e =
    elim (fd_set_iff masterfd fd (fd_set listenfd (λ x. false)) e) [
      | inl m ↦ inr (inl m)
      | inr o ↦ elim (fd_set_iff listenfd fd (λ x. false) o) [ inl n ↦ inl n | inr f ↦ cc ]
    ]

init_bounded :
    (listenfd masterfd fd : ℕ)
    → masterfd ≤ listenfd
    → fd_set masterfd (fd_set listenfd (λ x. false)) fd ≡ true
    → fd ≤ listenfd
init_bounded listenfd masterfd fd l e =
    elim (fd_set_iff masterfd fd (fd_set listenfd (λ x. false)) e) [
      | inl m ↦ omega (arith, m, l)
      | inr o ↦ elim (fd_set_iff listenfd fd (λ x. false) o) [
        | inl n ↦ omega (arith, n)
        | inr f ↦ cc
      ]
    ]

-- After init_pool the pool is valid, if the listening descriptor is not below the master.
pub init_pool-IsValid :
    (listenfd masterfd : ℕ) (p : Pool)
    → masterfd ≤ listenfd
    → IsValid listenfd (init_pool listenfd masterfd p)
unfolding init_pool
init_pool-IsValid listenfd masterfd p l =
    let s = fd_set listenfd (λ x. false) in
    record {
      size = length-replicate {A = Option ℕ} fd_setsize none;
      listens = fd_set_more masterfd listenfd s (fd_set_same listenfd (λ x. false));
      serves = fd_set_same masterfd s;
      reads = λ i fd e. absurd (no_some (sym (slot-replicate fd_setsize i) ∙ e));
      members = init_members listenfd masterfd;
      distinct = λ i j fd e f. absurd (no_some (sym (slot-replicate fd_setsize i) ∙ e));
      bounded = λ fd e. init_bounded listenfd masterfd fd l e;
      beyond = λ i b. slot-replicate fd_setsize i;
    }
