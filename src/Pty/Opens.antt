-- ===== src/Pty/Opens.antt =====
-- pty/pty_master_open.cpp: what pty_master_open leaves open, and the errno of its errors.
use hoststack.Prelude.{
  if◌then◌else◌, ℕ, ◌≡◌, ◌≤◌, ◌<◌, sym, ap, ◌∙◌, true, false, none, some, length, inl, inr,
  Bool-cases, ltb, subst, assign, ltb→lt, not_ltb→le,
}
use hoststack.Prelude.Text.{Text}
use hoststack.Returns.{Result, returns, fails, exits, try_lem, check_lem, return}
use hoststack.Pty.{Terminals, eoverflow, close_and_fail, too_small, pty_master_open}
use hoststack.Pty.Table.{assign_back}

module _ (term : Terminals) where
  -- The error numbers that a failing pty_master_open may leave: that of the call that failed, or
  -- EOVERFLOW for a name that does not fit.
  pub data Refused (sn_len : ℕ) (s : term.State) : ℕ → Type 0 where
    not_opened :
        (t : term.State) → term.posix_openpt s ≡ (none, t) → Refused sn_len s (term.errno t)
    not_granted :
        (m : ℕ) (t u : term.State)
        → term.posix_openpt s ≡ (some m, t)
        → term.grantpt m t ≡ (false, u)
        → Refused sn_len s (term.errno u)
    not_unlocked :
        (m : ℕ) (t u v : term.State)
        → term.posix_openpt s ≡ (some m, t)
        → term.grantpt m t ≡ (true, u)
        → term.unlockpt m u ≡ (false, v)
        → Refused sn_len s (term.errno v)
    not_named :
        (m : ℕ) (t u v w : term.State)
        → term.posix_openpt s ≡ (some m, t)
        → term.grantpt m t ≡ (true, u)
        → term.unlockpt m u ≡ (true, v)
        → term.ptsname m v ≡ (none, w)
        → Refused sn_len s (term.errno w)
    too_long :
        (m : ℕ) (t u v w : term.State) (p : Text)
        → term.posix_openpt s ≡ (some m, t)
        → term.grantpt m t ≡ (true, u)
        → term.unlockpt m u ≡ (true, v)
        → term.ptsname m v ≡ (some p, w)
        → sn_len ≤ length p
        → Refused sn_len s eoverflow

  abbrev pub OpensMaster : ℕ → term.State → Result (ℕ × Text) × term.State → Type 0
  OpensMaster sn_len s (returns (m, name), t) =
      (term.table s m ≡ none)
      × (length name < sn_len)
      × ((f : term.File) × (term.table t ≡ assign (term.table s) m (some f)))
  OpensMaster sn_len s (fails, t) = (term.table t ≡ term.table s) × Refused sn_len s (term.errno t)
  OpensMaster sn_len s (exits n, t) = ⊥

  -- Closing the only new descriptor gives the table before it.
  pub table-close_new :
      (s t : term.State) (m : ℕ) (f : term.File)
      → term.table s m ≡ none
      → term.table t ≡ assign (term.table s) m (some f)
      → term.table (term.close m t) ≡ term.table s
  table-close_new s t m f h e =
      term.table-close m t ∙ ap (λ x. assign x m none) e ∙ assign_back (term.table s) m (some f) h

  -- A call that leaves the table alone.
  pub kept :
      {A : Type 0} {a : A} {t : term.State} (s : term.State) (r : A × term.State)
      → term.table r.1 ≡ term.table s
      → r ≡ (a, t)
      → term.table t ≡ term.table s
  kept s r h e = sym (ap (λ x. term.table x.1) e) ∙ h

  failed_lem :
      (sn_len n : ℕ) (s t : term.State) (m : ℕ) (f : term.File)
      → term.table s m ≡ none
      → term.table t ≡ assign (term.table s) m (some f)
      → Refused sn_len s n
      → (term.table (term.set_errno n (term.close m t)) ≡ term.table s)
        × Refused sn_len s (term.errno (term.set_errno n (term.close m t)))
  failed_lem sn_len n s t m f h e r = (
    term.table-set_errno n (term.close m t) ∙ table-close_new s t m f h e,
    subst (Refused sn_len s) (sym (term.errno-set_errno n (term.close m t))) r,
  )

  -- pty_master_open returns a new descriptor, the only one that it leaves open, and a name that fits
  -- the buffer with its terminator; or it fails with every descriptor as it was, and errno is that of
  -- the call that failed, or EOVERFLOW where the name does not fit, whatever close does to it.
  pub pty_master_open-OpensMaster :
      (sn_len : ℕ) (s : term.State) → OpensMaster sn_len s (pty_master_open term sn_len s)
  unfolding pty_master_open close_and_fail too_small
  pty_master_open-OpensMaster sn_len s =
      try_lem (OpensMaster sn_len s) term.posix_openpt _ _ s
        (λ m t e.
          let (h, (f, n)) = term.openpt_lem m s t e in
          check_lem (OpensMaster sn_len s) (term.grantpt m) _ _ t
            (λ u eu.
              let nu = kept t (term.grantpt m t) (term.table-grantpt m t) eu ∙ n in
              check_lem (OpensMaster sn_len s) (term.unlockpt m) _ _ u
                (λ v ev.
                  let nv = kept u (term.unlockpt m u) (term.table-unlockpt m u) ev ∙ nu in
                  try_lem (OpensMaster sn_len s) (term.ptsname m) _ _ v
                    (λ p w ew.
                      let nw = kept v (term.ptsname m v) (term.table-ptsname m v) ew ∙ nv in
                      named m t u v w p f e eu ev ew h nw)
                    (λ w ew.
                      let nw = kept v (term.ptsname m v) (term.table-ptsname m v) ew ∙ nv in
                      failed_lem sn_len _ s w m f h nw (not_named m t u v w e eu ev ew)))
                (λ v ev.
                  let nv = kept u (term.unlockpt m u) (term.table-unlockpt m u) ev ∙ nu in
                  failed_lem sn_len _ s v m f h nv (not_unlocked m t u v e eu ev)))
            (λ u eu.
              let nu = kept t (term.grantpt m t) (term.table-grantpt m t) eu ∙ n in
              failed_lem sn_len _ s u m f h nu (not_granted m t u e eu)))
        (λ t e. (term.openpt_refused s t e, not_opened t e))
    where
      named :
          (m : ℕ) (t u v w : term.State) (p : Text) (f : term.File)
          → term.posix_openpt s ≡ (some m, t)
          → term.grantpt m t ≡ (true, u)
          → term.unlockpt m u ≡ (true, v)
          → term.ptsname m v ≡ (some p, w)
          → term.table s m ≡ none
          → term.table w ≡ assign (term.table s) m (some f)
          → OpensMaster sn_len s
              ((if ltb (length p) sn_len then return (m, p) else too_small term m) w)
      named m t u v w p f e eu ev ew h n = elim (Bool-cases (ltb (length p) sn_len)) [
        | inl fits ↦ rw fits (h, ltb→lt (length p) sn_len fits, (f, n))
        | inr long ↦ rw long (
            failed_lem sn_len eoverflow s w m f h n
              (too_long m t u v w p e eu ev ew (not_ltb→le (length p) sn_len long)))
      ]
