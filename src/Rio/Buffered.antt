-- ===== src/Rio/Buffered.antt =====
-- common/socket_io.cpp: rio_read and the buffer that it refills.
use mathlib.Core.List.{append_assoc}
use hoststack.Prelude.{
  ℕ, zero, suc, ◌≤◌, ◌<◌, ◌≡◌, refl, sym, ap, ◌∙◌, Bool, false, true, Option, none, some, [], ◌∷◌,
  ◌++◌, length, take, drop, take-drop, length-take_le, arith,
}
use hoststack.Prelude.Text.{Text}
use hoststack.Io.{Io}
use hoststack.Rio.{
  Buffer, BufferedAnswer, buffer_size, rio_refill, rio_copy, rio_read, after_read_lem,
}

cons_not_nil : {c : ℕ} {d : Text} → c ∷ d ≡ [] → ⊥
cons_not_nil e = cc

module _ (io : Io) where
  -- What the buffer and its descriptor will still deliver.
  abbrev pub available : Buffer → io.State → Text
  available rp s = rp.unread ++ io.pending rp.fd s

  -- A call of read failed, and not by a signal, when the descriptor was still to deliver these bytes.
  abbrev pub FailsAt : ℕ → Text → io.State → Type 0
  FailsAt fd rest t =
      (u : io.State) × (rest ≡ io.pending fd u)
      × (io.read fd buffer_size u ≡ (none, t))
      × (io.eintr t ≡ false)

  Refilled : ℕ → Text → io.State → Option (Option Bool × (Text × io.State)) → Type 0
  Refilled fd u s none = ⊥
  Refilled fd u s (some (none, (v, t))) = FailsAt fd (u ++ io.pending fd s) t
  Refilled fd u s (some (some false, (v, t))) =
      (u ++ io.pending fd s ≡ []) × (v ++ io.pending fd t ≡ []) × (io.patience t ≤ io.patience s)
  Refilled fd u s (some (some true, (v, t))) =
      (u ++ io.pending fd s ≡ v ++ io.pending fd t)
      × (io.patience t ≤ io.patience s)
      × ((c : ℕ) × (d : Text) × (v ≡ c ∷ d))

  -- An interrupted call leaves what is still to be delivered.
  later :
      (fd : ℕ) (s t : io.State) (o : Option (Option Bool × (Text × io.State)))
      → io.pending fd t ≡ io.pending fd s
      → io.patience t < io.patience s
      → Refilled fd [] t o
      → Refilled fd [] s o
  unfolding Refilled
  later fd s t none e l h = h
  later fd s t (some (none, (v, u))) e l (w, a, b, c) = (w, sym e ∙ a, b, c)
  later fd s t (some (some false, (v, u))) e l (a, b, c) = (sym e ∙ a, b, omega (arith, l, c))
  later fd s t (some (some true, (v, u))) e l (a, b, c) = (sym e ∙ a, omega (arith, l, b), c)

  rio_refill_lem :
      (fuel fd : ℕ) (u : Text) (s : io.State)
      → io.patience s < fuel
      → Refilled fd u s (rio_refill io fuel fd u s)
  unfolding rio_refill Refilled
  rio_refill_lem zero fd u s l = elim l [ ]
  rio_refill_lem (suc fuel) fd (c ∷ d) s l = (refl, omega arith, (c, d, refl))
  rio_refill_lem (suc fuel) fd [] s l =
      after_read_lem (Refilled fd [] s) io.eintr (io.read fd buffer_size s) _ _ _ _
        (λ t e i.
          let (p, n, q) = io.read_refused fd buffer_size s t e in
          later fd s t _ p (q i) (rio_refill_lem fuel fd [] t (omega (arith, l, q i))))
        (λ t e i. (s, refl, e, i))
        (λ t e.
          let (p, n, q) = io.read_data fd buffer_size s t [] e in
          let none_left = io.read_end fd 8191 s t e in (none_left, sym p ∙ none_left, q))
        (λ c d t e.
          let (p, n, q) = io.read_data fd buffer_size s t (c ∷ d) e in (p, q, (c, d, refl)))

  -- The bytes are available: at least one, unless none is, and n at most.
  abbrev pub Delivers : Buffer → ℕ → io.State → BufferedAnswer io → Type 0
  Delivers rp n s none = ⊥
  Delivers rp n s (some (none, (rp', t))) = FailsAt rp'.fd (available rp s) t
  Delivers rp n s (some (some d, (rp', t))) =
      (available rp s ≡ d ++ available rp' t)
      × (length d ≤ n)
      × (d ≡ [] → available rp' t ≡ [])
      × (io.patience t ≤ io.patience s)

  rio_copy_lem :
      (rp : Buffer) (n : ℕ) (s : io.State) (o : Option (Option Bool × (Text × io.State)))
      → Refilled rp.fd rp.unread s o
      → Delivers rp (suc n) s (rio_copy io rp.fd (suc n) o)
  unfolding Refilled
  rio_copy_lem rp n s none h = h
  rio_copy_lem rp n s (some (none, (u, t))) h = h
  rio_copy_lem rp n s (some (some false, (u, t))) (a, b, p) = (a ∙ sym b, omega arith, (λ e. b), p)
  rio_copy_lem rp n s (some (some true, (u, t))) (a, p, (c, d, e)) = (
    a
        ∙ ap (λ x. x ++ io.pending rp.fd t) (sym (take-drop (suc n) u))
        ∙ append_assoc (take (suc n) u) (drop (suc n) u) (io.pending rp.fd t),
    length-take_le (suc n) u,
    (λ z. absurd (cons_not_nil (sym (ap (take (suc n)) e) ∙ z))),
    p,
  )

  -- rio_read, asked for a byte or more, takes available bytes, at least one unless none is left, or
  -- is -1 after a call of read that failed for another reason than a signal.
  pub rio_read-Delivers :
      (tries : ℕ) (rp : Buffer) (n : ℕ) (s : io.State)
      → io.patience s < tries
      → Delivers rp (suc n) s (rio_read io tries rp (suc n) s)
  unfolding rio_read
  rio_read-Delivers tries rp n s l =
      rio_copy_lem rp n s _ (rio_refill_lem tries rp.fd rp.unread s l)
