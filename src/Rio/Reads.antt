-- ===== src/Rio/Reads.antt =====
-- common/socket_io.cpp: what rio_readn reads.
use mathlib.Core.List.{append_assoc}
use hoststack.Prelude.{
  ℕ, zero, suc, ◌+◌, ◌-◌, ◌≤◌, ◌<◌, ◌≡◌, refl, ◌∙◌, ◌⊎◌, inl, inr, false, none, some, [], ◌∷◌, ◌++◌,
  length, length-append, ap, sym, arith, subst,
}
use hoststack.Prelude.Text.{Text}
use hoststack.Io.{Io}
use hoststack.Rio.{after_read_lem, Answer, rio_readn, rio_readn_loop}

module _ (io : Io) (fd : ℕ) where
  -- The bytes are those that the descriptor delivers next: n of them, or all up to its end. The
  -- result is -1 only after a call of read for the missing bytes that failed, and not by a signal.
  abbrev pub DeliversUpTo : ℕ → io.State → Answer io → Type 0
  DeliversUpTo n s none = ⊥
  DeliversUpTo n s (some (none, t)) =
      (d : Text) × (u : io.State) × (io.pending fd s ≡ d ++ io.pending fd u)
      × (length d < n)
      × (io.read fd (n - length d) u ≡ (none, t))
      × (io.eintr t ≡ false)
  DeliversUpTo n s (some (some d, t)) =
      (io.pending fd s ≡ d ++ io.pending fd t)
      × (length d ≤ n)
      × ((length d ≡ n) ⊎ (io.pending fd t ≡ []))

  missing : (left n : ℕ) (buf : Text) → length buf + left ≡ n → left ≡ n - length buf
  missing left n buf b = omega (arith, b)

  loop_delivers :
      (fuel left n : ℕ) (buf : Text) (s₀ s : io.State)
      → left + io.patience s < fuel
      → io.pending fd s₀ ≡ buf ++ io.pending fd s
      → length buf + left ≡ n
      → DeliversUpTo n s₀ (rio_readn_loop io fuel fd left buf s)
  unfolding rio_readn_loop
  loop_delivers zero left n buf s₀ s l p b = elim l [ ]
  loop_delivers (suc fuel) zero n buf s₀ s l p b = (p, omega (arith, b), inl (omega (arith, b)))
  loop_delivers (suc fuel) (suc left) n buf s₀ s l p b =
      after_read_lem (DeliversUpTo n s₀) io.eintr (io.read fd (suc left) s) _ _ _ _
        (λ t e i.
          let (p', n', q) = io.read_refused fd (suc left) s t e in
          loop_delivers fuel (suc left) n buf s₀ t (omega (arith, l, q i))
            (p ∙ ap (◌++◌ buf) (sym p')) b)
        (λ t e i. (
          buf,
          s,
          p,
          omega (arith, b),
          subst (λ k. io.read fd k s ≡ (none, t)) (missing (suc left) n buf b) e,
          i,
        ))
        (λ t e.
          let p' = io.read_end fd left s t e in
          let q = (io.read_data fd (suc left) s t [] e).0 in
          (p ∙ ap (◌++◌ buf) q, omega (arith, b), inr (sym q ∙ p')))
        (λ c d t e.
          let (p', n', q) = io.read_data fd (suc left) s t (c ∷ d) e in
          loop_delivers fuel (suc left - length (c ∷ d)) n (buf ++ c ∷ d) s₀ t
            (omega (arith, l, q, n'))
            (p ∙ ap (◌++◌ buf) p' ∙ sym (append_assoc buf (c ∷ d) (io.pending fd t)))
            (rw (length-append buf (c ∷ d)) (omega (arith, b, n'))))

  -- With fuel for every byte and every interrupt, rio_readn returns the next n bytes of the
  -- descriptor, or all of them up to its end where there are fewer, or -1 where the call of read
  -- for the bytes that are still missing failed for another reason than a signal.
  pub rio_readn-DeliversUpTo :
      (fuel n : ℕ) (s : io.State)
      → n + io.patience s < fuel
      → DeliversUpTo n s (rio_readn io fuel fd n s)
  unfolding rio_readn
  rio_readn-DeliversUpTo fuel n s l = loop_delivers fuel n n [] s s l refl (omega arith)
