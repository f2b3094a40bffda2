-- ===== src/Rio/Writes.antt =====
-- common/socket_io.cpp: what rio_writen writes.
use mathlib.Core.List.{append_assoc, append-nil}
use hoststack.Prelude.{
  ℕ, zero, suc, ◌+◌, ◌<◌, ◌≡◌, refl, sym, ap, ◌∙◌, ◌⊎◌, inl, inr, Bool, false, true, Option, none,
  some, [], ◌∷◌, ◌++◌, length, take, drop, take-drop, length-drop, arith, subst, ◌≤◌,
}
use hoststack.Prelude.Text.{Text}
use hoststack.Io.{Io}
use hoststack.Rio.{rio_writen, after_write_lem}

module _ (io : Io) (fd : ℕ) where
  -- A call of write in which the descriptor took nothing and left the rest, and not by a signal.
  abbrev pub Refused : Text → io.State → Type 0
  Refused rest t =
      (0 < length rest)
      × ((u : io.State) × ((io.write fd rest u ≡ (none, t)) ⊎ (io.write fd rest u ≡ (some 0, t)))
          × (io.eintr t ≡ false))

  -- The descriptor has taken the bytes; where the result is -1, a beginning of them, and it refused
  -- the rest.
  abbrev pub WritesAll : Text → io.State → Option (Bool × io.State) → Type 0
  WritesAll buf s none = ⊥
  WritesAll buf s (some (true, t)) =
      (io.written fd t ≡ io.written fd s ++ buf) × (io.patience t ≤ io.patience s)
  WritesAll buf s (some (false, t)) =
      (d rest : Text) × (buf ≡ d ++ rest)
      × (io.written fd t ≡ io.written fd s ++ d)
      × (io.patience t ≤ io.patience s)
      × Refused rest t

  further :
      (d buf : Text) (s t : io.State) (r : Option (Bool × io.State))
      → io.written fd t ≡ io.written fd s ++ d
      → io.patience t ≤ io.patience s
      → WritesAll buf t r
      → WritesAll (d ++ buf) s r
  further d buf s t none w n h = h
  further d buf s t (some (true, u)) w n (h, m) =
      (h ∙ ap (λ x. x ++ buf) w ∙ append_assoc (io.written fd s) d buf, omega (arith, n, m))
  further d buf s t (some (false, u)) w n (d', rest, e, w', m, r) = (
    d ++ d',
    rest,
    ap (◌++◌ d) e ∙ sym (append_assoc d d' rest),
    w' ∙ ap (λ x. x ++ d') w ∙ append_assoc (io.written fd s) d d',
    omega (arith, n, m),
    r,
  )

  refused :
      (buf : Text) (s t : io.State)
      → (io.write fd buf s ≡ (none, t)) ⊎ (io.write fd buf s ≡ (some 0, t))
      → (io.written fd t ≡ io.written fd s ++ [])
        × (io.patience t ≤ io.patience s)
        × (io.eintr t ≡ true → io.patience t < io.patience s)
  refused buf s t (inl e) =
      let (w, n, p) = io.write_refused fd s t buf e in
      (w ∙ sym (append-nil (io.written fd s)), n, p)
  refused buf s t (inr e) =
      let (w, l, n) = io.write_some fd 0 s t buf e in (w, n, io.write_zero fd s t buf e)

  -- With fuel for every byte and every interrupt, rio_writen has the descriptor take all bytes in
  -- order and returns their number, or a beginning of them and returns -1, after a call of write
  -- for the rest that the descriptor refused for another reason than a signal.
  pub rio_writen-WritesAll :
      (fuel : ℕ) (buf : Text) (s : io.State)
      → length buf + io.patience s < fuel
      → WritesAll buf s (rio_writen io fuel fd buf s)
  unfolding rio_writen
  rio_writen-WritesAll zero buf s l = elim l [ ]
  rio_writen-WritesAll (suc fuel) [] s l = (sym (append-nil (io.written fd s)), omega arith)
  rio_writen-WritesAll (suc fuel) (c ∷ buf) s l =
      after_write_lem (WritesAll (c ∷ buf) s) io.eintr (io.write fd (c ∷ buf) s) _ _ _
        (λ t e i.
          let (w, n, p) = refused (c ∷ buf) s t e in
          further [] (c ∷ buf) s t _ w n
            (rio_writen-WritesAll fuel (c ∷ buf) t (omega (arith, l, p i))))
        (λ t e i.
          let (w, n, p) = refused (c ∷ buf) s t e in
          ([], c ∷ buf, refl, w, n, (omega arith, (s, e, i))))
        (λ k t e.
          let (w, n, p) = io.write_some fd (suc k) s t (c ∷ buf) e in
          subst (λ x. WritesAll x s (rio_writen io fuel fd (drop k buf) t))
            (take-drop (suc k) (c ∷ buf))
            (further (c ∷ take k buf) (drop k buf) s t _ w p (
              rio_writen-WritesAll fuel (drop k buf) t
                (omega (arith, l, p, n, length-drop k buf)))))
