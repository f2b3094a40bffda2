-- ===== src/Relay/Turns.antt =====
-- pty/pty_exec_util.cpp: what one input and one output of pty_exec relay.
use hoststack.Prelude.{
  ℕ, zero, suc, ◌≡◌, ◌≢◌, ◌≤◌, ◌<◌, refl, sym, ap, ◌∙◌, Bool, true, false, Option, none, some, [],
  ◌∷◌, ◌++◌, arith, Bool-cases, inl, inr, length, take, drop, take-drop, ◌==◌,
}
use mathlib.Core.List.{append-nil}
use hoststack.Prelude.Text.{Text}
use hoststack.Io.{Io}
use hoststack.Pool.Serve.{Waiting}
use hoststack.Relay.{Traffic, ended, buf_size, exec_input, exec_output, wrote_all}
use hoststack.Relay.Copies.{Copied, all_written_lem, read_refused, read_nothing, read_data}
use hoststack.Relay.Client.{Relayed, input_step, output_step}

take_of_eq : (k : ℕ) (d : Text) → (k == length d) ≡ true → take k d ≡ d
take_of_eq zero [] e = refl
take_of_eq (suc k) [] e = refl
take_of_eq zero (c ∷ d) e = absurd (omega (arith, wrong (length d) e))
  where
    wrong : (n : ℕ) → (0 == suc n) ≡ true → 1 ≤ 0
    wrong n e = ground arith
take_of_eq (suc k) (c ∷ d) e = ap (◌∷◌ c) (take_of_eq k d (less k (length d) e))
  where
    less : (k n : ℕ) → (suc k == suc n) ≡ true → (k == n) ≡ true
    less k n e = ground arith

short : (k n : ℕ) → k ≤ n → (k == n) ≡ false → k < n
short k n l e = ground arith

module _ (io : Io) (waiting : Waiting io) (traffic : Traffic io waiting) (tries : ℕ) (detach : Bool)
    (fd : ℕ) (n0 : fd ≢ 0) (n1 : fd ≢ 1) where
  -- A signal that interrupts a call is one that may.
  uninterrupted :
      (s t : io.State)
      → io.patience s ≡ 0
      → (io.eintr t ≡ true → io.patience t < io.patience s)
      → io.eintr t ≡ true
      → ⊥
  uninterrupted s t z i e = absurd (omega (arith, z, i e))

  pub exec_input-Relayed :
      (s : io.State)
      → io.patience s ≡ 0
      → buf_size < tries
      → Relayed io waiting traffic tries fd s
          (exec_input io waiting tries detach fd (io.read 0 buf_size s))
  exec_input-Relayed s z l = go (io.read 0 buf_size s) refl
    where
      go :
          (r : Option Text × io.State)
          → io.read 0 buf_size s ≡ r
          → Relayed io waiting traffic tries fd s (exec_input io waiting tries detach fd r)
      go (none, t) e =
          let (c, o, m) = read_refused io waiting traffic 0 fd buf_size s t e in
          elim (Bool-cases (io.eintr t)) [
            | inl i ↦ absurd (uninterrupted s t z (io.read_refused 0 buf_size s t e).2 i)
            | inr i ↦ rw i (
              inl (c, inl (buf_size, s, inl e)),
              input_step io waiting traffic tries fd s t n0 n1 o,
            )
          ]
      go (some [], t) e =
          let (c, o, m) = read_nothing io waiting traffic 0 fd buf_size s t e in
          (inl (c, inl (buf_size, s, inr e)), input_step io waiting traffic tries fd s t n0 n1 o)
      go (some (c ∷ d), t) e =
          all_written_lem io waiting traffic tries (Relayed io waiting traffic tries fd s) ended 0
            fd s (λ t c o m. (c, input_step io waiting traffic tries fd s t n0 n1 o, m))
            (λ t c o m. (inr c, input_step io waiting traffic tries fd s t n0 n1 o)) buf_size t
            (c ∷ d) e (omega (arith, z, l))

  -- The single write of what was read.
  wrote_all-Relayed :
      (s t : io.State) (d : Text)
      → io.read fd buf_size s ≡ (some d, t)
      → Relayed io waiting traffic tries fd s
          (wrote_all io waiting tries detach fd (length d) (io.write 1 d t))
  wrote_all-Relayed s t d e =
      let (g, o, w, len, m) = read_data io waiting traffic fd buf_size s t d e in
      go g o w m (io.write 1 d t) refl
    where
      go :
          traffic.got fd t ≡ traffic.got fd s ++ d
          → ((g : ℕ) → g ≢ fd → traffic.got g t ≡ traffic.got g s)
          → ((g : ℕ) → io.written g t ≡ io.written g s)
          → io.patience t ≤ io.patience s
          → (r : Option ℕ × io.State) → io.write 1 d t ≡ r
          → Relayed io waiting traffic tries fd s
              (wrote_all io waiting tries detach fd (length d) r)
      go g o w m (r, u) h = split r h
        where
          got_all : (i : ℕ) → traffic.got i u ≡ traffic.got i t
          got_all i = sym (ap (λ x. traffic.got i x.1) h) ∙ traffic.got-write 1 i d t

          input : Copied io waiting traffic 0 fd s u
          input = output_step io waiting traffic tries fd s u n0 n1 (
            λ i ne. got_all i ∙ o i ne,
            λ i ne. sym (ap (λ x. io.written i x.1) h) ∙ traffic.written_other 1 i d t ne ∙ w i,
          )

          split :
              (r : Option ℕ)
              → io.write 1 d t ≡ (r, u)
              → Relayed io waiting traffic tries fd s
                  (wrote_all io waiting tries detach fd (length d) (r, u))
          split none h =
              let (v, p, i) = io.write_refused 1 t u d h in
              (
                input,
                (
                  [],
                  d,
                  got_all fd ∙ g,
                  v ∙ w 1 ∙ sym (append-nil (io.written 1 s)),
                  (d, t, inl (h, refl)),
                ),
              )
          split (some k) h =
              let (v, len, p) = io.write_some 1 k t u d h in
              elim (Bool-cases (k == length d)) [
                | inl e ↦ rw e (
                  input,
                  (
                    d,
                    got_all fd ∙ g,
                    v ∙ ap (λ z. io.written 1 t ++ z) (take_of_eq k d e) ∙ ap (λ z. z ++ d) (w 1),
                  ),
                  omega (arith, p, m),
                )
                | inr e ↦ rw e (
                  input,
                  (
                    take k d,
                    drop k d,
                    got_all fd ∙ g ∙ ap (λ z. traffic.got fd s ++ z) (sym (take-drop k d)),
                    v ∙ ap (λ z. z ++ take k d) (w 1),
                    (d, t, inr (k, h, short k (length d) len e, refl)),
                  ),
                )
              ]

  pub exec_output-Relayed :
      (s : io.State)
      → io.patience s ≡ 0
      → Relayed io waiting traffic tries fd s
          (exec_output io waiting tries detach fd (io.read fd buf_size s))
  exec_output-Relayed s z = go (io.read fd buf_size s) refl
    where
      go :
          (r : Option Text × io.State)
          → io.read fd buf_size s ≡ r
          → Relayed io waiting traffic tries fd s (exec_output io waiting tries detach fd r)
      go (none, t) e =
          let (c, o, m) = read_refused io waiting traffic fd 1 buf_size s t e in
          let i = output_step io waiting traffic tries fd s t n0 n1 o in
          elim (Bool-cases (io.eintr t)) [
            | inl x ↦ absurd (uninterrupted s t z (io.read_refused fd buf_size s t e).2 x)
            | inr x ↦ rw x (inl (i, inr (buf_size, s, inl e)), c)
          ]
      go (some [], t) e =
          let (c, o, m) = read_nothing io waiting traffic fd 1 buf_size s t e in
          let i = output_step io waiting traffic tries fd s t n0 n1 o in
          elim (Bool-cases (io.eintr t)) [
            | inl x ↦ rw x (wrote_all-Relayed s t [] e)
            | inr x ↦ rw x (inl (i, inr (buf_size, s, inr e)), c)
          ]
      go (some (c ∷ d), t) e = wrote_all-Relayed s t (c ∷ d) e
