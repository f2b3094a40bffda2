-- ===== src/Relay/Client.antt =====
-- pty/pty_exec_util.cpp: what pty_client relays.
use hoststack.Prelude.{
  ℕ, zero, suc, ◌+◌, ◌≢◌, ◌≤◌, ◌<◌, refl, sym, none, some, arith, Bool-cases, inl, inr, ◌⊎◌,
}
use hoststack.Io.{Io}
use hoststack.Pool.{FdSet}
use hoststack.Pool.Serve.{Waiting}
use hoststack.Relay.{
  Traffic, going, ended, exited, undefined, Turn, and_then, buf_size, ready_after, client_set,
  client_from_stdin, client_to_stdout, client_round, client_rounds,
}
use hoststack.Relay.Copies.{
  Over, Copied, Cut, Others, Copied-unchanged, Copied-append, Copied-Cut_append, pass_on_lem,
}

-- Both ways of a relay between the terminal and a descriptor.
module _ (io : Io) (waiting : Waiting io) (traffic : Traffic io waiting) (tries fd : ℕ) where
  abbrev pub Input : io.State → io.State → Type 0
  Input s t = Copied io waiting traffic 0 fd s t

  abbrev pub Output : io.State → io.State → Type 0
  Output s t = Copied io waiting traffic fd 1 s t

  abbrev pub Both : io.State → io.State → Type 0
  Both s t = Input s t × Output s t × (io.patience t ≤ io.patience s)

  -- What the terminal delivered, the descriptor has taken, and what the descriptor delivered, the
  -- terminal has taken; the loop is left after a read that failed or delivered the end, or a write
  -- that left the end of the last input, and when err_exit has ended the program, a write has left
  -- the end of the last output.
  abbrev pub Relayed : io.State → Turn io waiting tries → Type 0
  Relayed s none = ⊥
  Relayed s (some (going t)) = Both s t
  Relayed s (some (ended t)) =
      ((Input s t × (Over io waiting traffic 0 t ⊎ Over io waiting traffic fd t))
        ⊎ Cut io waiting traffic 0 fd s t)
      × Output s t
  Relayed s (some (exited t)) = Input s t × Cut io waiting traffic fd 1 s t
  Relayed s (some undefined) = ⊥

  pub Both-here : (s : io.State) → Both s s
  Both-here s = (
    Copied-unchanged io waiting traffic 0 fd s s refl refl,
    Copied-unchanged io waiting traffic fd 1 s s refl refl,
    omega arith,
  )

  pub Relayed-later :
      (s t : io.State) (r : Turn io waiting tries) → Both s t → Relayed t r → Relayed s r
  Relayed-later s t none b h = h
  Relayed-later s t (some (going u)) (i, o, m) (i', o', m') = (
    Copied-append io waiting traffic 0 fd s t u i i',
    Copied-append io waiting traffic fd 1 s t u o o',
    omega (arith, m, m'),
  )
  Relayed-later s t (some (ended u)) (i, o, m) (inl (i', v), o') = (
    inl (Copied-append io waiting traffic 0 fd s t u i i', v),
    Copied-append io waiting traffic fd 1 s t u o o',
  )
  Relayed-later s t (some (ended u)) (i, o, m) (inr i', o') = (
    inr (Copied-Cut_append io waiting traffic 0 fd s t u i i'),
    Copied-append io waiting traffic fd 1 s t u o o',
  )
  Relayed-later s t (some (exited u)) (i, o, m) (i', o') = (
    Copied-append io waiting traffic 0 fd s t u i i',
    Copied-Cut_append io waiting traffic fd 1 s t u o o',
  )
  Relayed-later s t (some undefined) b h = h

  pub and_then-Relayed :
      (s : io.State) (r : Turn io waiting tries) (f : io.State → Turn io waiting tries)
      → Relayed s r
      → ((t : io.State) → io.patience t ≤ io.patience s → Relayed t (f t))
      → Relayed s (and_then io waiting tries r f)
  and_then-Relayed s none f h g = h
  and_then-Relayed s (some (going t)) f h g = Relayed-later s t (f t) h (g t h.2)
  and_then-Relayed s (some (ended t)) f h g = h
  and_then-Relayed s (some (exited t)) f h g = h
  and_then-Relayed s (some undefined) f h g = h

  -- A step of one direction leaves the other alone.
  pub input_step :
      (s t : io.State) → fd ≢ 0 → fd ≢ 1 → Others io waiting traffic 0 fd s t → Output s t
  input_step s t n0 n1 (g, w) =
      Copied-unchanged io waiting traffic fd 1 s t (g fd n0) (w 1 (λ e. n1 (sym e)))

  pub output_step :
      (s t : io.State) → fd ≢ 0 → fd ≢ 1 → Others io waiting traffic fd 1 s t → Input s t
  output_step s t n0 n1 (g, w) =
      Copied-unchanged io waiting traffic 0 fd s t (g 0 (λ e. n0 (sym e))) (w fd n1)

  pub select-Both : (n : ℕ) (r : FdSet) (s : io.State) → Both s (waiting.select n r s).1
  select-Both n r s = (
    Copied-unchanged io waiting traffic 0 fd s _ (traffic.got-select n 0 r s)
        (traffic.written-select n fd r s),
    Copied-unchanged io waiting traffic fd 1 s _ (traffic.got-select n fd r s)
        (traffic.written-select n 1 r s),
    waiting.select_patience n r s,
  )

  module _ (n0 : fd ≢ 0) (n1 : fd ≢ 1) where
    client_from_stdin-Relayed :
        (ready : FdSet) (s : io.State)
        → buf_size + io.patience s < tries
        → Relayed s (client_from_stdin io waiting tries fd ready s)
    unfolding client_from_stdin
    client_from_stdin-Relayed ready s l = elim (Bool-cases (ready 0)) [
      | inl e ↦ rw e (
          pass_on_lem io waiting traffic tries (Relayed s) ended 0 fd s
            (λ t c o m. (c, input_step s t n0 n1 o, m)) (λ t c o m. (inr c, input_step s t n0 n1 o))
            buf_size l (λ t c o m v. (inl (c, inl v), input_step s t n0 n1 o)))
      | inr e ↦ rw e (Both-here s)
    ]

    client_to_stdout-Relayed :
        (ready : FdSet) (s : io.State)
        → buf_size + io.patience s < tries
        → Relayed s (client_to_stdout io waiting tries fd ready s)
    unfolding client_to_stdout
    client_to_stdout-Relayed ready s l = elim (Bool-cases (ready fd)) [
      | inl e ↦ rw e (
          pass_on_lem io waiting traffic tries (Relayed s) exited fd 1 s
            (λ t c o m. (output_step s t n0 n1 o, c, m)) (λ t c o m. (output_step s t n0 n1 o, c))
            buf_size l (λ t c o m v. (inl (output_step s t n0 n1 o, inr v), c)))
      | inr e ↦ rw e (Both-here s)
    ]

    client_round-Relayed :
        (s : io.State)
        → buf_size + io.patience s < tries
        → Relayed s (client_round io waiting tries fd s)
    unfolding client_round
    client_round-Relayed s l =
        let answer = waiting.select (suc fd) (client_set io waiting tries fd) s in
        let m = waiting.select_patience (suc fd) (client_set io waiting tries fd) s in
        let ready = ready_after io waiting tries (client_set io waiting tries fd) answer in
        Relayed-later s answer.1 _ (select-Both (suc fd) (client_set io waiting tries fd) s) (
          and_then-Relayed answer.1 _ _
            (client_from_stdin-Relayed ready answer.1 (omega (arith, l, m)))
            (λ t k. client_to_stdout-Relayed ready t (omega (arith, l, m, k))))

    -- After any number of rounds of pty_client, the server has taken exactly the bytes that the terminal
    -- has delivered, and the terminal those that the server has delivered, in their order;
    -- only a failed or refused write can have left the end of the last input when the loop has been
    -- left, and has left that of the last output when the program has ended by err_exit. The socket is neither 0 nor 1, and tries is enough for the buffer's bytes and every
    -- interrupt.
    pub client_rounds-Relayed :
        (rounds : ℕ) (s : io.State)
        → buf_size + io.patience s < tries
        → Relayed s (client_rounds io waiting tries fd rounds s)
    unfolding client_rounds
    client_rounds-Relayed zero s l = Both-here s
    client_rounds-Relayed (suc rounds) s l =
        and_then-Relayed s _ _ (client_round-Relayed s l)
          (λ t m. client_rounds-Relayed rounds t (omega (arith, l, m)))
