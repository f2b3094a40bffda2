-- ===== src/Relay/Exec.antt =====
-- pty/pty_exec_util.cpp: what the rounds of pty_exec relay.
use hoststack.Prelude.{
  ℕ, zero, suc, ◌≡◌, ◌≢◌, ◌<◌, refl, subst, Bool, Option, none, some, arith, Bool-cases, inl, inr,
}
use hoststack.Io.{Io}
use hoststack.Pool.{FdSet}
use hoststack.Pool.Serve.{Waiting}
use hoststack.Relay.{
  Traffic, and_then, buf_size, exec_set, exec_from_stdin, exec_to_stdout, exec_selected, exec_round,
  exec_rounds,
}
use hoststack.Relay.Client.{Both, Relayed, Both-here, Relayed-later, and_then-Relayed, select-Both}
use hoststack.Relay.Turns.{exec_input-Relayed, exec_output-Relayed}

module _ (io : Io) (waiting : Waiting io) (traffic : Traffic io waiting) (tries : ℕ) (detach : Bool)
    (fd : ℕ) (n0 : fd ≢ 0) (n1 : fd ≢ 1) where
  exec_round-Relayed :
      (s : io.State)
      → io.patience s ≡ 0
      → buf_size < tries
      → Relayed io waiting traffic tries fd s (exec_round io waiting tries detach fd s)
  unfolding exec_round exec_from_stdin exec_to_stdout
  exec_round-Relayed s z l = go (waiting.select (suc fd) set s) refl
    where
      set : FdSet
      set = exec_set io waiting tries detach fd

      in_turn :
          (ready : FdSet) (t : io.State)
          → io.patience t ≡ 0
          → Relayed io waiting traffic tries fd t
              (exec_from_stdin io waiting tries detach fd ready t)
      in_turn ready t y = elim (Bool-cases (ready 0)) [
        | inl e ↦ rw e (exec_input-Relayed io waiting traffic tries detach fd n0 n1 t y l)
        | inr e ↦ rw e (Both-here io waiting traffic tries fd t)
      ]

      out_turn :
          (ready : FdSet) (t : io.State)
          → io.patience t ≡ 0
          → Relayed io waiting traffic tries fd t
              (exec_to_stdout io waiting tries detach fd ready t)
      out_turn ready t y = elim (Bool-cases (ready fd)) [
        | inl e ↦ rw e (exec_output-Relayed io waiting traffic tries detach fd n0 n1 t y)
        | inr e ↦ rw e (Both-here io waiting traffic tries fd t)
      ]

      serve :
          (ready : FdSet) (t : io.State)
          → io.patience t ≡ 0
          → Relayed io waiting traffic tries fd t (
              and_then io waiting tries
                (exec_from_stdin io waiting tries detach fd ready t)
                (exec_to_stdout io waiting tries detach fd ready))
      serve ready t y =
          and_then-Relayed io waiting traffic tries fd t _ _ (in_turn ready t y)
            (λ u m. out_turn ready u (omega (arith, m, y)))

      go :
          (r : Option (ℕ × FdSet) × io.State)
          → waiting.select (suc fd) set s ≡ r
          → Relayed io waiting traffic tries fd s (
              exec_selected io waiting tries detach fd r (λ ready t.
                and_then io waiting tries
                  (exec_from_stdin io waiting tries detach fd ready t)
                  (exec_to_stdout io waiting tries detach fd ready)))
      go (r, t) e = chosen r
        where
          both : Both io waiting traffic tries fd s t
          both =
              subst (λ x. Both io waiting traffic tries fd s x.1) e
                (select-Both io waiting traffic tries fd (suc fd) set s)

          calm : io.patience t ≡ 0
          calm = omega (arith, both.2, z)

          chosen :
              (r : Option (ℕ × FdSet))
              → Relayed io waiting traffic tries fd s (
                  exec_selected io waiting tries detach fd
                    (r, t)
                    (λ ready t.
                      and_then io waiting tries
                        (exec_from_stdin io waiting tries detach fd ready t)
                        (exec_to_stdout io waiting tries detach fd ready)))
          chosen none = elim (Bool-cases (io.eintr t)) [
            | inl i ↦ rw i both
            | inr i ↦ rw i (Relayed-later io waiting traffic tries fd s t _ both (serve set t calm))
          ]
          chosen (some x) = Relayed-later io waiting traffic tries fd s t _ both (serve x.1 t calm)

  -- Where no signal interrupts a call, pty_exec relays as pty_client does: after any number of rounds
  -- the master has taken exactly the bytes that the terminal has delivered, and the terminal those
  -- that the master has delivered, in their order, but for the end of the last input or output. The
  -- master is neither 0 nor 1, and tries is enough for the bytes of the buffer.
  pub exec_rounds-Relayed :
      (rounds : ℕ) (s : io.State)
      → io.patience s ≡ 0
      → buf_size < tries
      → Relayed io waiting traffic tries fd s (exec_rounds io waiting tries detach fd rounds s)
  unfolding exec_rounds
  exec_rounds-Relayed zero s z l = Both-here io waiting traffic tries fd s
  exec_rounds-Relayed (suc rounds) s z l =
      and_then-Relayed io waiting traffic tries fd s _ _ (exec_round-Relayed s z l)
        (λ t m. exec_rounds-Relayed rounds t (omega (arith, m, z)) l)
