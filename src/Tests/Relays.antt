-- ===== src/Tests/Relays.antt =====
-- The relays on concrete bytes.
use hoststack.Prelude.{
  ℕ, zero, suc, ◌≡◌, refl, Bool, true, false, Option, none, some, [], ◌∷◌, some_part, arith, ap,
}
use hoststack.Prelude.Text.{Text, codes}
use hoststack.Relay.{Progress, going, ended, exited, Turn, client_rounds, client_round}
use hoststack.Relay.Wires.{Wires, wires, taken_at, wire_io, wire_waiting, wire_traffic}
use hoststack.Returns.{Result, returns, fails, exits}
use hoststack.Pty.{Forked, parent, child}
use hoststack.Relay.Session.{Dialing, pty_client, Ending, pty_exec}
use hoststack.Relay.Session.Executes.{Executes, pty_exec-Executes}
use hoststack.Relay.Session.Modes.{Obeys, Dials, Serves, pty_client-Serves}
use hoststack.Tty.{Termios, raw}
use hoststack.Tty.Console.{console, cooked}

-- A command is typed, and the descriptor 5 answers.
abbrev to_deliver : ℕ → Text
to_deliver zero = codes "ls\n"
to_deliver (suc zero) = []
to_deliver (suc (suc n)) = codes "a.txt\n"

abbrev start : Wires
start = wires to_deliver (λ fd. []) (λ fd. [])

abbrev taken_after : ℕ → Turn wire_io wire_waiting 5000 → Text
taken_after fd none = []
taken_after fd (some (going s)) = taken_at fd s
taken_after fd (some (ended s)) = taken_at fd s
taken_after fd (some (exited s)) = taken_at fd s
taken_after fd (some Progress.undefined) = []

client_round_input : taken_after 5 (client_round wire_io wire_waiting 5000 5 start) ≡ codes "ls\n"
unfolding client_round
client_round_input = refl

client_round_output :
    taken_after 1 (client_round wire_io wire_waiting 5000 5 start) ≡ codes "a.txt\n"
unfolding client_round
client_round_output = refl

is_ended : Turn wire_io wire_waiting 5000 → Bool
is_ended none = false
is_ended (some (going s)) = false
is_ended (some (ended s)) = true
is_ended (some (exited s)) = false
is_ended (some Progress.undefined) = false

-- The second round finds the end of the input.
client_rounds_end : is_ended (client_rounds wire_io wire_waiting 5000 5 2 start) ≡ true
unfolding client_rounds is_ended
client_rounds_end = refl

abbrev dialing : Dialing wire_io
dialing = record { socket = λ s. (some 5, s); connect = λ fd path s. (true, s) }

-- The descriptors 0 and 1 of the console are a terminal.
console_reads : (t : Termios) → (console.tcgetattr 0 t).0 ≡ some t
console_reads t = refl

console_writes : (a t : Termios) → (console.tcsetattr 0 a t).0 ≡ true
console_writes a t = refl

console_obeys : Obeys console
console_obeys = record { reads = λ t. console_reads t; writes = λ a t. console_writes a t }

dialing_dials :
    Dials wire_io wire_waiting wire_traffic 5000 console console_obeys dialing raw cooked
dialing_dials = record {
  above = λ fd s r e.
      (λ h. absurd (omega (arith, some_part e, h)), λ h. absurd (omega (arith, some_part e, h)));
  socket_patience = λ s. omega arith;
  connect_patience = λ fd path s. omega arith;
}

pty_client-Serves_example :
    Serves wire_io wire_waiting wire_traffic 5000 console console_obeys dialing raw cooked
      (codes "c1")
      start
      cooked
      (pty_client wire_io wire_waiting 5000 console dialing raw cooked 2
        (codes "c1")
        (start, cooked))
pty_client-Serves_example =
    pty_client-Serves wire_io wire_waiting wire_traffic 5000 console console_obeys dialing raw
      cooked dialing_dials 2 (codes "c1") start cooked (omega arith)

-- The child is process 7, and its terminal's master is descriptor 5.
abbrev forking : Ending wire_io
forking = record {
  wait = λ s. (7, s);
  dump_std_out = λ s. (true, s);
  pty_fork = λ s. (returns (parent 7 5 none), s);
}

abbrev master_of : Result Forked → ℕ
master_of (returns (parent pid mfd name)) = mfd
master_of (returns child) = 0
master_of fails = 0
master_of (exits n) = 0

master_is_five :
    (pid mfd : ℕ) (name : Option Text) (o : Wires)
    → forking.pty_fork start ≡ (returns (parent pid mfd name), o)
    → 5 ≡ mfd
master_is_five pid mfd name o e = ap (λ x. master_of x.0) e

pty_exec-Executes_example :
    Executes wire_io wire_waiting wire_traffic 5000 console console_obeys forking false true true
      true
      (codes "ls" ∷ [])
      start
      cooked
      (pty_exec wire_io wire_waiting 5000 console forking false true true true
        (codes "ls" ∷ [])
        cooked
        2
        start
        cooked)
pty_exec-Executes_example =
    pty_exec-Executes wire_io wire_waiting wire_traffic 5000 console console_obeys forking false
      true true true (codes "ls" ∷ []) cooked 2 start cooked
      (λ pid mfd name o e.
        let q = master_is_five pid mfd name o e in
        (λ h. absurd (omega (arith, q, h)), λ h. absurd (omega (arith, q, h)), refl))
      (omega arith)
