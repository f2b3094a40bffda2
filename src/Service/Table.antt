-- ===== src/Service/Table.antt =====
-- An instance of the interface: process 41 lives, signals are delivered, and directories go.
use hoststack.Prelude.{same_some, ◌≡◌, refl, sym, true, some, List, [], ◌∷◌, ◌++◌, ℤ, pos, int_eq}
use hoststack.Service.{Processes, Signal}

abbrev pub Sent : Type 0
Sent = List (Signal × ℤ)

pub last_sent :
    (g : Signal) (pid : ℤ) (s t : Sent)
    → some (s ++ (g, pid) ∷ []) ≡ some t
    → t ≡ s ++ (g, pid) ∷ []
last_sent g pid s t e = sym (same_some e)

abbrev pub one_process : Processes
one_process = record {
  State = Sent;
  now = λ s. pos 1700000100;
  alive = λ pid s. int_eq pid (pos 41);
  kill = λ g pid s. some (s ++ (g, pid) ∷ []);
  sleep = λ n s. s;
  remove = λ path s. (true, s);
  sent = λ s. s;
  sent-kill = last_sent;
  sent-sleep = λ n s. refl;
  sent-remove = λ path s. refl;
}
