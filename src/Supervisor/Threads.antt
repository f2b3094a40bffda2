-- ===== src/Supervisor/Threads.antt =====
-- hoststack_supervisor.cpp: the rounds of main and the threads that they create, as interleaved steps.
pub mod Starts
use hoststack.Prelude.{◌≡◌, List, [], ◌∷◌, ◌++◌}
use hoststack.Prelude.Text.{Text}
use hoststack.Outcome.{ok}
use hoststack.Json.{Json}
use hoststack.Service.{Processes, Host}
use hoststack.Cli.{World}
use hoststack.Supervisor.{supervise, run_checkandrestart}

module _ (json : Json) (procs : Processes) where
  -- The world, the identifiers of the threads that have not looked yet, and those of all threads so far.
  pub record Supervision : Type 0 where
    pub world : World json procs
    pub threads : List Text
    pub created : List Text

  -- Before and after the body of its loop, main sleeps, and a thread before it looks. Meanwhile other
  -- programs change the data file and the processes.
  pub data Step : Supervision → Supervision → Type 0 where
    round :
        (w : World json procs) (ts all ids : List Text)
        → supervise json procs w ≡ ok ids
        → Step
            (record { world = w; threads = ts; created = all })
            (record { world = w; threads = ts ++ ids; created = all ++ ids })
    look :
        (w v : World json procs) (before after all : List Text) (id : Text)
        → run_checkandrestart json procs id w ≡ ok v
        → Step
            (record { world = w; threads = before ++ id ∷ after; created = all })
            (record { world = v; threads = before ++ after; created = all })
    elsewhere :
        (w : World json procs) (ts all : List Text) (h : Host json procs)
        → Step
            (record { world = w; threads = ts; created = all })
            (record { world = record w { host = h }; threads = ts; created = all })

  pub data Reach (s : Supervision) : Supervision → Type 0 where
    here : Reach s s
    next : {t u : Supervision} → Reach s t → Step t u → Reach s u
