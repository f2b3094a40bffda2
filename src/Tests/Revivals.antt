-- ===== src/Tests/Revivals.antt =====
-- hoststack_supervisor.cpp on a container that has lost its process.
use hoststack.Prelude.{subst, ap, ◌∙◌, ◌≡◌, refl, none, some, [], ◌∷◌, true, pos, arith, inl}
use hoststack.Prelude.First.{find_first}
use hoststack.Prelude.Text.{codes, text_eq}
use hoststack.Outcome.{Outcome, ok, exits, undefined}
use hoststack.Info.{ContainerInfo}
use hoststack.Libc.{strtok, after_span, after_word, word, strchr}
use hoststack.Json.Tree.{tree_json}
use hoststack.Strings.Trim.{blanks}
use hoststack.Strings.Split.{str_split}
use hoststack.Dao.{insert}
use hoststack.Dao.Loops.{registry}
use hoststack.Dao.Registry.{has_id, has_id_or_name, registry-insert}
use hoststack.Service.Table.{one_process}
use hoststack.Cli.{World}
use hoststack.Supervisor.{supervise, is_dead, run_checkandrestart}
use hoststack.Supervisor.Threads.{Reach, round, look, here, next}
use hoststack.Supervisor.Threads.Starts.{Asks, Reach-Asks}
use hoststack.Supervisor.Revives.{Revives, run_checkandrestart-Revives}
use hoststack.Dao.Records.{stored}
use hoststack.Supervisor.Restarts.{restarts, supervise-restarts}
use hoststack.Tests.Commands.{web}

-- A container whose process is gone, as the file keeps it.
abbrev lost : ContainerInfo
lost = stored (record web { pid = pos 40 })

abbrev lost_world : World tree_json one_process
lost_world = record { host = record { file = insert tree_json lost none; state = [] }; calls = [] }

lost_saved : registry tree_json lost_world.host.file ≡ lost ∷ []
lost_saved = registry-insert tree_json lost none (inl refl) (record {
  pid_IsInt = omega arith;
  status_IsInt = omega arith;
  abnormal_IsInt = omega arith;
  volumes = tt;
})

lost_first :
    (find_first (has_id (codes "id-1")) (lost ∷ []) ≡ some lost)
    × (find_first (has_id_or_name (codes "id-1")) (lost ∷ []) ≡ some lost)
unfolding text_eq
lost_first = (refl, refl)

lost_command :
    str_split (some (codes "bash -l")) blanks ≡ some (some (codes "bash" ∷ codes "-l" ∷ []))
unfolding str_split strtok after_span strchr after_word word
lost_command = refl

lost-Revives :
    Revives tree_json one_process
      (is_dead tree_json one_process [] lost)
      lost
      (codes "bash" ∷ codes "-l" ∷ [])
      lost_world
      (run_checkandrestart tree_json one_process (codes "id-1") lost_world)
lost-Revives =
    run_checkandrestart-Revives tree_json one_process lost (codes "bash" ∷ codes "-l" ∷ [])
      lost_world (ap (find_first (has_id (codes "id-1"))) lost_saved ∙ lost_first.0)
      (ap (find_first (has_id_or_name (codes "id-1"))) lost_saved ∙ lost_first.1) lost_command

run_checkandrestart-Revives_example :
    Revives tree_json one_process
      (is_dead tree_json one_process [] lost)
      lost
      (codes "bash" ∷ codes "-l" ∷ [])
      lost_world
      (run_checkandrestart tree_json one_process (codes "id-1") lost_world)
run_checkandrestart-Revives_example =
    run_checkandrestart-Revives tree_json one_process lost (codes "bash" ∷ codes "-l" ∷ [])
      lost_world (ap (find_first (has_id (codes "id-1"))) lost_saved ∙ lost_first.0)
      (ap (find_first (has_id_or_name (codes "id-1"))) lost_saved ∙ lost_first.1) lost_command

supervise-restarts_example :
    supervise tree_json one_process lost_world
    ≡ restarts tree_json one_process [] (registry tree_json lost_world.host.file)
supervise-restarts_example = supervise-restarts tree_json one_process lost_world

-- A round creates a thread for the lost container, and the thread asks for its start.
lost_round : supervise tree_json one_process lost_world ≡ ok (codes "id-1" ∷ [])
lost_round =
    supervise-restarts tree_json one_process lost_world
    ∙ ap (restarts tree_json one_process []) lost_saved

lost-is_dead : is_dead tree_json one_process [] lost ≡ true
unfolding is_dead
lost-is_dead = refl

goes_on :
    (o : Outcome (World tree_json one_process))
    → Revives tree_json one_process true lost (codes "bash" ∷ codes "-l" ∷ []) lost_world o
    → (v : World tree_json one_process) × (o ≡ ok v)
goes_on (ok v) h = (v, refl)
goes_on (exits n v) h = absurd h
goes_on undefined h = absurd h

woken :
    (v : World tree_json one_process) × (run_checkandrestart tree_json one_process
        (codes "id-1")
        lost_world
      ≡ ok v)
woken = goes_on (run_checkandrestart tree_json one_process (codes "id-1") lost_world) (
    subst
      (λ b.
        Revives tree_json one_process b lost (codes "bash" ∷ codes "-l" ∷ []) lost_world
          (run_checkandrestart tree_json one_process (codes "id-1") lost_world))
      lost-is_dead lost-Revives)

abbrev supervised :
    Reach tree_json one_process
      (record { world = lost_world; threads = []; created = [] })
      (record { world = woken.0; threads = []; created = codes "id-1" ∷ [] })
supervised =
    next (next here (round lost_world [] [] (codes "id-1" ∷ []) lost_round))
      (look lost_world woken.0 [] [] (codes "id-1" ∷ []) (codes "id-1") woken.1)

Reach-Asks_example :
    Asks tree_json one_process
      (record { world = woken.0; threads = []; created = codes "id-1" ∷ [] })
Reach-Asks_example = Reach-Asks tree_json one_process supervised (tt, omega arith)
