-- ===== src/Supervisor/Restarts.antt =====
-- hoststack_supervisor.cpp: the containers that a round restarts, against the data file.
use hoststack.Prelude.{
  ◌≡◌, refl, ap, ◌∙◌, none, some, List, [], ◌∷◌, true, false, Bool, not, ◌&&◌, if◌then◌else◌,
  int_eq, pos,
}
use hoststack.Prelude.Text.{Text}
use hoststack.Outcome.{Outcome, ok, undefined}
use hoststack.Info.{ContainerInfo}
use hoststack.Json.{Json}
use hoststack.Dao.Delete.{listed, list-registry}
use hoststack.Dao.Loops.{registry}
use hoststack.Service.{Processes}
use hoststack.Cli.{World}
use hoststack.Supervisor.{dead_ids, supervise}

-- One that lives, or does not say running, is passed over.
abbrev pub add_lost : (alive running : Bool) → Text → List Text → List Text
add_lost true running id rest = rest
add_lost false true id rest = id ∷ rest
add_lost false false id rest = rest

add_lost_lem :
    (alive running : Bool) (id : Text) (rest : List Text)
    → (if running && not alive then id ∷ rest else rest) ≡ add_lost alive running id rest
add_lost_lem true true id rest = refl
add_lost_lem true false id rest = refl
add_lost_lem false true id rest = refl
add_lost_lem false false id rest = refl

module _ (json : Json) (procs : Processes) where
  -- The identifiers of the containers that say running, status 0, and have no process.
  abbrev pub lost_ids : procs.State → List ContainerInfo → List Text
  lost_ids s [] = []
  lost_ids s (c ∷ cs) =
      add_lost (procs.alive c.pid s) (int_eq c.status (pos 0)) c.id (lost_ids s cs)

  dead_ids-eq-lost_ids :
      (s : procs.State) (cs : List ContainerInfo) → dead_ids json procs s cs ≡ lost_ids s cs
  dead_ids-eq-lost_ids s [] = refl
  dead_ids-eq-lost_ids s (c ∷ cs) =
      add_lost_lem (procs.alive c.pid s) (int_eq c.status (pos 0)) c.id (dead_ids json procs s cs)
      ∙ ap (add_lost (procs.alive c.pid s) (int_eq c.status (pos 0)) c.id)
          (dead_ids-eq-lost_ids s cs)

  -- What a round does about the containers of the file.
  abbrev pub restarts : procs.State → List ContainerInfo → Outcome (List Text)
  restarts s [] = undefined
  restarts s (c ∷ cs) = ok (lost_ids s (c ∷ cs))

  -- A round of the supervisor starts a thread for exactly those containers of the data file whose
  -- status is running, 0, and which have no process, in their order; where the file holds no container, it dereferences
  -- a null pointer.
  pub supervise-restarts :
      (w : World json procs)
      → supervise json procs w ≡ restarts w.host.state (registry json w.host.file)
  unfolding supervise
  supervise-restarts w =
      ap
        (λ o. elim o as (λ _. Outcome (List Text)) [
          | none ↦ undefined
          | some infos ↦ ok (dead_ids json procs w.host.state infos)
        ])
        (list-registry json w.host.file)
      ∙ go (registry json w.host.file)
    where
      go :
          (cs : List ContainerInfo)
          → (elim (listed cs) as (λ _. Outcome (List Text)) [
            | none ↦ undefined
            | some infos ↦ ok (dead_ids json procs w.host.state infos)
          ])
            ≡ restarts w.host.state cs
      go [] = refl
      go (c ∷ cs) = ap ok (dead_ids-eq-lost_ids w.host.state (c ∷ cs))
