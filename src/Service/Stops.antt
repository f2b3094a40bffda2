-- ===== src/Service/Stops.antt =====
-- util/container_service.cpp: which signals stop sends.
use mathlib.Core.List.{append-nil, append_assoc}
use hoststack.Prelude.{
  ◌≡◌, refl, sym, ap, ◌∙◌, ◌⊎◌, inl, inr, Bool, true, false, Option, none, some, List, [], ◌∷◌,
  ◌++◌, Bool-cases, int_eq, ℤ, if◌then◌else◌, subst,
}
use hoststack.Prelude.First.{find_first, map_first}
use hoststack.Prelude.Text.{Text}
use hoststack.Info.{ContainerInfo, container_running}
use hoststack.Json.{Json}
use hoststack.Dao.{get_container_by_id_or_name}
use hoststack.Dao.Loops.{registry}
use hoststack.Dao.Registry.{has_id_or_name, heal, get_container_by_id_or_name-Healed}
use hoststack.Service.{
  Processes, Host, Signal, sigterm, sigkill, env_of, kill_or_log, terminate, stop_found, stop,
}

module _ (json : Json) (procs : Processes) where
  -- No signal, SIGTERM alone, or SIGTERM and SIGKILL.
  abbrev pub SignalsTo : ℤ → List (Signal × ℤ) → Type 0
  SignalsTo pid gs =
      (gs ≡ []) ⊎ ((gs ≡ (sigterm, pid) ∷ []) ⊎ (gs ≡ (sigterm, pid) ∷ (sigkill, pid) ∷ []))

  kill_again :
      (pid : ℤ) (t : procs.State)
      → let u = (kill_or_log json procs sigkill pid t).1 in
        (procs.sent u ≡ procs.sent t) ⊎ (procs.sent u ≡ procs.sent t ++ (sigkill, pid) ∷ [])
  kill_again pid t = go (procs.kill sigkill pid t) refl
    where
      go :
          (o : Option procs.State)
          → procs.kill sigkill pid t ≡ o
          → let u =
              (elim o as (λ _. Bool × procs.State) [ none ↦ (false, t) | some v ↦ (true, v) ]).1 in
            (procs.sent u ≡ procs.sent t) ⊎ (procs.sent u ≡ procs.sent t ++ (sigkill, pid) ∷ [])
      go none e = inl refl
      go (some v) e = inr (procs.sent-kill sigkill pid t v e)

  terminate-SignalsTo :
      (pid : ℤ) (s : procs.State)
      → (gs : List (Signal × ℤ)) × SignalsTo pid gs
        × (procs.sent (terminate json procs pid s) ≡ procs.sent s ++ gs)
  unfolding terminate
  terminate-SignalsTo pid s = go (procs.kill sigterm pid s) refl
    where
      go :
          (o : Option procs.State)
          → procs.kill sigterm pid s ≡ o
          → (gs : List (Signal × ℤ)) × SignalsTo pid gs
            × (procs.sent (
                  let (ok, t) = elim o as (λ _. Bool × procs.State) [
                    | none ↦ (false, s)
                    | some t ↦ (true, t)
                  ] in
                  let u = (kill_or_log json procs sigkill pid (procs.sleep 3 t)).1 in
                  if ok then u else t)
                ≡ procs.sent s ++ gs)
      go none e = ([], inl refl, sym (append-nil (procs.sent s)))
      go (some t) e =
          let m = procs.sent-sleep 3 t ∙ procs.sent-kill sigterm pid s t e in
          elim (kill_again pid (procs.sleep 3 t)) [
            | inl k ↦ ((sigterm, pid) ∷ [], inr (inl refl), k ∙ m)
            | inr k ↦ (
              (sigterm, pid) ∷ (sigkill, pid) ∷ [],
              inr (inr refl),
              k
                  ∙ ap (λ gs. gs ++ (sigkill, pid) ∷ []) m
                  ∙ append_assoc (procs.sent s) ((sigterm, pid) ∷ []) ((sigkill, pid) ∷ []),
            )
          ]

  -- What stop does, by the container that its search finds.
  abbrev pub Stops : Option ContainerInfo → procs.State → procs.State → Type 0
  Stops none s t = t ≡ s
  Stops (some c) s t =
      ((int_eq c.status container_running ≡ false) × (t ≡ s))
      ⊎ ((int_eq c.status container_running ≡ true)
          × ((gs : List (Signal × ℤ)) × SignalsTo c.pid gs × (procs.sent t ≡ procs.sent s ++ gs)))

  stop_found-Stops :
      (info : Option ContainerInfo) (h : Host json procs)
      → Stops info h.state (stop_found json procs info h).state
  unfolding stop_found
  stop_found-Stops none h = refl
  stop_found-Stops (some c) h = elim (Bool-cases (int_eq c.status container_running)) [
    | inl e ↦ rw e (inr (refl, terminate-SignalsTo c.pid h.state))
    | inr e ↦ rw e (inl (refl, refl))
  ]

  stop_found-file :
      (info : Option ContainerInfo) (h : Host json procs)
      → (stop_found json procs info h).file ≡ h.file
  unfolding stop_found
  stop_found-file none h = refl
  stop_found-file (some c) h = elim (Bool-cases (int_eq c.status container_running)) [
    | inl e ↦ rw e refl
    | inr e ↦ rw e refl
  ]

  -- stop sends signals only to the first container with the id or name, if it is running and its
  -- process exists: SIGTERM first, and SIGKILL only after a SIGTERM that was sent; in the file it
  -- changes nothing beyond the correction that the search makes.
  pub stop-Stops :
      (name : Text) (h : Host json procs)
      → let cs =
          map_first
            (has_id_or_name name)
            (heal (env_of json procs h.state))
            (registry json h.file) in
        Stops (find_first (has_id_or_name name) cs) h.state (stop json procs name h).state
        × (registry json (stop json procs name h).file ≡ cs)
  unfolding stop
  stop-Stops name h =
      let (found, kept) =
        get_container_by_id_or_name-Healed json (env_of json procs h.state) name h.file in
      let (info, file) = get_container_by_id_or_name json (env_of json procs h.state) name h.file in
      let h' = record h { file = file } in
      (
        subst (λ o. Stops o h.state (stop_found json procs info h').state) found
            (stop_found-Stops info h'),
        ap (registry json) (stop_found-file info h') ∙ kept,
      )
