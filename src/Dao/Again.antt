-- ===== src/Dao/Again.antt =====
-- util/container_dao.cpp: a second search for the same container, after the correction of the first.
use hoststack.Prelude.{◌≡◌, refl, ap, inl, inr, List, [], ◌∷◌, Bool-cases, int_eq, not, ◌&&◌}
use hoststack.Prelude.First.{map_first}
use hoststack.Prelude.Text.{Text}
use hoststack.Info.{ContainerInfo, container_running}
use hoststack.Dao.{Env}
use hoststack.Dao.Registry.{has_id_or_name, heal}

heal_matches :
    (env : Env) (value : Text) (c : ContainerInfo)
    → has_id_or_name value (heal env c) ≡ has_id_or_name value c
heal_matches env value c =
    elim (Bool-cases (int_eq c.status container_running && not (env.alive c.pid))) [
      | inl e ↦ rw e refl
      | inr e ↦ rw e refl
    ]

heal-heal : (env : Env) (c : ContainerInfo) → heal env (heal env c) ≡ heal env c
heal-heal env c = elim (Bool-cases (int_eq c.status container_running && not (env.alive c.pid))) [
  | inl e ↦ rw e refl
  | inr e ↦ rw e (rw e refl)
]

-- Nothing is left to correct.
pub heal_again :
    (env : Env) (value : Text) (cs : List ContainerInfo)
    → map_first (has_id_or_name value) (heal env) (map_first (has_id_or_name value) (heal env) cs)
      ≡ map_first (has_id_or_name value) (heal env) cs
heal_again env value [] = refl
heal_again env value (c ∷ cs) = elim (Bool-cases (has_id_or_name value c)) [
  | inl e ↦ rw e (rw (heal_matches env value c, e, heal-heal env c) refl)
  | inr e ↦ rw e (rw e (ap (◌∷◌ c) (heal_again env value cs)))
]
