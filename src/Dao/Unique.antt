-- ===== src/Dao/Unique.antt =====
-- util/container_dao.cpp: the identifiers of containers under sequences of ContainerDao's
-- operations.
use mathlib.Core.Option
use hoststack.Prelude.{
  not, ◌&&◌, int_eq, ◌≡◌, refl, sym, ap, ◌∙◌, subst, inl, inr, Bool, true, false, Option, none,
  some, List, [], ◌∷◌, ◌++◌, All, Bool-cases, same_some, no_some,
}
use hoststack.Prelude.First.{find_first, map_first, reject}
use hoststack.Prelude.Text.{Text, text_eq, text_eq→eq, text_eq_sym}
use hoststack.Info.{ContainerInfo, container_running}
use hoststack.Json.{Json}
use hoststack.Dao.{
  Env, DataFile, insert, update, get_container_by_id_or_name, delete_by_id, change_status_to_stop,
}
use hoststack.Dao.Records.{IsStorable, stored}
use hoststack.Dao.Loops.{registry, IsReadable}
use hoststack.Dao.Registry.{
  has_id, has_id_or_name, heal, registry-insert, get_container_by_id_or_name-Healed,
}
use hoststack.Dao.Update.{registry-update}
use hoststack.Dao.Delete.{deleted, registry-delete_by_id}
use hoststack.Dao.Stop.{stoped, stoped_in, registry-change_status_to_stop}

abbrev pub ids : List ContainerInfo → List Text
ids [] = []
ids (c ∷ cs) = c.id ∷ ids cs

abbrev pub IsNew : Text → List Text → Type 0
IsNew x ys = All (λ y. text_eq x y ≡ false) ys

abbrev pub Distinct : List Text → Type 0
Distinct [] = Unit
Distinct (x ∷ xs) = IsNew x xs × Distinct xs

-- A change that keeps identifiers.
ids-map_first :
    (P : ContainerInfo → Bool) (f : ContainerInfo → ContainerInfo) (cs : List ContainerInfo)
    → ((c : ContainerInfo) → P c ≡ true → (f c).id ≡ c.id)
    → ids (map_first P f cs) ≡ ids cs
ids-map_first P f [] k = refl
ids-map_first P f (c ∷ cs) k = elim (Bool-cases (P c)) [
  | inl e ↦ rw e (ap (λ x. x ∷ ids cs) (k c e))
  | inr e ↦ rw e (ap (◌∷◌ c.id) (ids-map_first P f cs k))
]

IsNew-reject :
    (P : ContainerInfo → Bool) (x : Text) (cs : List ContainerInfo)
    → IsNew x (ids cs)
    → IsNew x (ids (reject P cs))
IsNew-reject P x [] n = tt
IsNew-reject P x (c ∷ cs) n = elim (Bool-cases (P c)) [
  | inl e ↦ rw e (IsNew-reject P x cs n.1)
  | inr e ↦ rw e (n.0, IsNew-reject P x cs n.1)
]

Distinct-reject :
    (P : ContainerInfo → Bool) (cs : List ContainerInfo)
    → Distinct (ids cs)
    → Distinct (ids (reject P cs))
Distinct-reject P [] d = tt
Distinct-reject P (c ∷ cs) d = elim (Bool-cases (P c)) [
  | inl e ↦ rw e (Distinct-reject P cs d.1)
  | inr e ↦ rw e (IsNew-reject P c.id cs d.0, Distinct-reject P cs d.1)
]

IsNew-end :
    (x : Text) (cs : List ContainerInfo) (c : ContainerInfo)
    → IsNew x (ids cs)
    → text_eq x c.id ≡ false
    → IsNew x (ids (cs ++ c ∷ []))
IsNew-end x [] c n e = (e, tt)
IsNew-end x (d ∷ cs) c n e = (n.0, IsNew-end x cs c n.1 e)

Distinct-end :
    (cs : List ContainerInfo) (c : ContainerInfo)
    → Distinct (ids cs)
    → IsNew c.id (ids cs)
    → Distinct (ids (cs ++ c ∷ []))
Distinct-end [] c d n = (tt, tt)
Distinct-end (x ∷ cs) c d n =
    (IsNew-end x.id cs c d.0 (text_eq_sym c.id x.id n.0), Distinct-end cs c d.1 n.1)

heal_id : (env : Env) (c : ContainerInfo) → (heal env c).id ≡ c.id
heal_id env c = elim (Bool-cases (int_eq c.status container_running && not (env.alive c.pid))) [
  | inl e ↦ rw e refl
  | inr e ↦ rw e refl
]

-- One record overwritten by another with the same identifier.
ids-overwrite :
    (c d : ContainerInfo) (cs : List ContainerInfo)
    → d.id ≡ c.id
    → ids (map_first (has_id c.id) (λ _. d) cs) ≡ ids cs
ids-overwrite c d cs e =
    ids-map_first (has_id c.id) (λ _. d) cs (λ x h. e ∙ sym (text_eq→eq x.id c.id h))

ids-deleted :
    (value : Text) (cs ds : List ContainerInfo)
    → deleted value cs ≡ some ds
    → Distinct (ids cs)
    → Distinct (ids ds)
ids-deleted value [] ds e d = rw (← same_some e) tt
ids-deleted value (c ∷ cs) ds e d = go (find_first (has_id_or_name value) (c ∷ cs)) e
  where
    go :
        (o : Option ContainerInfo)
        → (elim o [ none ↦ none | some found ↦ some (reject (has_id found.id) (c ∷ cs)) ]) ≡ some ds
        → Distinct (ids ds)
    go none f = absurd (no_some f)
    go (some found) f =
        subst (λ x. Distinct (ids x)) (same_some f) (Distinct-reject (has_id found.id) (c ∷ cs) d)

ids-stoped_in :
    (env : Env) (value : Text) (cs ds : List ContainerInfo)
    → stoped_in env value cs ≡ some ds
    → ids ds ≡ ids cs
ids-stoped_in env value cs ds e = go (find_first (has_id_or_name value) cs) e
  where
    go :
        (o : Option ContainerInfo)
        → (elim o [
          | none ↦ none
          | some c ↦ some (map_first (has_id c.id) (λ _. stored (stoped env c)) cs)
        ])
          ≡ some ds
        → ids ds ≡ ids cs
    go none f = absurd (no_some f)
    go (some c) f =
        subst (λ x. ids x ≡ ids cs) (same_some f) (ids-overwrite c (stored (stoped env c)) cs refl)

module _ (json : Json) where
  -- The operations that write the data file, each at a time of its own. A new container has a new
  -- identifier, as gen_id gives.
  pub data Write : DataFile json → DataFile json → Type 0 where
    inserts :
        (info : ContainerInfo) (file : DataFile json)
        → IsReadable json file
        → IsStorable info
        → IsNew info.id (ids (registry json file))
        → Write file (insert json info file)
    updates :
        (info : ContainerInfo) (file : DataFile json)
        → IsReadable json file
        → IsStorable info
        → Write file (update json info file)
    searches :
        (env : Env) (value : Text) (file : DataFile json)
        → Write file (get_container_by_id_or_name json env value file).1
    deletes :
        (env : Env) (value : Text) (file file' : DataFile json)
        → delete_by_id json env value file ≡ some file'
        → Write file file'
    stops :
        (env : Env) (value : Text) (file file' : DataFile json)
        → change_status_to_stop json env value file ≡ some file'
        → Write file file'

  pub data Writes (file : DataFile json) : DataFile json → Type 0 where
    none_yet : Writes file file
    then_one :
        {file1 file2 : DataFile json} → Writes file file1 → Write file1 file2 → Writes file file2

  abbrev pub UniqueIds : DataFile json → Type 0
  UniqueIds file = Distinct (ids (registry json file))

  ids-searched :
      (env : Env) (value : Text) (cs : List ContainerInfo)
      → ids (map_first (has_id_or_name value) (heal env) cs) ≡ ids cs
  ids-searched env value cs =
      ids-map_first (has_id_or_name value) (heal env) cs (λ c h. heal_id env c)

  Write-UniqueIds : {f g : DataFile json} → Write f g → UniqueIds f → UniqueIds g
  Write-UniqueIds (inserts info file r s n) u =
      rw (registry-insert json info file r s) (Distinct-end (registry json file) (stored info) u n)
  Write-UniqueIds (updates info file r s) u =
      rw (registry-update json info file r s)
        (rw (ids-overwrite info (stored info) (registry json file) refl) u)
  Write-UniqueIds (searches env value file) u =
      subst (λ cs. Distinct (ids cs))
        (sym (get_container_by_id_or_name-Healed json env value file).1)
        (rw (ids-searched env value (registry json file)) u)
  Write-UniqueIds (deletes env value file file' e) u =
      ids-deleted value _ (registry json file')
        (sym (registry-delete_by_id json env value file) ∙ ap (Option.map (registry json)) e)
        (rw (ids-searched env value (registry json file)) u)
  Write-UniqueIds (stops env value file file' e) u =
      rw
        (ids-stoped_in env value _ (registry json file') (
          sym (registry-change_status_to_stop json env value file)
          ∙ ap (Option.map (registry json)) e))
        (rw (ids-searched env value (registry json file)) u)

  -- Whatever sequence of insert, update, searches, delete_by_id and change_status_to_stop is run on
  -- the data file, identifiers stay unique, if each new container has a new one, and insert and
  -- update are given containers that a record can hold, on a file that is missing or can be read.
  pub Writes-UniqueIds :
      {file file' : DataFile json} → Writes file file' → UniqueIds file → UniqueIds file'
  Writes-UniqueIds none_yet u = u
  Writes-UniqueIds (then_one w s) u = Write-UniqueIds s (Writes-UniqueIds w u)
