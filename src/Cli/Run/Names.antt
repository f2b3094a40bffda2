-- ===== src/Cli/Run/Names.antt =====
-- cli/container_run_cli.cpp: the names of containers, and their commands when they are started again.
use hoststack.Prelude.{
  ◌≡◌, refl, sym, ap, ◌∙◌, ◌⊎◌, inl, inr, Bool, true, false, Option, none, some, List, [], ◌∷◌,
  ◌++◌, All, ℤ, IsInt, arith, Bool-cases,
}
use hoststack.Prelude.First.{find_first}
use hoststack.Prelude.Text.{Text, text_eq, text_eq_refl, text_eq_sym}
use hoststack.Outcome.{ok}
use hoststack.Info.{ContainerInfo, is_empty}
use hoststack.Info.Volumes.{IsVolumeSet}
use hoststack.Json.{Json}
use hoststack.Strings.Trim.{blanks}
use hoststack.Strings.Split.{str_split}
use hoststack.Strings.Split.RoundTrip.{IsWord, str_split-array_join}
use hoststack.Dao.{DataFile, insert, get_container_by_id}
use hoststack.Dao.Records.{IsStorable, stored}
use hoststack.Dao.Loops.{registry, IsReadable}
use hoststack.Dao.Registry.{
  has_id, has_name, registry-insert, get_container_by_id-eq-find, get_container_by_name-eq-find,
}
use hoststack.Cli.Run.{RunArg, run_info, name_text, name_exists, run_started, is_taken}

-- No later container has the name.
abbrev pub IsFree : Text → List ContainerInfo → Type 0
IsFree name cs = (is_empty name ≡ true) ⊎ (find_first (has_name name) cs ≡ none)

-- Containers without a name apart, no two have the same.
abbrev pub UniqueNames : List ContainerInfo → Type 0
UniqueNames [] = Unit
UniqueNames (c ∷ cs) = IsFree c.name cs × UniqueNames cs

not_empty : (s t : Text) → is_empty s ≡ true → is_empty t ≡ false → text_eq s t ≡ false
unfolding text_eq
not_empty [] [] e f = cc
not_empty [] (y ∷ t) e f = refl
not_empty (x ∷ s) t e f = cc

find-end :
    (P : ContainerInfo → Bool) (cs : List ContainerInfo) (c : ContainerInfo)
    → find_first P cs ≡ none
    → P c ≡ false
    → find_first P (cs ++ c ∷ []) ≡ none
find-end P [] c h e = rw e refl
find-end P (x ∷ cs) c h e = elim (Bool-cases (P x)) [
  | inl f ↦ ground arith
  | inr f ↦ rw f (find-end P cs c (rw f at h) e)
]

find-later :
    (P : ContainerInfo → Bool) (x : ContainerInfo) (cs : List ContainerInfo)
    → find_first P (x ∷ cs) ≡ none
    → (P x ≡ false) × (find_first P cs ≡ none)
find-later P x cs h = elim (Bool-cases (P x)) [ inl e ↦ cc (rw e at h) | inr e ↦ (e, rw e at h) ]

still-IsFree :
    (x c : ContainerInfo) (cs : List ContainerInfo)
    → IsFree x.name cs
    → IsFree c.name (x ∷ cs)
    → IsFree x.name (cs ++ c ∷ [])
still-IsFree x c cs (inl e) f = inl e
still-IsFree x c cs (inr h) (inr f) = inr (
    find-end (has_name x.name) cs c h
      (text_eq_sym x.name c.name (find-later (has_name c.name) x cs f).0))
still-IsFree x c cs (inr h) (inl e) = elim (Bool-cases (is_empty x.name)) [
  | inl f ↦ inl f
  | inr f ↦ inr (find-end (has_name x.name) cs c h (not_empty c.name x.name e f))
]

IsFree-later :
    (n : Text) (x : ContainerInfo) (cs : List ContainerInfo) → IsFree n (x ∷ cs) → IsFree n cs
IsFree-later n x cs (inl e) = inl e
IsFree-later n x cs (inr f) = inr (find-later (has_name n) x cs f).1

find-last :
    (P : ContainerInfo → Bool) (cs : List ContainerInfo) (c : ContainerInfo)
    → find_first P cs ≡ none
    → P c ≡ true
    → find_first P (cs ++ c ∷ []) ≡ some c
find-last P [] c h e = rw e refl
find-last P (x ∷ cs) c h e = let (f, g) = find-later P x cs h in rw f (find-last P cs c g e)

UniqueNames-end :
    (cs : List ContainerInfo) (c : ContainerInfo)
    → UniqueNames cs
    → IsFree c.name cs
    → UniqueNames (cs ++ c ∷ [])
UniqueNames-end [] c u f = (inr refl, tt)
UniqueNames-end (x ∷ cs) c (h, u) f =
    (still-IsFree x c cs h f, UniqueNames-end cs c u (IsFree-later c.name x cs f))

module _ (json : Json) where
  not_taken : (o : Option ContainerInfo) → is_taken json o ≡ false → o ≡ none
  not_taken none e = refl
  not_taken (some c) e = cc

  IsFree-name :
      (name : Option Text) (file : DataFile json)
      → name_exists json name file ≡ false
      → IsFree (name_text name) (registry json file)
  unfolding name_exists
  IsFree-name none file e = inl refl
  IsFree-name (some n) file e =
      inr (sym (get_container_by_name-eq-find json n file) ∙ not_taken _ e)

  -- A saved container has the words of its command, its name and its volumes.
  module _ (id : Text) (opt : RunArg) (arg : Text) (args : List Text) (pid now : ℤ)
      (file : DataFile json) where
    -- A container that is run under a name that no container has, with arguments that are words, is
    -- saved; where the names in the file were unique, they still are. The file is missing or can be
    -- read, and the process identifier fits an int.
    pub run_started-UniqueNames :
        All (IsWord blanks) (arg ∷ args)
        → IsReadable json file
        → IsInt pid
        → IsVolumeSet opt.volume_list
        → name_exists json opt.name file ≡ false
        → UniqueNames (registry json file)
        → (file' : DataFile json) × (run_started json id opt (arg ∷ args) pid now file ≡ ok file')
          × UniqueNames (registry json file')
    unfolding run_started
    run_started-UniqueNames words readable p v free unique =
        let (s, e, b) = str_split-array_join arg args words in
        let info = run_info id opt s pid now in
        let storable : IsStorable info = record {
          pid_IsInt = p;
          status_IsInt = omega arith;
          abnormal_IsInt = omega arith;
          volumes = v;
        } in
        (
          insert json info file,
          rw e refl,
          rw (registry-insert json info file readable storable) (
              UniqueNames-end (registry json file) (stored info) unique
                (IsFree-name opt.name file free)),
        )

    -- A container that is run under a new identifier, with arguments that are words, is found in the
    -- file by it, with its volumes, and its command splits into the arguments again, as a later start
    -- splits it. The file is missing or can be read, and the process identifier fits an int.
    pub run_started-Restartable :
        All (IsWord blanks) (arg ∷ args)
        → IsReadable json file
        → IsInt pid
        → IsVolumeSet opt.volume_list
        → find_first (has_id id) (registry json file) ≡ none
        → (file' : DataFile json) × (c : ContainerInfo) × (run_started json id opt
              (arg ∷ args)
              pid
              now
              file
            ≡ ok file')
          × (get_container_by_id json id file' ≡ some c)
          × (str_split (some c.command) blanks ≡ some (some (arg ∷ args)))
          × (c.volume_list ≡ opt.volume_list)
    unfolding run_started
    run_started-Restartable words readable p v fresh =
        let (s, e, b) = str_split-array_join arg args words in
        let info = run_info id opt s pid now in
        let storable : IsStorable info = record {
          pid_IsInt = p;
          status_IsInt = omega arith;
          abnormal_IsInt = omega arith;
          volumes = v;
        } in
        (
          insert json info file,
          stored info,
          rw e refl,
          get_container_by_id-eq-find json id (insert json info file)
              ∙ ap (find_first (has_id id)) (registry-insert json info file readable storable)
              ∙ find-last (has_id id) (registry json file) (stored info) fresh (text_eq_refl id),
          b,
          refl,
        )
