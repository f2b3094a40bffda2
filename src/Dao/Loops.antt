-- ===== src/Dao/Loops.antt =====
-- util/container_dao.cpp: the loops over the records of the data file, against the list of the
-- containers that the records hold.
use mathlib.Core.List.{map-append}
use hoststack.Prelude.{
  ℕ, suc, ◌+◌, ◌≡◌, refl, sym, ap, ◌∙◌, ◌⊎◌, inl, inr, Bool, true, false, Option, none, some, List,
  [], ◌∷◌, ◌++◌, map, arith, length, set, Bool-cases,
}
use hoststack.Prelude.First.{
  find_first, map_first, Fails, find_first-split, find_first-Fails, map_first-split,
  map_first-Fails, set-split,
}
use hoststack.Info.{ContainerInfo}
use hoststack.Json.{Json}
use hoststack.Dao.{
  DataFile, read_root, readable_records, pack_container_info, find_loop, write_root,
}

module _ (json : Json) where
  open json use {
    Value, as_string, elements, append, set_element, member, to_styled_string, parse, elements-null,
    elements-append, elements-set_element, parse-to_styled_string, parse-empty_document,
  }

  abbrev pub registry : DataFile json → List ContainerInfo
  registry file = map (pack_container_info json) (readable_records json file)

  -- A file that is not there yet, or that the reader accepts.
  abbrev pub IsReadable : DataFile json → Type 0
  IsReadable file = (file ≡ none) ⊎ ((read_root json file).0 ≡ true)

  -- What a search loop finds: the first record that passes, with its index.
  pub record Found (test : Value → Bool) (i : ℕ) (rs : List Value) (j : ℕ) (r : Value)
      : Type 0 where
    pub pre : List Value
    pub post : List Value
    pub whole : rs ≡ pre ++ r ∷ post
    pub fails : Fails test pre
    pub passes : test r ≡ true
    pub index : j ≡ i + length pre

  abbrev pub Finds : (Value → Bool) → ℕ → List Value → Option (ℕ × Value) → Type 0
  Finds test i rs none = Fails test rs
  Finds test i rs (some (j, r)) = Found test i rs j r

  Finds-cons :
      (test : Value → Bool) (i : ℕ) (x : Value) (rs : List Value) (o : Option (ℕ × Value))
      → test x ≡ false
      → Finds test (suc i) rs o
      → Finds test i (x ∷ rs) o
  Finds-cons test i x rs none e h = (e, h)
  Finds-cons test i x rs (some (j, r)) e h = record {
    pre = x ∷ h.pre;
    post = h.post;
    whole = ap (◌∷◌ x) h.whole;
    fails = (e, h.fails);
    passes = h.passes;
    index = omega (arith, h.index);
  }

  pub find_loop-Finds :
      (test : Value → Bool) (i : ℕ) (rs : List Value) → Finds test i rs (find_loop json test i rs)
  find_loop-Finds test i [] = tt
  find_loop-Finds test i (x ∷ rs) = elim (Bool-cases (test x)) [
    | inl e ↦
        rw e (record {
          pre = [];
          post = rs;
          whole = refl;
          fails = tt;
          passes = e;
          index = omega arith;
        })
    | inr e ↦ rw e (Finds-cons test i x rs _ e (find_loop-Finds test (suc i) rs))
  ]

  -- What is read back of a document that was just written.
  pub records-write :
      (file : DataFile json) (root : Value)
      → readable_records json (write_root json file root) ≡ elements root
  records-write file root = rw (parse-to_styled_string root)

  -- Searches and changes of records, as searches and changes of containers.
  module _ (test : Value → Bool) (P : ContainerInfo → Bool)
      (same : (r : Value) → test r ≡ P (pack_container_info json r)) where
    pub Fails-map : (rs : List Value) → Fails test rs → Fails P (map (pack_container_info json) rs)
    Fails-map [] h = tt
    Fails-map (r ∷ rs) h = (sym (same r) ∙ h.0, Fails-map rs h.1)

    pub find-Found :
        (rs : List Value) (o : Option (ℕ × Value))
        → Finds test 0 rs o
        → find_first P (map (pack_container_info json) rs)
          ≡ (elim o [ none ↦ none | some (i, r) ↦ some (pack_container_info json r) ])
    find-Found rs none h = find_first-Fails P _ (Fails-map rs h)
    find-Found rs (some (j, r)) h =
        rw (h.whole, map-append)
          (find_first-split P _ (pack_container_info json r) _ (Fails-map h.pre h.fails)
            (sym (same r) ∙ h.passes))

    pub map-Found :
        (rs : List Value) (j : ℕ) (r x : Value) (f : ContainerInfo → ContainerInfo)
        → Found test 0 rs j r
        → pack_container_info json x ≡ f (pack_container_info json r)
        → map (pack_container_info json) (set rs j x)
          ≡ map_first P f (map (pack_container_info json) rs)
    map-Found rs j r x f h e =
        let here : j ≡ length h.pre = omega (arith, h.index) in
        rw (h.whole, here, set-split h.pre r x h.post)
          (simp map-append (
            ap
              (λ c.
                map (pack_container_info json) h.pre ++ c ∷ map (pack_container_info json) h.post)
              e
            ∙ sym (
                map_first-split P f _ (pack_container_info json r) _ (Fails-map h.pre h.fails)
                  (sym (same r) ∙ h.passes))))

    pub map-Fails :
        (rs : List Value) (f : ContainerInfo → ContainerInfo)
        → Fails test rs
        → map (pack_container_info json) rs ≡ map_first P f (map (pack_container_info json) rs)
    map-Fails rs f h = sym (map_first-Fails P f _ (Fails-map rs h))

  nil_split : (pre post : List Value) (r : Value) → ¬ ([] ≡ pre ++ r ∷ post)
  nil_split [] post r e = cc
  nil_split (x ∷ pre) post r e = cc

  -- Where a loop found a record, the reader had accepted the file.
  pub root_records :
      (test : Value → Bool) (file : DataFile json) (j : ℕ) (r : Value)
      → Found test 0 (readable_records json file) j r
      → elements (read_root json file).1 ≡ readable_records json file
  root_records test none j r h = absurd (nil_split h.pre h.post r h.whole)
  root_records test (some doc) j r h = elim (Bool-cases (parse doc).0) [
    | inl e ↦ rw e
    | inr e ↦ absurd (nil_split h.pre h.post r (rw e at h.whole))
  ]

  pub set_same :
      (test : Value → Bool) (rs : List Value) (j : ℕ) (r : Value)
      → Found test 0 rs j r
      → set rs j r ≡ rs
  set_same test rs j r h =
      let here : j ≡ length h.pre = omega (arith, h.index) in
      rw (h.whole, here) (set-split h.pre r r h.post)

  -- The containers of a file in which one found record was rewritten.
  pub written :
      (test : Value → Bool) (file : DataFile json) (j : ℕ) (r x : Value)
      → Found test 0 (readable_records json file) j r
      → registry (write_root json file (set_element (read_root json file).1 j x))
        ≡ map (pack_container_info json) (set (readable_records json file) j x)
  written test file j r x h =
      rw (parse-to_styled_string) (rw (elements-set_element) (rw (root_records test file j r h)))
