-- ===== src/Dirs/Tree.antt =====
-- An instance of the interface: the list of the paths that exist.
use hoststack.Prelude.{
  ◌≡◌, refl, Bool, true, false, Option, none, some, List, [], ◌∷◌, ◌||◌, subst, same_some,
}
use hoststack.Prelude.Text.{Text, text_eq, text_eq_refl}
use hoststack.Dirs.{Dirs}

abbrev pub has : Text → List Text → Bool
has path [] = false
has path (p ∷ ps) = text_eq p path || has path ps

abbrev pub add : Text → List Text → Option (List Text)
add [] ps = none
add (c ∷ path) ps = some ((c ∷ path) ∷ ps)

no_path : {t : List Text} → none ≡ some t → ⊥
no_path e = cc

or_later : (b c : Bool) → c ≡ true → (b || c) ≡ true
or_later true c e = refl
or_later false c e = e

pub add-has : (path : Text) (s t : List Text) → add path s ≡ some t → has path t ≡ true
add-has [] s t e = absurd (no_path e)
add-has (c ∷ path) s t e =
    subst (λ x. has (c ∷ path) x ≡ true) (same_some e) (rw (text_eq_refl (c ∷ path)) refl)

pub add_keeps :
    (path q : Text) (s t : List Text) → add path s ≡ some t → has q s ≡ true → has q t ≡ true
add_keeps [] q s t e h = absurd (no_path e)
add_keeps (c ∷ path) q s t e h =
    subst (λ x. has q x ≡ true) (same_some e) (or_later (text_eq (c ∷ path) q) (has q s) h)

abbrev pub tree_dirs : Dirs
tree_dirs = record {
  State = List Text;
  exists = has;
  mkdir = add;
  mkdir_exists = add-has;
  mkdir_keeps = add_keeps;
}
