-- ===== src/Json/Tree.antt =====
-- Values as trees, and a document that is the value it prints: they meet the interface `Json`.
use hoststack.Prelude.{
  ◌≡◌, refl, ap, Bool, true, false, List, [], ◌∷◌, ◌++◌, if◌then◌else◌, set, ℤ, pos, arith,
}
use hoststack.Prelude.Text.{Text, text_eq}
use hoststack.Json.{Json, IsInt}
use hoststack.Prelude.{to_int, to_int_self, to_int-IsInt}

mutual
  pub data Tree : Type 0 where
    null : Tree
    num : ℤ → Tree
    str : Text → Tree
    arr : Items → Tree
    obj : Fields → Tree

  pub data Items : Type 0 where
    nil : Items
    cons : Tree → Items → Items

  pub data Fields : Type 0 where
    end : Fields
    field : Text → Tree → Fields → Fields

abbrev to_list : Items → List Tree
to_list nil = []
to_list (cons x xs) = x ∷ to_list xs

abbrev of_list : List Tree → Items
of_list [] = nil
of_list (x ∷ xs) = cons x (of_list xs)

pub to_list-of_list : (xs : List Tree) → to_list (of_list xs) ≡ xs
to_list-of_list [] = refl
to_list-of_list (x ∷ xs) = ap (◌∷◌ x) (to_list-of_list xs)

abbrev elements : Tree → List Tree
elements (arr xs) = to_list xs
elements _ = []

abbrev find_field : Text → Fields → Tree
find_field k end = null
find_field k (field j v fs) = if text_eq j k then v else find_field k fs

abbrev fields : Tree → Fields
fields (obj fs) = fs
fields _ = end

abbrev text_of : Tree → Text
text_of (str s) = s
text_of _ = []

abbrev int_of : Tree → ℤ
int_of (num n) = to_int n
int_of _ = pos 0

pub int_of-IsInt : (v : Tree) → IsInt (int_of v)
int_of-IsInt (num n) = to_int-IsInt n
int_of-IsInt _ = omega arith

pub data Document : Type 0 where
  styled : Tree → Document
  garbage : Document

abbrev read : Document → Bool × Tree
read (styled t) = (true, t)
read garbage = (false, null)

abbrev pub tree_json : Json
tree_json = record {
  Value = Tree;
  Document = Document;
  null = null;
  of_string = str;
  of_int = num;
  as_string = text_of;
  as_int = int_of;
  elements = elements;
  append = λ v x. arr (of_list (elements v ++ x ∷ []));
  set_element = λ v i x. arr (of_list (set (elements v) i x));
  member = λ v k. find_field k (fields v);
  set_member = λ v k x. obj (field k x (fields v));
  to_styled_string = styled;
  parse = read;
  empty_document = garbage;
  as_string-of_string = λ s. refl;
  as_int-of_int = to_int_self;
  as_int-IsInt = int_of-IsInt;
  elements-null = refl;
  elements-append = λ v x. to_list-of_list (elements v ++ x ∷ []);
  elements-set_element = λ v i x. to_list-of_list (set (elements v) i x);
  member-set_member = λ v k x j. refl;
  parse-to_styled_string = λ v. refl;
  parse-empty_document = refl;
}
