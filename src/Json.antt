-- ===== src/Json.antt =====
-- The part of the jsoncpp library that util/container_dao.cpp calls, as an interface. The library
-- is not code of this repository.
pub mod Tree
use hoststack.Prelude.{ℕ, ◌≡◌, Bool, true, false, List, [], ◌∷◌, ◌++◌, if◌then◌else◌, set, ℤ, IsInt}
use hoststack.Prelude.Text.{Text, text_eq}

-- `elements` stands for size() and operator[] by an index, `set_element` for an assignment through
-- that operator, `member` and `set_member` for operator[] by a name. `empty_document` is what the
-- reader gets of a stream that could not be opened. The laws are those of documents in which every
-- member has the type that the code asks for, as those that it writes itself: asInt and asString throw
-- on others, and such documents are left out.
pub record Json : Type 1 where
  pub Value : Type 0
  pub Document : Type 0
  pub null : Value
  pub of_string : Text → Value
  pub of_int : ℤ → Value
  pub as_string : Value → Text
  pub as_int : Value → ℤ
  pub elements : Value → List Value
  pub append : Value → Value → Value
  pub set_element : Value → ℕ → Value → Value
  pub member : Value → Text → Value
  pub set_member : Value → Text → Value → Value
  pub to_styled_string : Value → Document
  pub parse : Document → Bool × Value
  pub empty_document : Document
  pub as_string-of_string : (s : Text) → as_string (of_string s) ≡ s
  pub as_int-of_int : (n : ℤ) → IsInt n → as_int (of_int n) ≡ n
  pub as_int-IsInt : (v : Value) → IsInt (as_int v)
  pub elements-null : elements null ≡ []
  pub elements-append : (v x : Value) → elements (append v x) ≡ elements v ++ x ∷ []
  pub elements-set_element :
      (v : Value) (i : ℕ) (x : Value) → elements (set_element v i x) ≡ set (elements v) i x
  pub member-set_member :
      (v : Value) (k : Text) (x : Value) (j : Text)
      → member (set_member v k x) j ≡ (if text_eq k j then x else member v j)
  pub parse-to_styled_string : (v : Value) → parse (to_styled_string v) ≡ (true, v)
  pub parse-empty_document : parse empty_document ≡ (false, null)
