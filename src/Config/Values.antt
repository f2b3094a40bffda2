-- ===== src/Config/Values.antt =====
-- common/properties_config.cpp: which values a whole file gives.
use mathlib.Core.List.{append_assoc, append-nil}
use hoststack.Prelude.{
  ℕ, zero, suc, ◌≡◌, ◌≤◌, refl, sym, ap, ◌∙◌, Bool, true, false, Option, none, some, List, [], ◌∷◌,
  ◌++◌, if◌then◌else◌, ◌==◌, arith, All, length,
}
use hoststack.Prelude.Text.{Text, text_eq, text_eq_iff}
use hoststack.Outcome.{ok, undefined, ◌>>=◌}
use hoststack.Libc.{AllIn, NoneIn, Begins}
use hoststack.Strings.Trim.{blanks}
use hoststack.Strings.Trim.Ends.{Clean}
use hoststack.Config.{
  Properties, find, insert, equals, load_line, load_lines, file_lines, room, properties_config, get,
  or_empty,
}
use hoststack.Config.Rows.{
  Entry, IsEntry, entry_bytes, load_entry, load_comment, load_blank, load_bare,
}

pub data Row : Type 0 where
  entry : Entry → Row
  comment : (pad text : Text) → Row
  blank : (pad : Text) → Row

abbrev pub row_bytes : Row → Text
row_bytes (entry e) = entry_bytes e
row_bytes (comment pad text) = pad ++ b'#' ∷ text
row_bytes (blank pad) = pad

abbrev pub HasShape : Row → Type 0
HasShape (entry e) = IsEntry e
HasShape (comment pad text) = AllIn blanks pad
HasShape (blank pad) = AllIn blanks pad

abbrev pub NoNewline : Text → Type 0
NoNewline = All (λ c. (c == 10) ≡ false)

-- A line that the buffer of the loop holds.
abbrev pub IsLine : Text → Type 0
IsLine s = NoNewline s × (length s ≤ room)

abbrev pub IsRow : Row → Type 0
IsRow r = HasShape r × IsLine (row_bytes r)

abbrev pub render : List Row → Text
render [] = []
render (r ∷ rows) = row_bytes r ++ 10 ∷ render rows

-- The value of the first entry with the key.
abbrev pub first_value : Text → List Row → Option Text
first_value name [] = none
first_value name (entry e ∷ rows) =
    if text_eq e.key name then some e.value else first_value name rows
first_value name (comment pad text ∷ rows) = first_value name rows
first_value name (blank pad ∷ rows) = first_value name rows

read_line :
    (s : Text) (left : ℕ) (line rest : Text)
    → NoNewline s
    → length s ≤ left
    → file_lines left line (s ++ 10 ∷ rest) ≡ (line ++ s) ∷ file_lines room [] rest
unfolding file_lines
read_line [] left line rest n l = ap (λ t. t ∷ file_lines room [] rest) (sym (append-nil line))
read_line (c ∷ s) zero line rest n l = absurd (omega arith)
read_line (c ∷ s) (suc left) line rest n l = rw n.0 (
    read_line s left (line ++ c ∷ []) rest n.1 (omega arith)
    ∙ ap (λ t. t ∷ file_lines room [] rest) (append_assoc line (c ∷ []) s))

-- A map after a row.
abbrev pub add_row : Row → Properties → Properties
add_row (entry e) m = insert e.key e.value m
add_row (comment pad text) m = m
add_row (blank pad) m = m

abbrev pub add_rows : List Row → Properties → Properties
add_rows [] m = m
add_rows (r ∷ rows) m = add_rows rows (add_row r m)

load_row : (r : Row) (m : Properties) → HasShape r → load_line (row_bytes r) m ≡ ok (add_row r m)
load_row (entry e) m h = load_entry e h m
load_row (comment pad text) m h = load_comment pad text m h
load_row (blank pad) m h = load_blank pad m h

load_rest :
    (rows : List Row) (rest : Text) (m : Properties)
    → All IsRow rows
    → load_lines (file_lines room [] (render rows ++ rest)) m
      ≡ load_lines (file_lines room [] rest) (add_rows rows m)
unfolding load_lines
load_rest [] rest m h = refl
load_rest (r ∷ rows) rest m h =
    ap (λ t. load_lines (file_lines room [] t) m)
      (append_assoc (row_bytes r) (10 ∷ render rows) rest)
    ∙ ap (λ t. load_lines t m)
        (read_line (row_bytes r) room [] (render rows ++ rest) h.0.1.0 h.0.1.1)
    ∙ ap (λ t. t >>= λ k. load_lines (file_lines room [] (render rows ++ rest)) k)
        (load_row r m h.0.0)
    ∙ load_rest rows rest (add_row r m) h.1

abbrev pub or_else : Option Text → Option Text → Option Text
or_else none o = o
or_else (some v) o = some v

or_else_assoc : (a b c : Option Text) → or_else (or_else a b) c ≡ or_else a (or_else b c)
or_else_assoc none b c = refl
or_else_assoc (some v) b c = refl

-- What is there stays.
find-insert :
    (name key value : Text) (m : Properties)
    → find name (insert key value m)
      ≡ or_else (find name m) (if text_eq key name then some value else none)
unfolding find insert
find-insert name key value [] = refl
find-insert name key value ((k, v) ∷ m) = ground (
  arith,
  text_eq_iff k key,
  text_eq_iff k name,
  text_eq_iff key name,
  find-insert name key value m,
)

find-add_rows :
    (name : Text) (rows : List Row) (m : Properties)
    → find name (add_rows rows m) ≡ or_else (find name m) (first_value name rows)
find-add_rows name [] m = or_none (find name m)
  where
    or_none : (o : Option Text) → o ≡ or_else o none
    or_none none = refl
    or_none (some v) = refl
find-add_rows name (entry e ∷ rows) m =
    find-add_rows name rows (insert e.key e.value m)
    ∙ ap (λ o. or_else o (first_value name rows)) (find-insert name e.key e.value m)
    ∙ or_else_assoc (find name m) _ (first_value name rows)
    ∙ ap (or_else (find name m)) (choose (text_eq e.key name) e.value (first_value name rows))
  where
    choose :
        (b : Bool) (v : Text) (o : Option Text)
        → or_else (if b then some v else none) o ≡ (if b then some v else o)
    choose true v o = refl
    choose false v o = refl
find-add_rows name (comment pad text ∷ rows) m = find-add_rows name rows m
find-add_rows name (blank pad ∷ rows) m = find-add_rows name rows m

-- A file of lines key=value, comments and lines of blanks, each of at most 1023 bytes, with blanks
-- around keys and values and no further equals sign, is read to the end; get then gives for every name
-- the value of the first line with that key, and the empty string where there is none.
pub get-properties_config :
    (rows : List Row)
    → All IsRow rows
    → (m : Properties) × (properties_config (render rows) ≡ ok m)
      × ((name : Text) → get m name ≡ or_empty (first_value name rows))
unfolding properties_config get
get-properties_config rows h = (
  add_rows rows [],
  ap (λ t. load_lines (file_lines room [] t) []) (sym (append-nil (render rows)))
      ∙ load_rest rows [] [] h,
  λ name. ap or_empty (find-add_rows name rows []),
)

-- A line that is no comment and has no equals sign makes a null pointer a value, whatever follows it.
pub properties_config_bare :
    (rows : List Row) (front s back rest : Text)
    → All IsRow rows
    → IsLine (front ++ (s ++ back))
    → AllIn blanks front
    → AllIn blanks back
    → Clean blanks s
    → NoneIn equals s
    → Begins (b'#' ∷ []) s
    → properties_config (render rows ++ ((front ++ (s ++ back)) ++ 10 ∷ rest)) ≡ undefined
unfolding properties_config load_lines
properties_config_bare rows front s back rest h l hf hb c n b =
    load_rest rows ((front ++ (s ++ back)) ++ 10 ∷ rest) [] h
    ∙ ap (λ t. load_lines t (add_rows rows []))
        (read_line (front ++ (s ++ back)) room [] rest l.0 l.1)
    ∙ ap (λ t. t >>= λ k. load_lines (file_lines room [] rest) k)
        (load_bare front s back (add_rows rows []) hf hb c n b)
