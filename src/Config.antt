-- ===== src/Config.antt =====
-- common/properties_config.cpp: a file of lines key=value. The file is given by its bytes.
pub mod Rows
pub mod Values
use hoststack.Prelude.{
  ℕ, zero, suc, ◌+◌, ◌-◌, ◌*◌, ◌^◌, ◌≡◌, Bool, true, false, ◌&&◌, Option, none, some, List, [], ◌∷◌,
  ◌++◌, if◌then◌else◌, ltb, leb, ◌==◌, length, ℤ, pos, negsuc,
}
use hoststack.Prelude.Text.{Text, codes, text_eq}
use hoststack.Outcome.{Outcome, ok, exits, undefined, ◌>>=◌}
use hoststack.Libc.{strtok, after_span}
use hoststack.Strings.Trim.{trim, blanks}

-- std::map, which is only looked up by key.
abbrev pub Properties : Type 0
Properties = List (Text × Text)

unfoldable pub find : Text → Properties → Option Text
find name [] = none
find name ((key, value) ∷ map) = if text_eq key name then some value else find name map

-- insert leaves a key alone that is there.
unfoldable pub insert : Text → Text → Properties → Properties
insert key value [] = (key, value) ∷ []
insert key value ((k, v) ∷ map) =
    if text_eq k key then (k, v) ∷ map else (k, v) ∷ insert key value map

-- The bytes of a line that getline takes at most.
abbrev pub room : ℕ
room = 1023

abbrev pub further : ℕ → (ℕ → List Text) → List Text
further zero go = []
further (suc l) go = go l

abbrev pub last_line : Text → List Text
last_line [] = []
last_line (c ∷ line) = (c ∷ line) ∷ []

-- What the calls of getline return while they succeed, with the bytes of the line so far: a line that
-- is too long ends them, and so does the end of the file.
unfoldable pub file_lines : ℕ → Text → Text → List Text
file_lines left line [] = last_line line
file_lines left line (c ∷ file) =
    let rest = file_lines room [] file in
    let long = further left (λ l. file_lines l (line ++ c ∷ []) file) in
    if c == 10 then line ∷ rest else long

-- A null pointer as a key or a value is not allowed.
abbrev pub insert_pair : Option Text → Option Text → Properties → Outcome Properties
insert_pair (some key) (some value) map = ok (insert key value map)
insert_pair (some key) none map = undefined
insert_pair none value map = undefined

abbrev pub value_of : Option (Text × Text) → Option Text
value_of none = none
value_of (some (token, rest)) = some token

abbrev pub equals : Text
equals = b'=' ∷ []

abbrev pub split_pair : Option (Text × Text) → Properties → Outcome Properties
split_pair none map = undefined
split_pair (some (token, rest)) map =
    insert_pair (trim (some token) none) (trim (value_of (strtok equals rest)) none) map

-- One round of the loop, with the trimmed line.
abbrev pub trimmed_line : Option Text → Properties → Outcome Properties
trimmed_line none map = undefined
trimmed_line (some []) map = ok map
trimmed_line (some (c ∷ line)) map =
    if c == b'#' then ok map else split_pair (strtok equals (c ∷ line)) map

unfoldable pub load_line : Text → Properties → Outcome Properties
unfolding insert
load_line line map = trimmed_line (trim (some line) none) map

unfoldable pub load_lines : List Text → Properties → Outcome Properties
unfolding load_line
load_lines [] map = ok map
load_lines (line ∷ lines) map = load_line line map >>= λ m. load_lines lines m

-- PropertiesConfig
unfoldable pub properties_config : Text → Outcome Properties
unfolding file_lines load_lines
properties_config file = load_lines (file_lines room [] file) []

abbrev pub or_empty : Option Text → Text
or_empty none = []
or_empty (some value) = value

unfoldable pub get : Properties → Text → Text
unfolding find
get map name = or_empty (find name map)

-- std::stoi; `none` is an exception, for a text without digits or a number that is no `int`.
abbrev pub is_digit : ℕ → Bool
is_digit c = leb b'0' c && leb c b'9'

unfoldable pub digits : Text → List ℕ
digits [] = []
digits (c ∷ s) = let rest = digits s in if is_digit c then (c - b'0') ∷ rest else []

unfoldable pub number : ℕ → List ℕ → ℕ
number n [] = n
number n (d ∷ ds) = number (n * 10 + d) ds

abbrev pub in_range : Bool → ℕ → Option ℤ
in_range true zero = some (pos 0)
in_range true (suc n) = if ltb n (2 ^ 31) then some (negsuc n) else none
in_range false n = if ltb n (2 ^ 31) then some (pos n) else none

abbrev pub signed : Bool → List ℕ → Option ℤ
signed minus [] = none
signed minus (d ∷ ds) = in_range minus (number 0 (d ∷ ds))

abbrev pub after_sign : Text → Option ℤ
after_sign [] = none
after_sign (c ∷ s) =
    if c == b'-'
    then signed true (digits s)
    else (if c == b'+' then signed false (digits s) else signed false (digits (c ∷ s)))

unfoldable pub stoi : Text → Option ℤ
unfolding digits number
stoi s = after_sign (after_span blanks s)

abbrev pub int_or_zero : Option Text → Option ℤ
int_or_zero none = some (pos 0)
int_or_zero (some value) = stoi value

unfoldable pub get_int : Properties → Text → Option ℤ
unfolding find stoi
get_int map name = int_or_zero (find name map)
