-- ===== src/Getopt.antt =====
-- getopt_long of the C library, as the handlers under cli/ use it: short options in clusters, long
-- options by a unique beginning of their name, values in the same or in the next argument. `none`
-- is the answer '?'.
use hoststack.Prelude.{
  ℕ, zero, suc, Bool, true, false, Option, none, some, List, [], ◌∷◌, ◌++◌, if◌then◌else◌, ◌==◌,
  length,
}
use hoststack.Prelude.Text.{Text, text_eq}
use hoststack.Libc.{starts_with}

-- struct option, with the letter as its value.
pub record LongOption : Type 0 where
  pub name : Text
  pub letter : ℕ
  pub takes : Bool

-- The letters with their values, in order, and the arguments after the options.
abbrev pub Options : Type 0
Options = List (ℕ × Text) × List Text

-- The options of one argument, and the letter whose value is the next argument.
abbrev pub Argument : Type 0
Argument = List (ℕ × Text) × Option ℕ

abbrev find_letter : List LongOption → ℕ → Option LongOption
find_letter [] c = none
find_letter (o ∷ os) c = let rest = find_letter os c in if o.letter == c then some o else rest

abbrev with_option : ℕ → Option Argument → Option Argument
with_option c none = none
with_option c (some (os, next)) = some ((c, []) ∷ os, next)

abbrev value_here : ℕ → Text → Option Argument
value_here c [] = some ([], some c)
value_here c (v ∷ vs) = some ((c, v ∷ vs) ∷ [], none)

unfoldable pub short_options : List LongOption → Text → Option Argument
short_options table [] = some ([], none)
short_options table (c ∷ cs) =
    let rest = short_options table cs in
    elim (find_letter table c) [
      | none ↦ none
      | some o ↦ if o.takes then value_here c cs else with_option c rest
    ]

-- The text before '=' and the one after it.
abbrev split_value : Text → Text × Option Text
split_value [] = ([], none)
split_value (c ∷ cs) =
    let (name, value) = split_value cs in if c == 61 then ([], some cs) else (c ∷ name, value)

abbrev find_exact : List LongOption → Text → Option LongOption
find_exact [] name = none
find_exact (o ∷ os) name =
    let rest = find_exact os name in if text_eq o.name name then some o else rest

abbrev beginning : List LongOption → Text → List LongOption
beginning [] name = []
beginning (o ∷ os) name =
    let rest = beginning os name in if starts_with o.name name then o ∷ rest else rest

abbrev only : List LongOption → Option LongOption
only [] = none
only (o ∷ []) = some o
only (o ∷ p ∷ os) = none

abbrev find_long : List LongOption → Text → Option LongOption
find_long table name = elim (find_exact table name) [
  | some o ↦ some o
  | none ↦ only (beginning table name)
]

abbrev long_value : LongOption → Option Text → Option Argument
long_value o none = if o.takes then some ([], some o.letter) else some ((o.letter, []) ∷ [], none)
long_value o (some v) = if o.takes then some ((o.letter, v) ∷ [], none) else none

unfoldable pub long_option : List LongOption → Text → Option Argument
long_option table body =
    let (name, value) = split_value body in
    elim (find_long table name) [ none ↦ none | some o ↦ long_value o value ]

-- What an argument is.
pub data Kind : Type 0 where
  ends : Kind
  long : Text → Kind
  short : Text → Kind
  plain : Kind

unfoldable pub kind_of : Text → Kind
kind_of [] = plain
kind_of (c ∷ []) = plain
kind_of (c ∷ d ∷ []) = if c == 45 then (if d == 45 then ends else short (d ∷ [])) else plain
kind_of (c ∷ d ∷ e ∷ cs) =
    if c == 45 then (if d == 45 then long (e ∷ cs) else short (d ∷ e ∷ cs)) else plain

abbrev before : List (ℕ × Text) → Option Options → Option Options
before os none = none
before os (some (ps, rest)) = some (os ++ ps, rest)

abbrev aside : Text → Option Options → Option Options
aside a none = none
aside a (some (ps, rest)) = some (ps, a ∷ rest)

abbrev after_argument : Option Argument → List Text → (List Text → Option Options) → Option Options
after_argument none rest go = none
after_argument (some (os, none)) rest go = before os (go rest)
after_argument (some (os, some c)) [] go = none
after_argument (some (os, some c)) (v ∷ rest) go = before (os ++ (c, v) ∷ []) (go rest)

-- With "+" the options end at the first other argument; without it, such arguments are passed over.
unfoldable pub getopt_loop : Bool → List LongOption → ℕ → List Text → Option Options
unfolding short_options long_option kind_of
getopt_loop plus table zero args = none
getopt_loop plus table (suc fuel) [] = some ([], [])
getopt_loop plus table (suc fuel) (a ∷ args) = elim (kind_of a) [
  | ends ↦ some ([], args)
  | plain ↦
      let rest = getopt_loop plus table fuel args in
      if plus then some ([], a ∷ args) else aside a rest
  | long body ↦
      after_argument (long_option table body) args (λ rest. getopt_loop plus table fuel rest)
  | short cs ↦
      after_argument (short_options table cs) args (λ rest. getopt_loop plus table fuel rest)
]

unfoldable pub getopt_long : Bool → List LongOption → List Text → Option Options
unfolding getopt_loop
getopt_long plus table args = getopt_loop plus table (suc (length args)) args

abbrev pub has_option : ℕ → List (ℕ × Text) → Bool
has_option letter [] = false
has_option letter ((c, v) ∷ os) =
    let rest = has_option letter os in if c == letter then true else rest
