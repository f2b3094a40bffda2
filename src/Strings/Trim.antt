-- ===== src/Strings/Trim.antt =====
-- common/usg_common.cpp: ltrim, rtrim and trim. `none` is a null pointer.
pub mod Ends
use hoststack.Prelude.{
  ℕ, zero, suc, ◌<◌, ◌≡◌, Bool, true, false, Option, none, some, List, [], ◌∷◌, ltb, ◌==◌,
  if◌then◌else◌, length, get_or, take, drop,
}
use hoststack.Prelude.Text.{Text}
use hoststack.Libc.{strchr, span}

-- "\t\n\v\f\r "
abbrev pub blanks : Text
blanks = 9 ∷ 10 ∷ 11 ∷ 12 ∷ 13 ∷ 32 ∷ []

abbrev or_blanks : Option Text → Text
or_blanks none = blanks
or_blanks (some seps) = seps

-- `memmove` moves what follows the separators, with its terminator, to the front.
unfoldable pub ltrim_bytes : Text → Text → Text
ltrim_bytes seps s =
    let totrim = length (span seps s) in
    if ltb 0 totrim then (if totrim == length s then [] else drop totrim s) else s

unfoldable pub ltrim : Option Text → Option Text → Option Text
ltrim none seps = none
ltrim (some s) seps = some (ltrim_bytes (or_blanks seps) s)

-- The loop of rtrim at i = n - 1: a terminator written at i cuts the string there.
unfoldable pub rtrim_loop : Text → ℕ → Text → Text
rtrim_loop seps zero s = s
rtrim_loop seps (suc i) s = if strchr seps (get_or s i 0) then rtrim_loop seps i (take i s) else s

unfoldable pub rtrim : Option Text → Option Text → Option Text
rtrim none seps = none
rtrim (some s) seps = some (rtrim_loop (or_blanks seps) (length s) s)

unfoldable pub trim : Option Text → Option Text → Option Text
trim none seps = none
trim (some s) seps = ltrim (rtrim (some s) seps) seps
