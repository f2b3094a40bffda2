-- ===== src/Strings/Search.antt =====
-- common/usg_common.cpp: strstr_r, the search from the end. A position is an offset from `str`.
pub mod Last
use hoststack.Prelude.{
  ℕ, zero, suc, ◌-◌, Option, none, some, List, ltb, if◌then◌else◌, length, drop,
}
use hoststack.Prelude.Text.{Text}
use hoststack.Libc.{starts_with}

-- The loop at end = start + i for n = i + 1; at n = 0 the end has passed the start.
pub strstr_r_loop : Text → Text → ℕ → Option ℕ
strstr_r_loop str needle zero = none
strstr_r_loop str needle (suc i) =
    let rest = strstr_r_loop str needle i in
    if starts_with (drop i str) needle then some i else rest

-- A needle longer than the string sets the end before the start. The needle is not null: the code
-- takes its length before it tests it.
unfoldable pub strstr_r : Option Text → Text → Option ℕ
unfolding strstr_r_loop
strstr_r none needle = none
strstr_r (some str) needle =
    if ltb (length str) (length needle)
    then none
    else strstr_r_loop str needle (suc (length str - length needle))
