-- ===== src/Strings/Split.antt =====
-- common/usg_common.cpp: str_split, with the array that it grows. The calls of strtok take the
-- delimited string apart step by step, on fuel that the length of the string bounds.
pub mod Tokens
pub mod RoundTrip
use hoststack.Prelude.{
  ℕ, zero, suc, ◌+◌, ◌*◌, Option, none, some, List, [], ◌∷◌, ◌++◌, ltb, leb, if◌then◌else◌, length,
}
use hoststack.Prelude.Text.{Text}
use hoststack.Libc.{strtok}
use hoststack.Strings.Buffer.{◌>>=◌}

-- arr[i] = token at i = length arr, in an array of len pointers
pub store : ℕ → List Text → Text → Option (List Text)
store len arr token = if ltb (length arr) len then some (arr ++ token ∷ []) else none

-- `none` is a write past the array, or the end of the fuel.
pub str_split_loop : ℕ → Text → Text → ℕ → List Text → Option (ℕ × List Text)
unfolding store
str_split_loop zero delim str len arr = none
str_split_loop (suc fuel) delim str len arr = elim (strtok delim str) [
  | none ↦ some (len, arr)
  | some (token, rest) ↦
      let len' = if leb len (length arr) then len * 2 else len in
      (store len' arr token >>= λ arr'. str_split_loop fuel delim rest len' arr')
]

-- The array is one longer where the terminating null pointer has no room.
pub close_array : ℕ × List Text → Option (List Text)
close_array (len, arr) =
    let len' = if leb len (length arr) then len + 1 else len in
    if ltb (length arr) len' then some arr else none

-- A null string leaves the caller's array as it was: `some none`.
unfoldable pub str_split : Option Text → Text → Option (Option (List Text))
unfolding str_split_loop close_array
str_split none delim = some none
str_split (some str) delim = do
  r ← str_split_loop (length str + 1) delim str 64 []
  arr ← close_array r
  some (some arr)
