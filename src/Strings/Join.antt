-- ===== src/Strings/Join.antt =====
-- common/usg_common.cpp: str_join, array_join and path_join. The arguments behind `first` and
-- `path` are the list that the terminating null pointer ends.
pub mod Contents
use hoststack.Prelude.{
  ℕ, zero, suc, ◌+◌, ◌-◌, ◌*◌, ◌≤◌, ◌<◌, ◌≡◌, Bool, true, false, ◌||◌, Option, none, some, List, [],
  ◌∷◌, ◌++◌, arith, ltb, leb, ◌==◌, if◌then◌else◌, length, get_or, take, drop,
}
use hoststack.Prelude.Text.{Text, codes}
use hoststack.Libc.{after_span}
use hoststack.Strings.Buffer.{Buffer, strcpy, strcat, terminate, reserve, ◌>>=◌}

-- size = 1024, or twice the length of a longer first string
pub first_size : ℕ → ℕ
first_size len = if leb 1024 len then len * 2 else 1024

pub str_join_loop : Text → List Text → ℕ → Buffer → Option (ℕ × Buffer)
str_join_loop seperator [] len buf = some (len, buf)
str_join_loop seperator (str ∷ rest) len buf = do
  let len1 = len + length seperator
  buf1 ← strcat (reserve buf len1) seperator
  let len2 = len1 + length str
  buf2 ← strcat (reserve buf1 len2) str
  str_join_loop seperator rest len2 buf2

-- A string that a null `first` leaves out is `some none`.
pub str_join : Text → Option Text → List Text → Option (Option Text)
unfolding first_size str_join_loop
str_join seperator none rest = some none
str_join seperator (some first) rest = do
  buf ← strcpy (first_size (length first)) first
  r ← str_join_loop seperator rest (length first) buf
  done ← terminate r.1 r.0
  some (some done.bytes)

unfoldable pub total_length : List Text → ℕ
total_length [] = 0
total_length (s ∷ arr) = length s + total_length arr

pub array_join_loop : Text → List Text → Buffer → Option Buffer
array_join_loop seperator [] buf = some buf
array_join_loop seperator (s ∷ arr) buf = do
  buf1 ← strcat buf seperator
  buf2 ← strcat buf1 s
  array_join_loop seperator arr buf2

pub array_join : List Text → Text → Option (Option Text)
unfolding total_length array_join_loop
array_join [] seperator = some none
array_join (s ∷ arr) seperator =
    let size = total_length (s ∷ arr) in
    let joined = (do
      buf ← strcpy (size + length seperator * length arr + 1) s
      done ← array_join_loop seperator arr buf
      some (some done.bytes)) in
    if size == 0 then some none else joined

abbrev pub path_seperator : Text
path_seperator = b'/' ∷ []

-- strcmp(buf + len - 1, "/") == 0 and the cut of that byte; with len = 0 the read is before the
-- buffer.
pub cut_seperator : ℕ → Buffer → Option (ℕ × Buffer)
cut_seperator zero buf = none
cut_seperator (suc n) buf =
    if get_or buf.bytes n 0 == b'/'
    then (do cut ← terminate buf n; some (n, cut))
    else some (suc n, buf)

pub path_join_loop : List Text → ℕ → Buffer → Option (ℕ × Buffer)
unfolding cut_seperator
path_join_loop [] len buf = some (len, buf)
path_join_loop (arg ∷ rest) len buf = do
  (len0, buf0) ← cut_seperator len buf
  let str = after_span path_seperator arg
  let len1 = len0 + 1
  buf1 ← strcat (reserve buf0 len1) path_seperator
  let len2 = len1 + length str
  buf2 ← strcat (reserve buf1 len2) str
  path_join_loop rest len2 buf2

pub path_join : Option Text → List Text → Option (Option Text)
unfolding first_size path_join_loop
path_join none rest = some none
path_join (some path) rest = do
  buf ← strcpy (first_size (length path)) path
  r ← path_join_loop rest (length path) buf
  done ← terminate r.1 r.0
  some (some done.bytes)
