-- ===== src/Strings/Join/Contents.antt =====
-- common/usg_common.cpp: str_join, array_join and path_join against a reference by concatenation.
use mathlib.Core.List.{append_assoc, append-nil}
use hoststack.Prelude.{
  ℕ, zero, suc, ◌+◌, ◌*◌, ◌<◌, ◌≡◌, refl, sym, ap, ◌∙◌, ◌⊎◌, true, Option, none, some, List, [],
  ◌∷◌, ◌++◌, arith, ltb, ◌==◌, if◌then◌else◌, length, length-append, get_or, take, inl, inr,
  Bool-cases,
}
use hoststack.Prelude.Text.{Text}
use hoststack.Libc.{after_span}
use hoststack.Strings.Buffer.{Buffer, strcpy, strcat, terminate, reserve, ◌>>=◌, take_all}
use hoststack.Strings.Join.{
  first_size, str_join_loop, str_join, total_length, array_join_loop, array_join, path_seperator,
  cut_seperator, path_join_loop, path_join,
}

-- The strings behind the first one, each behind a separator.
abbrev pub append_all : Text → List Text → Text
append_all sep [] = []
append_all sep (s ∷ rest) = sep ++ (s ++ append_all sep rest)

-- The strings with a separator between each two.
abbrev pub join : Text → List Text → Text
join sep [] = []
join sep (s ∷ rest) = s ++ append_all sep rest

-- A buffer that holds a string and its terminator.
record Holds (b : Buffer) (len : ℕ) : Type 0 where
  exact : length b.bytes ≡ len
  fits : len < b.size

strcat_reserved :
    (b : Buffer) (len : ℕ) (s : Text)
    → Holds b len
    → (c : Buffer) × (strcat (reserve b (len + length s)) s ≡ some c)
      × (c.bytes ≡ b.bytes ++ s)
      × Holds c (len + length s)
unfolding strcat reserve
strcat_reserved b len s h = (
  record (reserve b (len + length s)) { bytes = b.bytes ++ s },
  ground arith,
  refl,
  record { exact = omega (arith, length-append b.bytes s); fits = ground arith },
)

-- A loop's result: a buffer that holds its string, which is `s`.
Gives : Text → Option (ℕ × Buffer) → Type 0
Gives s r = (len : ℕ) × (b : Buffer) × (r ≡ some (len, b)) × (b.bytes ≡ s) × Holds b len

str_join_loop-Gives :
    (sep : Text) (rest : List Text) (len : ℕ) (b : Buffer)
    → Holds b len
    → Gives (b.bytes ++ append_all sep rest) (str_join_loop sep rest len b)
unfolding str_join_loop Gives
str_join_loop-Gives sep [] len b h = (len, b, refl, sym (append-nil b.bytes), h)
str_join_loop-Gives sep (s ∷ rest) len b h =
    let (b1, e1, c1, h1) = strcat_reserved b len sep h in
    let (b2, e2, c2, h2) = strcat_reserved b1 (len + length sep) s h1 in
    let (len3, b3, e3, c3, h3) = str_join_loop-Gives sep rest (len + length sep + length s) b2 h2 in
    (len3, b3, rw (e1, ◌>>=◌) (rw (e2, ◌>>=◌) e3), c3 ∙ rw (c2, c1) (simp append_assoc), h3)

first_Holds : (s : Text) → Holds (record { size = first_size (length s); bytes = s }) (length s)
unfolding first_size
first_Holds s = record { exact = refl; fits = ground arith }

-- str_join of a first string writes inside its buffers and returns the strings in order, with the
-- separator between each two.
pub str_join-eq-join :
    (sep first : Text) (rest : List Text)
    → str_join sep (some first) rest ≡ some (some (join sep (first ∷ rest)))
unfolding str_join strcpy terminate Gives
str_join-eq-join sep first rest =
    let (len, b, e, c, h) = str_join_loop-Gives sep rest (length first) _ (first_Holds first) in
    ground (arith, e, c, h.exact, h.fits, first_Holds first, take_all b.bytes)

strcat_room :
    (b : Buffer) (s : Text) (room : ℕ)
    → length b.bytes + length s + room < b.size
    → (c : Buffer) × (strcat b s ≡ some c)
      × (c.bytes ≡ b.bytes ++ s)
      × (length c.bytes + room < c.size)
unfolding strcat
strcat_room b s room h =
    (record b { bytes = b.bytes ++ s }, ground arith, refl, omega (arith, length-append b.bytes s))

array_join_loop-bytes :
    (sep : Text) (arr : List Text) (b : Buffer)
    → length b.bytes + (total_length arr + length sep * length arr) < b.size
    → (c : Buffer) × (array_join_loop sep arr b ≡ some c)
      × (c.bytes ≡ b.bytes ++ append_all sep arr)
unfolding array_join_loop total_length
array_join_loop-bytes sep [] b h = (b, refl, sym (append-nil b.bytes))
array_join_loop-bytes sep (s ∷ arr) b h =
    let room = total_length arr + length sep * length arr in
    let (b1, e1, c1, h1) = strcat_room b sep (length s + room) (grind arith) in
    let (b2, e2, c2, h2) = strcat_room b1 s room (omega arith) in
    let (b3, e3, c3) = array_join_loop-bytes sep arr b2 h2 in
    (b3, rw (e1, ◌>>=◌) (rw (e2, ◌>>=◌) e3), c3 ∙ rw (c2, c1) (simp append_assoc))

-- array_join of strings that are not all empty fills the buffer that it allocates and no more, and
-- returns the strings in order with the separator between each two; it returns a null pointer for
-- no string, and for strings that are all empty.
pub array_join-eq-join :
    (arr : List Text) (sep : Text)
    → array_join arr sep ≡ some (if total_length arr == 0 then none else some (join sep arr))
unfolding array_join strcpy total_length
array_join-eq-join [] sep = refl
array_join-eq-join (s ∷ arr) sep =
    let size = total_length (s ∷ arr) in
    let (b, e, c) =
      array_join_loop-bytes sep arr
        (record { size = size + length sep * length arr + 1; bytes = s }) (omega arith) in
    ground (arith, e, c)

-- A path without the slash that it may end in.
abbrev pub drop_slash : Text → Text
drop_slash [] = []
drop_slash (c ∷ []) = if c == b'/' then [] else c ∷ []
drop_slash (c ∷ d ∷ s) = c ∷ drop_slash (d ∷ s)

-- One component below a path: a slash at its end is taken off, those at the component's beginning are,
-- and one is put between the two.
abbrev pub below : Text → Text → Text
below path arg = drop_slash path ++ (path_seperator ++ after_span path_seperator arg)

abbrev pub below_all : Text → List Text → Text
below_all path [] = path
below_all path (arg ∷ rest) = below_all (below path arg) rest

drop_slash_lem :
    (s : Text) (n : ℕ)
    → length s ≡ suc n
    → drop_slash s ≡ (if get_or s n 0 == b'/' then take n s else s)
drop_slash_lem [] n h = absurd (omega arith)
drop_slash_lem (c ∷ []) zero h = ground arith
drop_slash_lem (c ∷ []) (suc n) h = absurd (omega arith)
drop_slash_lem (c ∷ d ∷ s) zero h = absurd (omega arith)
drop_slash_lem (c ∷ d ∷ s) (suc n) h = ground (arith, drop_slash_lem (d ∷ s) n (omega arith))

length-take_lt : (s : Text) (n : ℕ) → n < length s → length (take n s) ≡ n
length-take_lt [] n h = elim h [ ]
length-take_lt (c ∷ s) zero h = refl
length-take_lt (c ∷ s) (suc n) h = ap suc (length-take_lt s n (omega arith))

cut_seperator-Gives :
    (len : ℕ) (b : Buffer)
    → Holds b len
    → 0 < len
    → Gives (drop_slash b.bytes) (cut_seperator len b)
unfolding cut_seperator terminate Gives
cut_seperator-Gives zero b h p = elim p [ ]
cut_seperator-Gives (suc n) b h p = elim (Bool-cases (get_or b.bytes n 0 == b'/')) [
  | inl slash ↦ (
    n,
    record b { bytes = take n b.bytes },
    (let f : ltb n b.size ≡ true = ground (arith, h.fits) in rw slash (rw f)),
    sym (drop_slash_lem b.bytes n h.exact ∙ rw slash),
    record {
      exact = length-take_lt b.bytes n (omega (arith, h.exact));
      fits = omega (arith, h.fits);
    },
  )
  | inr other ↦ (suc n, b, rw other, sym (drop_slash_lem b.bytes n h.exact ∙ rw other), h)
]

path_join_loop-Gives :
    (rest : List Text) (len : ℕ) (b : Buffer)
    → Holds b len
    → (rest ≡ []) ⊎ (0 < len)
    → Gives (below_all b.bytes rest) (path_join_loop rest len b)
unfolding path_join_loop Gives
path_join_loop-Gives [] len b h p = (len, b, refl, refl, h)
path_join_loop-Gives (arg ∷ rest) len b h (inl e) = cc
path_join_loop-Gives (arg ∷ rest) len b h (inr p) =
    let (len0, b0, e0, c0, h0) = cut_seperator-Gives len b h p in
    let (b1, e1, c1, h1) = strcat_reserved b0 len0 path_seperator h0 in
    let str = after_span path_seperator arg in
    let (b2, e2, c2, h2) = strcat_reserved b1 (len0 + 1) str h1 in
    let (len3, b3, e3, c3, h3) =
      path_join_loop-Gives rest (len0 + 1 + length str) b2 h2 (inr (omega arith)) in
    (
      len3,
      b3,
      rw (e0, ◌>>=◌) (rw (e1, ◌>>=◌) (rw (e2, ◌>>=◌) e3)),
      c3 ∙ ap (λ s. below_all s rest) (rw (c2, c1, c0) (simp append_assoc)),
      h3,
    )

-- path_join writes inside its buffers and returns the components below one another, if the first path is
-- not empty or nothing is joined to it: at each joint one slash is taken off the end of the path, if it
-- has one, all are taken off the beginning of the component, and one is put between them.
pub path_join-eq-below_all :
    (path : Text) (rest : List Text)
    → (rest ≡ []) ⊎ (0 < length path)
    → path_join (some path) rest ≡ some (some (below_all path rest))
unfolding path_join strcpy terminate Gives
path_join-eq-below_all path rest p =
    let (len, b, e, c, h) = path_join_loop-Gives rest (length path) _ (first_Holds path) p in
    ground (arith, e, c, h.exact, h.fits, first_Holds path, take_all b.bytes)

-- With an empty first path and something to join, path_join reads before its buffer.
pub path_join_empty : (arg : Text) (rest : List Text) → path_join (some []) (arg ∷ rest) ≡ none
unfolding path_join path_join_loop strcpy
path_join_empty arg rest = ground arith
