-- ===== src/Strings/Split/Tokens.antt =====
-- common/usg_common.cpp: str_split against the runs without delimiters.
use mathlib.Core.List.{append_assoc, append-nil}
use hoststack.Prelude.{
  ℕ, zero, suc, ◌+◌, ◌*◌, ◌≤◌, ◌<◌, ◌≡◌, refl, sym, ap, ◌∙◌, true, Option, none, some, List, [],
  ◌∷◌, ◌++◌, arith, ltb, leb, if◌then◌else◌, length, length-append, subst,
}
use hoststack.Prelude.Text.{Text}
use hoststack.Libc.{
  strchr, span, after_span, word, after_word, strtok, AllIn, NoneIn, Begins, span-append-after,
  span-AllIn, after_span-Begins, tail,
}
use hoststack.Strings.Buffer.{◌>>=◌}
use hoststack.Strings.Split.{store, str_split_loop, close_array, str_split}

-- A text that is over, or goes on with a delimiter.
abbrev pub Stops : Text → Text → Type 0
Stops set [] = Unit
Stops set (c ∷ s) = strchr set c ≡ true

-- The tokens of a text: delimiters, then a run that is not empty, has no delimiter and stops at one.
pub data IsTokens (set : Text) : Text → List Text → Type 0 where
  over : {s : Text} → AllIn set s → IsTokens set s []
  next :
      {s r : Text} {ts : List Text} (d : Text) (c : ℕ) (t : Text)
      → s ≡ d ++ ((c ∷ t) ++ r)
      → AllIn set d
      → NoneIn set (c ∷ t)
      → Stops set r
      → IsTokens set r ts
      → IsTokens set s ((c ∷ t) ∷ ts)

word-append-after : (set s : Text) → word set s ++ after_word set s ≡ s
unfolding word after_word
word-append-after set [] = refl
word-append-after set (c ∷ s) = ground (arith, word-append-after set s)

word-NoneIn : (set s : Text) → NoneIn set (word set s)
unfolding word
word-NoneIn set [] = tt
word-NoneIn set (c ∷ s) = ground (arith, word-NoneIn set s)

after_word-Stops : (set s : Text) → Stops set (after_word set s)
unfolding after_word
after_word-Stops set [] = tt
after_word-Stops set (c ∷ s) = ground (arith, after_word-Stops set s)

-- A delimiter in front changes no token.
IsTokens-cons :
    (set r : Text) (ts : List Text) → Stops set r → IsTokens set (tail r) ts → IsTokens set r ts
IsTokens-cons set [] ts h k = k
IsTokens-cons set (x ∷ r) [] h (over a) = over (h, a)
IsTokens-cons set (x ∷ r) ts h (next d c t e a n p k) = next (x ∷ d) c t (ap (◌∷◌ x) e) (h, a) n p k

-- What one call of strtok finds, and what it leaves for the next.
record Found (set s t rest : Text) : Type 0 where
  front : Text
  first : ℕ
  more : Text
  after : Text
  is_token : t ≡ first ∷ more
  whole : s ≡ front ++ ((first ∷ more) ++ after)
  front_AllIn : AllIn set front
  clean : NoneIn set (first ∷ more)
  stops : Stops set after
  left : rest ≡ tail after
  shorter : length rest < length s

abbrev StrtokSpec : Text → Text → Option (Text × Text) → Type 0
StrtokSpec set s none = AllIn set s
StrtokSpec set s (some (t, rest)) = Found set s t rest

length-tail : (s : Text) → length (tail s) ≤ length s
length-tail [] = omega arith
length-tail (c ∷ s) = omega arith

strtok_split :
    (set s u : Text) → after_span set s ≡ u → Begins set u → StrtokSpec set s (strtok set s)
unfolding strtok
strtok_split set s [] e b =
    rw e (rw (← span-append-after set s) (rw (e, append-nil) (span-AllIn set s)))
strtok_split set s (c ∷ u) e b = rw e (record {
  front = span set s;
  first = c;
  more = word set u;
  after = after_word set u;
  is_token = word_here;
  whole = whole;
  front_AllIn = span-AllIn set s;
  clean = (b, word-NoneIn set u);
  stops = after_word-Stops set u;
  left = ap tail after_here;
  shorter = shorter;
})
  where
    word_here : word set (c ∷ u) ≡ c ∷ word set u
    word_here = unfold word in ground arith

    after_here : after_word set (c ∷ u) ≡ after_word set u
    after_here = unfold after_word in ground arith

    whole : s ≡ span set s ++ ((c ∷ word set u) ++ after_word set u)
    whole =
        sym (span-append-after set s)
        ∙ ap (◌++◌ (span set s)) (e ∙ ap (◌∷◌ c) (sym (word-append-after set u)))

    shorter : length (tail (after_word set (c ∷ u))) < length s
    shorter = rw after_here (
        omega (
          arith,
          ap length whole,
          length-append (span set s) ((c ∷ word set u) ++ after_word set u),
          length-append (word set u) (after_word set u),
          length-tail (after_word set u),
        ))

strtok-Spec : (set s : Text) → StrtokSpec set s (strtok set s)
strtok-Spec set s = strtok_split set s _ refl (after_span-Begins set s)

-- What the loop of str_split returns: the array it was given and the tokens, within its length.
abbrev Splits : Text → Text → List Text → Option (ℕ × List Text) → Type 0
Splits set s arr none = ⊥
Splits set s arr (some (len, all)) =
    (ts : List Text) × (all ≡ arr ++ ts) × (0 < len) × (length all ≤ len) × IsTokens set s ts

Splits-next :
    (set s t rest : Text) (arr : List Text) (r : Option (ℕ × List Text))
    → Found set s t rest
    → Splits set rest (arr ++ t ∷ []) r
    → Splits set s arr r
Splits-next set s t rest arr none f h = h
Splits-next set s t rest arr (some (len, all)) f (ts, e, p, q, k) = (
  (f.first ∷ f.more) ∷ ts,
  e ∙ append_assoc arr (t ∷ []) ts ∙ ap (λ x. arr ++ x ∷ ts) f.is_token,
  p,
  q,
  next f.front f.first f.more f.whole f.front_AllIn f.clean f.stops
      (IsTokens-cons set f.after ts f.stops (subst (λ x. IsTokens set x ts) f.left k)),
)

grown : List Text → ℕ → ℕ
grown arr len = if leb len (length arr) then len * 2 else len

-- One round of the loop, from what the later rounds do.
round-Splits :
    (set s : Text) (len : ℕ) (arr : List Text) (r : Option (Text × Text))
    → (later : (rest : Text) → ℕ → List Text → Option (ℕ × List Text))
    → ((rest : Text) (n : ℕ) (arr' : List Text)
        → length rest < length s
        → 0 < n
        → length arr' ≤ n
        → Splits set rest arr' (later rest n arr'))
    → 0 < len
    → length arr ≤ len
    → StrtokSpec set s r
    → Splits set s arr (elim r [
      | none ↦ some (len, arr)
      | some (token, rest) ↦
          let len' = if leb len (length arr) then len * 2 else len in
          (store len' arr token >>= λ arr'. later rest len' arr')
    ])
unfolding grown
round-Splits set s len arr none later ih p q a = ([], sym (append-nil arr), p, q, over a)
round-Splits set s len arr (some (t, rest)) later ih p q f =
    let room : ltb (length arr) (grown arr len) ≡ true = ground arith in
    unfold store in
    rw room (
      Splits-next set s t rest arr _ f (
        ih rest (grown arr len) (arr ++ t ∷ []) f.shorter (ground arith)
          (ground (arith, length-append arr (t ∷ [])))))

str_split_loop-Splits :
    (fuel : ℕ) (set s : Text) (len : ℕ) (arr : List Text)
    → length s < fuel
    → 0 < len
    → length arr ≤ len
    → Splits set s arr (str_split_loop fuel set s len arr)
unfolding str_split_loop
str_split_loop-Splits zero set s len arr h p q = elim h [ ]
str_split_loop-Splits (suc fuel) set s len arr h p q =
    round-Splits set s len arr (strtok set s) (str_split_loop fuel set)
      (λ rest n arr' l. str_split_loop-Splits fuel set rest n arr' (omega arith)) p q
      (strtok-Spec set s)

-- What str_split returns.
abbrev pub ReturnsTokens : Text → Text → Option (Option (List Text)) → Type 0
ReturnsTokens set s none = ⊥
ReturnsTokens set s (some none) = ⊥
ReturnsTokens set s (some (some ts)) = IsTokens set s ts

close_array-ReturnsTokens :
    (set s : Text) (r : Option (ℕ × List Text))
    → Splits set s [] r
    → ReturnsTokens set s (r >>= λ p. close_array p >>= λ arr. some (some arr))
unfolding close_array
close_array-ReturnsTokens set s none h = h
close_array-ReturnsTokens set s (some (len, all)) (ts, e, p, q, k) =
    let room : ltb (length all) (if leb len (length all) then len + 1 else len) ≡ true =
      ground arith in
    rw room (rw e k)

-- str_split of a string writes inside its array, ends, and returns the tokens of the string: the
-- maximal runs without a delimiter, in order, none of them empty.
pub str_split-ReturnsTokens :
    (delim str : Text) → ReturnsTokens delim str (str_split (some str) delim)
unfolding str_split
str_split-ReturnsTokens delim str = close_array-ReturnsTokens delim str _ (
    str_split_loop-Splits (length str + 1) delim str 64 [] (omega arith) (omega arith)
      (omega arith))
