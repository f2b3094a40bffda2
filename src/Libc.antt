-- ===== src/Libc.antt =====
-- The functions of the C library on strings that the code calls. A string is the list of its bytes
-- up to the terminator, so that no byte of it is 0.
use hoststack.Prelude.{
  ℕ, ◌≡◌, refl, Bool, true, false, ◌&&◌, ◌||◌, Option, none, some, [], ◌∷◌, ◌++◌, arith, ◌==◌,
  if◌then◌else◌, All,
}
use hoststack.Prelude.Text.{Text}

-- strchr(set, c) != NULL for a byte of a string
unfoldable pub strchr : Text → ℕ → Bool
strchr [] c = false
strchr (x ∷ xs) c = (x == c) || strchr xs c

-- The bytes that `strspn(s, set)` counts, and what follows them.
unfoldable pub span : Text → Text → Text
span set [] = []
span set (c ∷ s) = if strchr set c then c ∷ span set s else []

unfoldable pub after_span : Text → Text → Text
after_span set [] = []
after_span set (c ∷ s) = if strchr set c then after_span set s else c ∷ s

-- The bytes that `strcspn(s, set)` counts, and what follows them.
unfoldable pub word : Text → Text → Text
word set [] = []
word set (c ∷ s) = if strchr set c then [] else c ∷ word set s

unfoldable pub after_word : Text → Text → Text
after_word set [] = []
after_word set (c ∷ s) = if strchr set c then c ∷ s else after_word set s

abbrev pub tail : Text → Text
tail [] = []
tail (c ∷ s) = s

abbrev token : Text → Text → Option (Text × Text)
token set [] = none
token set (c ∷ s) = some (word set (c ∷ s), tail (after_word set (c ∷ s)))

-- strtok: the next token of what is left, and what is left behind its delimiter.
unfoldable pub strtok : Text → Text → Option (Text × Text)
strtok set s = token set (after_span set s)

-- strncmp(s, t, strlen(t)) == 0
unfoldable pub starts_with : Text → Text → Bool
starts_with s [] = true
starts_with [] (y ∷ ys) = false
starts_with (x ∷ xs) (y ∷ ys) = (x == y) && starts_with xs ys

-- Every byte of a text lies in the set, or none does.
abbrev pub AllIn : Text → Text → Type 0
AllIn set = All (λ c. strchr set c ≡ true)

abbrev pub NoneIn : Text → Text → Type 0
NoneIn set = All (λ c. strchr set c ≡ false)

pub span-append-after : (set s : Text) → span set s ++ after_span set s ≡ s
unfolding span after_span
span-append-after set [] = refl
span-append-after set (c ∷ s) = ground (arith, span-append-after set s)

pub span-AllIn : (set s : Text) → AllIn set (span set s)
unfolding span
span-AllIn set [] = tt
span-AllIn set (c ∷ s) = ground (arith, span-AllIn set s)

-- A text of delimiters alone has nothing behind its span.
pub after_span-AllIn : (set s : Text) → AllIn set s → after_span set s ≡ []
unfolding after_span
after_span-AllIn set [] h = refl
after_span-AllIn set (c ∷ s) h = ground (arith, after_span-AllIn set s h.1)

-- What follows a span does not begin with a byte of the set.
abbrev pub Begins : Text → Text → Type 0
Begins set [] = Unit
Begins set (c ∷ s) = strchr set c ≡ false

pub after_span-Begins : (set s : Text) → Begins set (after_span set s)
unfolding after_span
after_span-Begins set [] = tt
after_span-Begins set (c ∷ s) = ground (arith, after_span-Begins set s)

pub after_span_none : (set s : Text) → Begins set s → after_span set s ≡ s
unfolding after_span
after_span_none set [] h = refl
after_span_none set (c ∷ s) h = ground arith

-- A word without delimiters is read whole, up to a delimiter behind it or the end.
pub word-append :
    (set s : Text) (c : ℕ) (t : Text)
    → NoneIn set s
    → strchr set c ≡ true
    → word set (s ++ c ∷ t) ≡ s
unfolding word
word-append set [] c t h d = ground arith
word-append set (x ∷ s) c t h d = ground (arith, word-append set s c t h.1 d)

pub after_word-append :
    (set s : Text) (c : ℕ) (t : Text)
    → NoneIn set s
    → strchr set c ≡ true
    → after_word set (s ++ c ∷ t) ≡ c ∷ t
unfolding after_word
after_word-append set [] c t h d = ground arith
after_word-append set (x ∷ s) c t h d = ground (arith, after_word-append set s c t h.1 d)

pub word_self : (set s : Text) → NoneIn set s → word set s ≡ s
unfolding word
word_self set [] h = refl
word_self set (x ∷ s) h = ground (arith, word_self set s h.1)

pub after_word_self : (set s : Text) → NoneIn set s → after_word set s ≡ []
unfolding after_word
after_word_self set [] h = refl
after_word_self set (x ∷ s) h = ground (arith, after_word_self set s h.1)
