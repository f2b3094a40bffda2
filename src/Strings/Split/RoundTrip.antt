-- ===== src/Strings/Split/RoundTrip.antt =====
-- util: the command of a container is stored by array_join (cli/container_run_cli.cpp) and taken
-- apart again by str_split (cli/container_start_cli.cpp).
use mathlib.Core.List.{append_assoc}
use hoststack.Prelude.{
  ℕ, ◌≡◌, refl, sym, ap, ◌∙◌, ◌≢◌, true, false, Option, none, some, List, [], ◌∷◌, ◌++◌, arith,
  ◌==◌, All,
}
use hoststack.Prelude.Text.{Text}
use hoststack.Libc.{strchr, after_span, word, after_word, AllIn, NoneIn}
use hoststack.Strings.Trim.{blanks}
use hoststack.Strings.Join.{array_join, total_length}
use hoststack.Strings.Join.Contents.{join, append_all, array_join-eq-join}
use hoststack.Strings.Split.{str_split}
use hoststack.Strings.Split.Tokens.{
  IsTokens, over, next, Stops, ReturnsTokens, str_split-ReturnsTokens,
}

after_span-append : (set d s : Text) → AllIn set d → after_span set (d ++ s) ≡ after_span set s
unfolding after_span
after_span-append set [] s h = refl
after_span-append set (c ∷ d) s h = ground (arith, after_span-append set d s h.1)

after_span_word :
    (set : Text) (c : ℕ) (t r : Text)
    → NoneIn set (c ∷ t)
    → after_span set ((c ∷ t) ++ r) ≡ (c ∷ t) ++ r
unfolding after_span
after_span_word set c t r h = ground arith

word-Stops : (set s r : Text) → NoneIn set s → Stops set r → word set (s ++ r) ≡ s
unfolding word
word-Stops set [] [] h k = refl
word-Stops set [] (x ∷ r) h k = ground arith
word-Stops set (c ∷ s) r h k = ground (arith, word-Stops set s r h.1 k)

after_word-Stops_lem : (set s r : Text) → NoneIn set s → Stops set r → after_word set (s ++ r) ≡ r
unfolding after_word
after_word-Stops_lem set [] [] h k = refl
after_word-Stops_lem set [] (x ∷ r) h k = ground arith
after_word-Stops_lem set (c ∷ s) r h k = ground (arith, after_word-Stops_lem set s r h.1 k)

after_span_all : (set s : Text) → AllIn set s → after_span set s ≡ []
unfolding after_span
after_span_all set [] h = refl
after_span_all set (c ∷ s) h = ground (arith, after_span_all set s h.1)

-- The first token and what the others are the tokens of, by the span functions.
abbrev Head : Text → Text → List Text → Type 0
Head set s [] = after_span set s ≡ []
Head set s (t ∷ ts) =
    (t ≢ [])
    × (word set (after_span set s) ≡ t)
    × IsTokens set (after_word set (after_span set s)) ts

IsTokens-Head : {set s : Text} {ts : List Text} → IsTokens set s ts → Head set s ts
IsTokens-Head {set} {s} (over a) = after_span_all set s a
IsTokens-Head {set} {s} (next {r = r} {ts = ts} d c t e a n p k) =
    let start : after_span set s ≡ (c ∷ t) ++ r =
      ap (after_span set) e
      ∙ after_span-append set d ((c ∷ t) ++ r) a
      ∙ after_span_word set c t r n in
    (
      (λ x. cc),
      rw start (word-Stops set (c ∷ t) r n p),
      rw start (rw (after_word-Stops_lem set (c ∷ t) r n p) k),
    )

-- A text has one list of tokens.
IsTokens-unique :
    (set s : Text) (ts us : List Text) → IsTokens set s ts → IsTokens set s us → ts ≡ us
IsTokens-unique set s [] [] h k = refl
IsTokens-unique set s [] (u ∷ us) h k =
    let (n, e, m) = IsTokens-Head k in
    absurd (n (sym e ∙ ap (word set) (IsTokens-Head h) ∙ word_nil set))
  where
    word_nil : (set : Text) → word set [] ≡ []
    word_nil set = unfold word in refl
IsTokens-unique set s (t ∷ ts) [] h k =
    let (n, e, m) = IsTokens-Head h in
    absurd (n (sym e ∙ ap (word set) (IsTokens-Head k) ∙ word_nil set))
  where
    word_nil : (set : Text) → word set [] ≡ []
    word_nil set = unfold word in refl
IsTokens-unique set s (t ∷ ts) (u ∷ us) h k =
    let (n, e, m) = IsTokens-Head h in
    let (n', e', m') = IsTokens-Head k in
    let same : ts ≡ us = IsTokens-unique set (after_word set (after_span set s)) ts us m m' in
    let first : t ≡ u = sym e ∙ e' in cc

-- A word of a command line: not empty, and without a delimiter.
abbrev pub IsWord : Text → Text → Type 0
IsWord set [] = ⊥
IsWord set (c ∷ t) = NoneIn set (c ∷ t)

module _ (set : Text) (b : ℕ) (blank : strchr set b ≡ true) where
  append_all-IsTokens :
      (args : List Text)
      → All (IsWord set) args
      → IsTokens set (append_all (b ∷ []) args) args × Stops set (append_all (b ∷ []) args)
  append_all-IsTokens [] h = (over tt, tt)
  append_all-IsTokens ([] ∷ args) h = absurd h.0
  append_all-IsTokens ((c ∷ t) ∷ args) h =
      let (k, p) = append_all-IsTokens args h.1 in
      (next (b ∷ []) c t refl (blank, tt) h.0 p k, blank)

  join-IsTokens :
      (args : List Text) → All (IsWord set) args → IsTokens set (join (b ∷ []) args) args
  join-IsTokens [] h = over tt
  join-IsTokens ([] ∷ args) h = absurd h.0
  join-IsTokens ((c ∷ t) ∷ args) h =
      let (k, p) = append_all-IsTokens args h.1 in next [] c t refl tt h.0 p k

split_tokens :
    (set s : Text) (ts : List Text) (r : Option (Option (List Text)))
    → ReturnsTokens set s r
    → IsTokens set s ts
    → r ≡ some (some ts)
split_tokens set s ts none h k = absurd h
split_tokens set s ts (some none) h k = absurd h
split_tokens set s ts (some (some us)) h k = cc (IsTokens-unique set s us ts h k)

abbrev pub space : Text
space = b' ' ∷ []

total_length_pos :
    (a : Text) (args : List Text) → IsWord blanks a → (total_length (a ∷ args) == 0) ≡ false
unfolding total_length
total_length_pos [] args h = absurd h
total_length_pos (c ∷ t) args h = ground arith

-- A command whose arguments are words, none empty and none with a blank in it, comes back from the
-- string that it is stored as.
pub str_split-array_join :
    (arg : Text) (args : List Text)
    → All (IsWord blanks) (arg ∷ args)
    → (s : Text) × (array_join (arg ∷ args) space ≡ some (some s))
      × (str_split (some s) blanks ≡ some (some (arg ∷ args)))
str_split-array_join arg args h = (
  join space (arg ∷ args),
  array_join-eq-join (arg ∷ args) space ∙ rw (total_length_pos arg args h.0),
  split_tokens blanks _ (arg ∷ args) _ (str_split-ReturnsTokens blanks _)
      (join-IsTokens blanks b' ' (unfold strchr in refl) (arg ∷ args) h),
)

-- A blank inside an argument splits it in two: `a b` comes back as `a` and `b`.
pub str_split-array_join_blank :
    (a b : Text)
    → IsWord blanks a
    → IsWord blanks b
    → str_split (some (join space ((a ++ (b' ' ∷ b)) ∷ []))) blanks ≡ some (some (a ∷ b ∷ []))
str_split-array_join_blank a b h k =
    split_tokens blanks _ (a ∷ b ∷ []) _ (str_split-ReturnsTokens blanks _) (
      rw (append_assoc a (b' ' ∷ b) [])
        (join-IsTokens blanks b' ' (unfold strchr in refl) (a ∷ b ∷ []) (h, (k, tt))))
