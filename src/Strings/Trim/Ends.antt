-- ===== src/Strings/Trim/Ends.antt =====
-- common/usg_common.cpp: what ltrim, rtrim and trim leave of a string.
use mathlib.Core.List.{reverse-cons, reverse-append, reverse-reverse, append_assoc}
use hoststack.Prelude.{
  ℕ, suc, ◌≡◌, refl, sym, ap, ◌∙◌, subst, true, Option, none, some, [], ◌∷◌, ◌++◌, reverse, arith,
  length, length-append, get_or, take, drop, All-append, ◌≢◌,
}
use hoststack.Prelude.Text.{Text}
use hoststack.Libc.{
  strchr, span, after_span, AllIn, Begins, span-append-after, span-AllIn, after_span-Begins,
  after_span_none,
}
use hoststack.Strings.Trim.{ltrim_bytes, ltrim, rtrim_loop, rtrim, trim, or_blanks, blanks}

drop-length_append : (s t : Text) → drop (length s) (s ++ t) ≡ t
drop-length_append [] t = refl
drop-length_append (x ∷ s) t = drop-length_append s t

take-length_append : (s t : Text) → take (length s) (s ++ t) ≡ s
take-length_append [] t = refl
take-length_append (x ∷ s) t = ap (◌∷◌ x) (take-length_append s t)

get_or-length_append : (s t : Text) (c : ℕ) → get_or (s ++ c ∷ t) (length s) 0 ≡ c
get_or-length_append [] t c = refl
get_or-length_append (x ∷ s) t c = get_or-length_append s t c

length-reverse : (s : Text) → length (reverse s) ≡ length s
length-reverse [] = refl
length-reverse (x ∷ s) =
    omega
      (arith, ap length (reverse-cons x s), length-append (reverse s) (x ∷ []), length-reverse s)

empty_of_length : (s : Text) → length s ≡ 0 → s ≡ []
empty_of_length [] h = refl
empty_of_length (x ∷ s) h = absurd (omega arith)

-- ltrim removes the leading separators.
pub ltrim_bytes_lem : (seps s : Text) → ltrim_bytes seps s ≡ after_span seps s
unfolding ltrim_bytes
ltrim_bytes_lem seps s = ground (
  arith,
  span-append-after seps s,
  length-append (span seps s) (after_span seps s),
  drop-length_append (span seps s) (after_span seps s),
  empty_of_length (span seps s),
  empty_of_length (after_span seps s),
)

rtrim_reversed :
    (seps r : Text) → rtrim_loop seps (length (reverse r)) (reverse r) ≡ reverse (after_span seps r)
unfolding rtrim_loop after_span
rtrim_reversed seps [] = refl
rtrim_reversed seps (c ∷ r) = rw (reverse-cons c r) (
    rw (last_length (reverse r) c) (
      rw (get_or-length_append (reverse r) [] c, take-length_append (reverse r) (c ∷ []))
        (ground (arith, rtrim_reversed seps r, reverse-cons c r))))
  where
    last_length : (s : Text) (x : ℕ) → length (s ++ x ∷ []) ≡ suc (length s)
    last_length s x = omega (arith, length-append s (x ∷ []))

-- rtrim removes the trailing separators.
pub rtrim_lem :
    (seps s : Text) → rtrim_loop seps (length s) s ≡ reverse (after_span seps (reverse s))
rtrim_lem seps s =
    subst (λ t. rtrim_loop seps (length t) t ≡ reverse (after_span seps (reverse s)))
      (reverse-reverse s) (rtrim_reversed seps (reverse s))

Begins-prefix : (seps s t : Text) → Begins seps (s ++ t) → Begins seps s
Begins-prefix seps [] t h = tt
Begins-prefix seps (c ∷ s) t h = h

AllIn-reverse : (seps s : Text) → AllIn seps s → AllIn seps (reverse s)
AllIn-reverse seps [] h = tt
AllIn-reverse seps (c ∷ s) h = rw (reverse-cons c s) (
    All-append (λ x. strchr seps x ≡ true) (reverse s) (c ∷ []) (AllIn-reverse seps s h.1)
      (h.0, tt))

-- What is left of a text when its ends are cut: separators on both sides, and no separator at
-- either end of what stays.
pub record Trimmed (seps s t : Text) : Type 0 where
  pub front : Text
  pub back : Text
  pub whole : s ≡ front ++ (t ++ back)
  pub front_AllIn : AllIn seps front
  pub back_AllIn : AllIn seps back
  pub begins : Begins seps t
  pub ends : Begins seps (reverse t)

-- The two cuts, each by its own reference.
cut_both : Text → Text → Text
cut_both seps s = after_span seps (reverse (after_span seps (reverse s)))

cut_both-Trimmed : (seps s : Text) → Trimmed seps s (cut_both seps s)
unfolding cut_both
cut_both-Trimmed seps s = record {
  front = span seps kept;
  back = reverse (span seps (reverse s));
  whole = whole;
  front_AllIn = span-AllIn seps kept;
  back_AllIn = AllIn-reverse seps _ (span-AllIn seps (reverse s));
  begins = after_span-Begins seps kept;
  ends = Begins-prefix seps _ (reverse (span seps kept)) ends;
}
  where
    kept : Text
    kept = reverse (after_span seps (reverse s))

    split : s ≡ kept ++ reverse (span seps (reverse s))
    split =
        sym (reverse-reverse s)
        ∙ ap reverse (sym (span-append-after seps (reverse s)))
        ∙ reverse-append (span seps (reverse s)) (after_span seps (reverse s))

    whole : s ≡ span seps kept ++ (after_span seps kept ++ reverse (span seps (reverse s)))
    whole =
        split
        ∙ ap (λ t. t ++ reverse (span seps (reverse s))) (sym (span-append-after seps kept))
        ∙ append_assoc (span seps kept) (after_span seps kept) _

    ends : Begins seps (reverse (after_span seps kept) ++ reverse (span seps kept))
    ends = rw (← reverse-append (span seps kept) (after_span seps kept)) (
        rw (span-append-after seps kept, reverse-reverse (after_span seps (reverse s)))
          (after_span-Begins seps (reverse s)))

abbrev pub TrimsTo : Text → Text → Option Text → Type 0
TrimsTo seps s none = ⊥
TrimsTo seps s (some t) = Trimmed seps s t

-- trim of a string cuts separators from both its ends and nothing else, and what it leaves neither
-- begins nor ends with a separator; a null set of separators means the six blanks.
pub trim-Trimmed : (s : Text) (seps : Option Text) → TrimsTo (or_blanks seps) s (trim (some s) seps)
unfolding trim ltrim rtrim cut_both
trim-Trimmed s seps = rw (rtrim_lem (or_blanks seps) s) (
    rw (ltrim_bytes_lem (or_blanks seps) (reverse (after_span (or_blanks seps) (reverse s))))
      (cut_both-Trimmed (or_blanks seps) s))

pub after_span-append :
    (seps s t : Text) → AllIn seps s → Begins seps t → after_span seps (s ++ t) ≡ t
unfolding after_span
after_span-append seps [] t h b = after_span_none seps t b
after_span-append seps (c ∷ s) t h b = ground (arith, after_span-append seps s t h.1 b)

pub Begins-append : (seps s t : Text) → s ≢ [] → Begins seps s → Begins seps (s ++ t)
Begins-append seps [] t ne b = absurd (ne refl)
Begins-append seps (c ∷ s) t ne b = b

-- A text that is not empty, with no separator at either end.
pub record Clean (seps s : Text) : Type 0 where
  pub some_byte : s ≢ []
  pub begins : Begins seps s
  pub ends : Begins seps (reverse s)

pub reverse-ne-nil : (s : Text) → s ≢ [] → reverse s ≢ []
reverse-ne-nil s ne e = ne (sym (reverse-reverse s) ∙ ap reverse e)

-- trim takes the separators off again that a clean text is put between.
pub trim_padded :
    (front s back : Text)
    → AllIn blanks front
    → AllIn blanks back
    → Clean blanks s
    → trim (some (front ++ (s ++ back))) none ≡ some s
unfolding trim ltrim rtrim
trim_padded front s back hf hb c = rw (rtrim_lem blanks (front ++ (s ++ back))) (
    rw (ltrim_bytes_lem blanks (reverse (after_span blanks (reverse (front ++ (s ++ back)))))) (
      ap some (
        ap (λ t. after_span blanks (reverse (after_span blanks t))) reversed
        ∙ ap (λ t. after_span blanks (reverse t))
            (after_span-append blanks (reverse back) (reverse s ++ reverse front)
              (AllIn-reverse blanks back hb)
              (Begins-append blanks (reverse s) (reverse front) (reverse-ne-nil s c.some_byte)
                c.ends))
        ∙ ap (after_span blanks) back_again
        ∙ after_span-append blanks front s hf c.begins)))
  where
    reversed : reverse (front ++ (s ++ back)) ≡ reverse back ++ (reverse s ++ reverse front)
    reversed =
        reverse-append front (s ++ back)
        ∙ ap (λ t. t ++ reverse front) (reverse-append s back)
        ∙ append_assoc (reverse back) (reverse s) (reverse front)

    back_again : reverse (reverse s ++ reverse front) ≡ front ++ s
    back_again = ap reverse (sym (reverse-append front s)) ∙ reverse-reverse (front ++ s)
