-- ===== src/Config/Rows.antt =====
-- common/properties_config.cpp: what the loop does with one line, by the kinds of lines.
use mathlib.Core.List.{append_assoc, append-nil, reverse-append}
use hoststack.Prelude.{
  ℕ, ◌≡◌, ◌≢◌, refl, sym, ap, ◌∙◌, subst, true, false, Option, none, some, [], ◌∷◌, ◌++◌, reverse,
  ◌==◌, arith, All-append,
}
use hoststack.Prelude.Text.{Text}
use hoststack.Outcome.{ok, undefined}
use hoststack.Libc.{
  strchr, strtok, after_span, AllIn, NoneIn, Begins, after_span_none, after_span-AllIn, word-append,
  after_word-append, word_self, after_word_self,
}
use hoststack.Strings.Trim.{trim, blanks}
use hoststack.Strings.Trim.Ends.{
  Begins-append, reverse-ne-nil, Clean, trim_padded, Trimmed, trim-Trimmed, TrimsTo,
  after_span-append,
}
use hoststack.Config.{
  Properties, insert, equals, insert_pair, split_pair, trimmed_line, load_line, value_of,
}

-- A line key=value, with blanks around both.
pub record Entry : Type 0 where
  pub before_key : Text
  pub key : Text
  pub after_key : Text
  pub before_value : Text
  pub value : Text
  pub after_value : Text

abbrev pub inner : Entry → Text
inner e = e.key ++ (e.after_key ++ (b'=' ∷ (e.before_value ++ e.value)))

abbrev pub entry_bytes : Entry → Text
entry_bytes e = e.before_key ++ (inner e ++ e.after_value)

pub record IsEntry (e : Entry) : Type 0 where
  pub key_clean : Clean blanks e.key
  pub value_clean : Clean blanks e.value
  pub key_equals : NoneIn equals e.key
  pub value_equals : NoneIn equals e.value
  pub no_comment : Begins (b'#' ∷ []) e.key
  pub before_key_blank : AllIn blanks e.before_key
  pub after_key_blank : AllIn blanks e.after_key
  pub before_value_blank : AllIn blanks e.before_value
  pub after_value_blank : AllIn blanks e.after_value

not_equals : (c : ℕ) → strchr blanks c ≡ true → strchr equals c ≡ false
unfolding strchr
not_equals c h = ground arith

NoneIn-of_blank : (s : Text) → AllIn blanks s → NoneIn equals s
NoneIn-of_blank [] h = tt
NoneIn-of_blank (c ∷ s) h = (not_equals c h.0, NoneIn-of_blank s h.1)

NoneIn-append : (set s t : Text) → NoneIn set s → NoneIn set t → NoneIn set (s ++ t)
NoneIn-append set s t hs ht = All-append (λ c. strchr set c ≡ false) s t hs ht

NoneIn-Begins : (set s : Text) → NoneIn set s → Begins set s
NoneIn-Begins set [] h = tt
NoneIn-Begins set (c ∷ s) h = h.0

append-ne-nil : (s t : Text) → t ≢ [] → s ++ t ≢ []
append-ne-nil [] t ne e = ne e
append-ne-nil (c ∷ s) t ne e = cc

-- The token in front of a delimiter, and that of a text without one.
strtok-append :
    (set s : Text) (d : ℕ) (t : Text)
    → s ≢ []
    → NoneIn set s
    → strchr set d ≡ true
    → strtok set (s ++ d ∷ t) ≡ some (s, t)
unfolding strtok
strtok-append set [] d t ne h b = absurd (ne refl)
strtok-append set (c ∷ s) d t ne h b =
    rw (after_span_none set (c ∷ (s ++ d ∷ t)) h.0)
      (rw (word-append set (c ∷ s) d t h b, after_word-append set (c ∷ s) d t h b) refl)

strtok_whole : (set s : Text) → s ≢ [] → NoneIn set s → strtok set s ≡ some (s, [])
unfolding strtok
strtok_whole set [] ne h = absurd (ne refl)
strtok_whole set (c ∷ s) ne h =
    rw (after_span_none set (c ∷ s) h.0)
      (rw (word_self set (c ∷ s) h, after_word_self set (c ∷ s) h) refl)

left_nil : (s t : Text) → s ++ t ≡ [] → s ≡ []
left_nil [] t n = refl
left_nil (c ∷ s) t n = cc

other : (c : ℕ) → strchr (b'#' ∷ []) c ≡ false → (c == b'#') ≡ false
unfolding strchr
other c h = ground arith

not_comment :
    (s : Text)
    → s ≢ []
    → Begins (b'#' ∷ []) s
    → (map : Properties) → trimmed_line (some s) map ≡ split_pair (strtok equals s) map
not_comment [] ne b map = absurd (ne refl)
not_comment (c ∷ s) ne b map = rw (other c b) refl

module _ (e : Entry) (h : IsEntry e) where
  inner-Clean : Clean blanks (inner e)
  inner-Clean = record {
    some_byte = λ n. h.key_clean.some_byte (left_nil e.key _ n);
    begins = Begins-append blanks e.key _ h.key_clean.some_byte h.key_clean.begins;
    ends = ends;
  }
    where
      flat : inner e ≡ (e.key ++ (e.after_key ++ (b'=' ∷ e.before_value))) ++ e.value
      flat = simp append_assoc

      reversed :
          reverse (inner e)
          ≡ reverse e.value ++ reverse (e.key ++ (e.after_key ++ (b'=' ∷ e.before_value)))
      reversed =
          ap reverse flat
          ∙ reverse-append (e.key ++ (e.after_key ++ (b'=' ∷ e.before_value))) e.value

      ends : Begins blanks (reverse (inner e))
      ends = subst (Begins blanks) (sym reversed) (
          Begins-append blanks (reverse e.value) _ (reverse-ne-nil e.value h.value_clean.some_byte)
            h.value_clean.ends)

  key_token : strtok equals (inner e) ≡ some (e.key ++ e.after_key, e.before_value ++ e.value)
  unfolding strchr
  key_token =
      ap (strtok equals) (sym (append_assoc e.key e.after_key _))
      ∙ strtok-append equals (e.key ++ e.after_key) b'=' (e.before_value ++ e.value)
          (λ n. h.key_clean.some_byte (left_nil e.key e.after_key n))
          (NoneIn-append equals e.key e.after_key h.key_equals
            (NoneIn-of_blank e.after_key h.after_key_blank))
          refl

  value_token : strtok equals (e.before_value ++ e.value) ≡ some (e.before_value ++ e.value, [])
  value_token =
      strtok_whole equals (e.before_value ++ e.value)
        (append-ne-nil e.before_value e.value h.value_clean.some_byte)
        (NoneIn-append equals e.before_value e.value
          (NoneIn-of_blank e.before_value h.before_value_blank) h.value_equals)

  split_entry :
      (map : Properties) → split_pair (strtok equals (inner e)) map ≡ ok (insert e.key e.value map)
  split_entry map =
      ap (λ t. split_pair t map) key_token
      ∙ ap (λ t. insert_pair (trim (some (e.key ++ e.after_key)) none) (trim (value_of t) none) map)
          value_token
      ∙ ap (λ t. insert_pair t (trim (some (e.before_value ++ e.value)) none) map)
          (trim_padded [] e.key e.after_key tt h.after_key_blank h.key_clean)
      ∙ ap (λ t. insert_pair (some e.key) t map)
          (ap (λ t. trim (some (e.before_value ++ t)) none) (sym (append-nil e.value))
            ∙ trim_padded e.before_value e.value [] h.before_value_blank tt h.value_clean)

  pub load_entry :
      (map : Properties) → load_line (entry_bytes e) map ≡ ok (insert e.key e.value map)
  unfolding load_line
  load_entry map =
      ap (λ t. trimmed_line t map)
        (trim_padded e.before_key (inner e) e.after_value h.before_key_blank h.after_value_blank
          inner-Clean)
      ∙ not_comment (inner e) inner-Clean.some_byte
          (Begins-append (b'#' ∷ []) e.key _ h.key_clean.some_byte h.no_comment) map
      ∙ split_entry map

-- What trim leaves begins where the leading blanks end.
after_span_cut :
    (s t : Text) (c : ℕ) (cut : Trimmed blanks s (c ∷ t))
    → after_span blanks s ≡ c ∷ (t ++ cut.back)
after_span_cut s t c cut =
    ap (after_span blanks) cut.whole
    ∙ after_span-append blanks cut.front (c ∷ (t ++ cut.back)) cut.front_AllIn cut.begins

-- A comment, and a line of blanks.
pub load_comment :
    (pad text : Text) (map : Properties)
    → AllIn blanks pad
    → load_line (pad ++ b'#' ∷ text) map ≡ ok map
unfolding load_line strchr
load_comment pad text map h =
    go (trim (some (pad ++ b'#' ∷ text)) none) (trim-Trimmed (pad ++ b'#' ∷ text) none)
  where
    hash : (c : ℕ) (t : Text) → b'#' ∷ text ≡ c ∷ t → (c == b'#') ≡ true
    hash c t e = ground arith

    go : (o : Option Text) → TrimsTo blanks (pad ++ b'#' ∷ text) o → trimmed_line o map ≡ ok map
    go none cut = absurd cut
    go (some []) cut = refl
    go (some (c ∷ t)) cut =
        rw
          (hash c (t ++ cut.back) (
            sym (after_span-append blanks pad (b'#' ∷ text) h refl)
            ∙ after_span_cut (pad ++ b'#' ∷ text) t c cut))
          refl

pub load_blank : (s : Text) (map : Properties) → AllIn blanks s → load_line s map ≡ ok map
unfolding load_line
load_blank s map h = go (trim (some s) none) (trim-Trimmed s none)
  where
    nothing : (c : ℕ) (t : Text) → [] ≡ c ∷ t → ⊥
    nothing c t e = cc

    go : (o : Option Text) → TrimsTo blanks s o → trimmed_line o map ≡ ok map
    go none cut = absurd cut
    go (some []) cut = refl
    go (some (c ∷ t)) cut =
        absurd
          (nothing c (t ++ cut.back) (sym (after_span-AllIn blanks s h) ∙ after_span_cut s t c cut))

-- A line that is no comment and has no equals sign.
pub load_bare :
    (front s back : Text) (map : Properties)
    → AllIn blanks front
    → AllIn blanks back
    → Clean blanks s
    → NoneIn equals s
    → Begins (b'#' ∷ []) s
    → load_line (front ++ (s ++ back)) map ≡ undefined
unfolding load_line strtok after_span trim
load_bare front s back map hf hb c h n =
    ap (λ t. trimmed_line t map) (trim_padded front s back hf hb c)
    ∙ not_comment s c.some_byte n map
    ∙ ap (λ t. split_pair t map) (strtok_whole equals s c.some_byte h)
    ∙ ap (λ t. insert_pair (trim (some t) none) (trim none none) map) (sym (append-nil s))
    ∙ ap (λ t. insert_pair t (trim none none) map) (trim_padded [] s [] tt tt c)
