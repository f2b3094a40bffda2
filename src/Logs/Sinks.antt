-- ===== src/Logs/Sinks.antt =====
-- common/logger.cpp: what a sequence of messages leaves in the files and on the console.
use mathlib.Core.List.{append_assoc, append-nil}
use hoststack.Prelude.{
  ◌<◌, ◌≤◌, ◌≡◌, refl, sym, ap, ◌∙◌, Bool, true, false, Option, none, some, List, [], ◌∷◌, ◌++◌, ℤ,
  pos, if◌then◌else◌, length, Bool-cases, inl, inr, All, subst,
}
use hoststack.Prelude.Text.{Text, codes, text_eq}
use hoststack.Strings.Buffer.{Buffer}
use hoststack.Logs.{
  maxbuf, Level, all, debug, info, warn, error, fatal, off, rank, strlevel, int_lt, Logger, Journal,
  Logged, logged, aborted, undefined, Clock, puts_file, puts_console, put_line, prefix_of,
  error_text, leveled, dolog, log_at,
}
use hoststack.Logs.Lines.{limit, whole, logger_line_short}

pub record Message : Type 0 where
  pub level : Level
  pub err : ℤ
  pub body : Text

abbrev pub name : Level → Text
name all = codes "ALL"
name debug = codes "DEBUG"
name info = codes "INFO"
name warn = codes "WARN"
name error = codes "ERROR"
name fatal = codes "FATAL"
name off = codes "OFF"

strlevel-rank : (l : Level) → strlevel (pos (rank l)) ≡ some (name l)
unfolding strlevel
strlevel-rank all = refl
strlevel-rank debug = refl
strlevel-rank info = refl
strlevel-rank warn = refl
strlevel-rank error = refl
strlevel-rank fatal = refl
strlevel-rank off = refl

abbrev pub writes_to : Option Text → Text → Bool
writes_to none p = false
writes_to (some path) p = text_eq p path

-- The console, if it is on, and the logger's file have got the text, and no other file.
abbrev pub Records : Logger → Text → Journal → Logged → Type 0
Records logger text j (logged k) =
    (k.stdout ≡ (if logger.config.console then j.stdout ++ text else j.stdout))
    × ((p : Text) → k.file p ≡ (if writes_to logger.stream p then j.file p ++ text else j.file p))
Records logger text j (aborted k) = ⊥
Records logger text j undefined = ⊥

puts_file_lem :
    (o : Option Text) (text : Text) (j : Journal) (p : Text)
    → (puts_file o text j).file p ≡ (if writes_to o p then j.file p ++ text else j.file p)
puts_file_lem none text j p = refl
puts_file_lem (some path) text j p = refl

puts_file-stdout :
    (o : Option Text) (text : Text) (j : Journal) → (puts_file o text j).stdout ≡ j.stdout
puts_file-stdout none text j = refl
puts_file-stdout (some path) text j = refl

puts_console-stdout :
    (b : Bool) (text : Text) (j : Journal)
    → (puts_console b text j).stdout ≡ (if b then j.stdout ++ text else j.stdout)
puts_console-stdout true text j = refl
puts_console-stdout false text j = refl

puts_console-file :
    (b : Bool) (text : Text) (j : Journal) (p : Text) → (puts_console b text j).file p ≡ j.file p
puts_console-file true text j p = refl
puts_console-file false text j p = refl

put_line-Records :
    (logger : Logger) (line : Buffer) (j : Journal)
    → Records logger line.bytes j (put_line logger (some line) j)
put_line-Records logger line j = (
  puts_console-stdout logger.config.console line.bytes (puts_file logger.stream line.bytes j)
      ∙ ap (λ s. if logger.config.console then s ++ line.bytes else s)
          (puts_file-stdout logger.stream line.bytes j),
  λ p.
      puts_console-file logger.config.console line.bytes (puts_file logger.stream line.bytes j) p
      ∙ puts_file_lem logger.stream line.bytes j p,
)

if_nil : (b : Bool) (s : Text) → s ≡ (if b then s ++ [] else s)
if_nil true s = sym (append-nil s)
if_nil false s = refl

nothing-Records : (logger : Logger) (j : Journal) → Records logger [] j (logged j)
nothing-Records logger j =
    (if_nil logger.config.console j.stdout, λ p. if_nil (writes_to logger.stream p) (j.file p))

if-append :
    (b : Bool) (s t u : Text)
    → (if b then (if b then s ++ t else s) ++ u else (if b then s ++ t else s))
      ≡ (if b then s ++ (t ++ u) else s)
if-append true s t u = append_assoc s t u
if-append false s t u = refl

Records-append :
    (logger : Logger) (text more : Text) (j k : Journal) (r : Logged)
    → Records logger text j (logged k)
    → Records logger more k r
    → Records logger (text ++ more) j r
Records-append logger text more j k (logged l) (o, f) (o', f') = (
  o'
      ∙ ap (λ s. if logger.config.console then s ++ more else s) o
      ∙ if-append logger.config.console j.stdout text more,
  λ p.
      f' p
      ∙ ap (λ s. if writes_to logger.stream p then s ++ more else s) (f p)
      ∙ if-append (writes_to logger.stream p) (j.file p) text more,
)
Records-append logger text more j k (aborted l) h h' = h'
Records-append logger text more j k undefined h h' = h'

module _ (strerror : ℤ → Text) (clock : Clock) (logger : Logger) where
  abbrev pub message : Message → Text
  message m =
      whole clock.stamp (prefix_of clock (name m.level)) m.body (error_text strerror clock m.err)

  -- What is recorded of a message: a line of it, unless its level is below the logger's.
  abbrev pub recorded : Message → Text
  recorded m =
      if int_lt (pos (rank m.level)) logger.config.level then [] else message m ++ 13 ∷ 10 ∷ []

  abbrev pub all_recorded : List Message → Text
  all_recorded [] = []
  all_recorded (m ∷ ms) = recorded m ++ all_recorded ms

  -- Messages one after the other, as long as they do not end the program.
  abbrev pub then_log : Logged → (Journal → Logged) → Logged
  then_log (logged k) f = f k
  then_log (aborted k) f = aborted k
  then_log undefined f = undefined

  abbrev pub log_each : List Message → Journal → Logged
  log_each [] j = logged j
  log_each (m ∷ ms) j =
      then_log (log_at strerror clock m.level logger m.err m.body j) (λ k. log_each ms k)

  abbrev pub Fits : Message → Type 0
  Fits m = length (message m) < limit

  dolog-Records :
      (m : Message) (j : Journal)
      → length clock.stamp ≤ limit
      → Fits m
      → Records logger
          (message m ++ 13 ∷ 10 ∷ [])
          j
          (dolog strerror clock logger m.body (pos (rank m.level)) m.err j)
  unfolding dolog
  dolog-Records m j h l =
      subst
        (λ o.
          Records logger (message m ++ 13 ∷ 10 ∷ []) j
            (leveled strerror clock logger o m.body m.err j))
        (sym (strlevel-rank m.level))
        (subst (λ b. Records logger (message m ++ 13 ∷ 10 ∷ []) j (put_line logger b j))
          (sym (
            logger_line_short clock.stamp (prefix_of clock (name m.level)) m.body
              (error_text strerror clock m.err) h l))
          (put_line-Records logger (record { size = maxbuf; bytes = message m ++ 13 ∷ 10 ∷ [] }) j))

  log_at-Records :
      (m : Message) (j : Journal)
      → length clock.stamp ≤ limit
      → Fits m
      → Records logger (recorded m) j (log_at strerror clock m.level logger m.err m.body j)
  unfolding log_at
  log_at-Records m j h l = elim (Bool-cases (int_lt (pos (rank m.level)) logger.config.level)) [
    | inl below ↦ rw below (nothing-Records logger j)
    | inr up ↦ rw up (dolog-Records m j h l)
  ]

  further :
      (text more : Text) (j : Journal) (r : Logged) (go : Journal → Logged)
      → Records logger text j r
      → ((k : Journal) → Records logger more k (go k))
      → Records logger (text ++ more) j (then_log r go)
  further text more j (logged k) go h g = Records-append logger text more j k (go k) h (g k)
  further text more j (aborted k) go h g = absurd h
  further text more j undefined go h g = absurd h

  -- Of messages that fit the buffer, each whose level is not below the logger's gets a line, in their
  -- order; the console, if it is on, and the logger's file, if it has one, get the same lines, and no
  -- other file changes.
  pub log_each-Records :
      (ms : List Message) (j : Journal)
      → length clock.stamp ≤ limit
      → All Fits ms
      → Records logger (all_recorded ms) j (log_each ms j)
  log_each-Records [] j h l = nothing-Records logger j
  log_each-Records (m ∷ ms) j h l =
      further (recorded m) (all_recorded ms) j (log_at strerror clock m.level logger m.err m.body j)
        _ (log_at-Records m j h l.0) (λ k. log_each-Records ms k h l.1)
