-- ===== src/Pty/Desk.antt =====
-- An instance of the interface: a table of descriptors, the descriptor to try next, errno, and what
-- fork will return, and the namespaces that were entered. Only a descriptor that is taken makes a call fail, and every close changes errno.
use hoststack.Prelude.{
  List, [], ◌∷◌, ◌++◌, ℕ, suc, ◌≡◌, refl, sym, ap, Bool, true, Option, none, some, ◌∙◌, assign,
  no_answer, some_part,
}
use hoststack.Prelude.Text.{Text, codes}
use hoststack.Pty.{Terminals}
use hoststack.Service.Namespaces.{Namespaces}

pub data Desk : Type 0 where
  desk : (ℕ → Option Text) → ℕ → ℕ → ℕ → List (Option Text) → Desk

abbrev pub table_of : Desk → ℕ → Option Text
table_of (desk t n e r v) = t

abbrev pub errno_of : Desk → ℕ
errno_of (desk t n e r v) = e

abbrev pub with_table : (ℕ → Option Text) → Desk → Desk
with_table u (desk t n e r v) = desk u n e r v

abbrev pub with_errno : ℕ → Desk → Desk
with_errno k (desk t n e r v) = desk t n k r v

-- EMFILE
abbrev placed : Text → Option Text → Desk → Option ℕ × Desk
placed f none (desk t n e r v) = (some n, desk (assign t n (some f)) (suc n) e r v)
placed f (some g) (desk t n e r v) = (none, desk t n 24 r v)

abbrev pub place : Text → Desk → Option ℕ × Desk
place f (desk t n e r v) = placed f (t n) (desk t n e r v)

abbrev pub role : Desk → Option ℕ
role (desk t n e r v) = some r

abbrev pub close_at : ℕ → Desk → Desk
close_at fd (desk t n e r v) = desk (assign t fd none) n 9 r v

pub place_lem :
    (f : Text) (fd : ℕ) (s t : Desk)
    → place f s ≡ (some fd, t)
    → (table_of s fd ≡ none) × (table_of t ≡ assign (table_of s) fd (some f))
place_lem f fd (desk tbl n e r v) t = cases (tbl n) refl
  where
    cases :
        (o : Option Text)
        → tbl n ≡ o
        → placed f o (desk tbl n e r v) ≡ (some fd, t)
        → (tbl fd ≡ none) × (table_of t ≡ assign tbl fd (some f))
    cases none free h = rw (← some_part h) (free, sym (ap (λ x. table_of x.1) h))
    cases (some g) taken h = absurd (no_answer h)

pub place_refused : (f : Text) (s t : Desk) → place f s ≡ (none, t) → table_of t ≡ table_of s
place_refused f (desk tbl n e r v) t = cases (tbl n)
  where
    cases : (o : Option Text) → placed f o (desk tbl n e r v) ≡ (none, t) → table_of t ≡ tbl
    cases none h = absurd (no_answer (sym h))
    cases (some g) h = sym (ap (λ x. table_of x.1) h)

table-with_table : (u : ℕ → Option Text) (s : Desk) → table_of (with_table u s) ≡ u
table-with_table u (desk t n e r v) = refl

pub table-close : (fd : ℕ) (s : Desk) → table_of (close_at fd s) ≡ assign (table_of s) fd none
table-close fd (desk t n e r v) = refl

pub table-with_errno : (k : ℕ) (s : Desk) → table_of (with_errno k s) ≡ table_of s
table-with_errno k (desk t n e r v) = refl

pub errno-with_errno : (k : ℕ) (s : Desk) → errno_of (with_errno k s) ≡ k
errno-with_errno k (desk t n e r v) = refl

pub dup_lem :
    (old new : ℕ) (s t : Desk)
    → ◌≡◌ {A = Bool × Desk}
        (true, with_table (assign (table_of s) new (table_of s old)) s)
        (true, t)
    → table_of t ≡ assign (table_of s) new (table_of s old)
dup_lem old new s t e =
    sym (ap (λ x. table_of x.1) e) ∙ table-with_table (assign (table_of s) new (table_of s old)) s

abbrev pub slave_name : Text
slave_name = codes "/dev/pts/3"

abbrev pub desk_terminals : Terminals
desk_terminals = record {
  State = Desk;
  File = Text;
  Termios = ℕ;
  Winsize = ℕ;
  posix_openpt = λ s. place (codes "/dev/ptmx") s;
  grantpt = λ fd s. (true, s);
  unlockpt = λ fd s. (true, s);
  ptsname = λ fd s. (some slave_name, s);
  fork = λ s. (role s, s);
  mmap = λ s. (true, s);
  clone = λ s. (some 7, s);
  setsid = λ s. (true, s);
  open_file = λ name s. place name s;
  set_controlling = λ fd s. (true, s);
  tcsetattr = λ fd a s. (true, s);
  set_winsize = λ fd w s. (true, s);
  dup2 = λ old new s. (true, with_table (assign (table_of s) new (table_of s old)) s);
  close = λ fd s. close_at fd s;
  errno = λ s. errno_of s;
  set_errno = λ k s. with_errno k s;
  table = λ s. table_of s;
  file_at = λ name. name;
  openpt_lem = λ fd s t e.
      let (h, n) = place_lem (codes "/dev/ptmx") fd s t e in (h, (codes "/dev/ptmx", n));
  openpt_refused = λ s t e. place_refused (codes "/dev/ptmx") s t e;
  table-grantpt = λ fd s. refl;
  table-unlockpt = λ fd s. refl;
  table-ptsname = λ fd s. refl;
  table-fork = λ s. refl;
  table-mmap = λ s. refl;
  table-clone = λ s. refl;
  table-setsid = λ s. refl;
  open_lem = λ name fd s t e. place_lem name fd s t e;
  table-set_controlling = λ fd s. refl;
  table-tcsetattr = λ fd a s. refl;
  table-set_winsize = λ fd w s. refl;
  dup2_lem = λ old new s t e. dup_lem old new s t e;
  table-close = λ fd s. table-close fd s;
  table-set_errno = λ k s. table-with_errno k s;
  errno-set_errno = λ k s. errno-with_errno k s;
}

abbrev pub entered_of : Desk → List (Option Text)
entered_of (desk t n e r v) = v

abbrev pub enter_at : ℕ → Desk → Desk
enter_at fd (desk t n e r v) = desk t n e r (v ++ t fd ∷ [])

pub entered_same : (fd : ℕ) (s : Desk) → table_of (enter_at fd s) ≡ table_of s
entered_same fd (desk t n e r v) = refl

pub entered_lem :
    (fd : ℕ) (s t : Desk)
    → ◌≡◌ {A = Bool × Desk} (true, enter_at fd s) (true, t)
    → entered_of t ≡ entered_of s ++ table_of s fd ∷ []
entered_lem fd (desk tbl n e r v) t h = sym (ap (λ x. entered_of x.1) h)

pub entered-place : (f : Text) (s : Desk) → entered_of (place f s).1 ≡ entered_of s
entered-place f (desk t n e r v) = cases (t n)
  where
    cases : (o : Option Text) → entered_of (placed f o (desk t n e r v)).1 ≡ v
    cases none = refl
    cases (some g) = refl

pub entered-close : (fd : ℕ) (s : Desk) → entered_of (close_at fd s) ≡ entered_of s
entered-close fd (desk t n e r v) = refl

abbrev pub desk_namespaces : Namespaces desk_terminals
desk_namespaces = record {
  daemon = λ s. (true, s);
  setns = λ fd s. (true, enter_at fd s);
  entered = λ s. entered_of s;
  table-daemon = λ s. refl;
  entered-daemon = λ s. refl;
  table-setns = λ fd s. entered_same fd s;
  entered-setns = λ fd s t e. entered_lem fd s t e;
  entered-open = λ path s. entered-place path s;
  entered-close = λ fd s. entered-close fd s;
}
