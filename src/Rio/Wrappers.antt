-- ===== src/Rio/Wrappers.antt =====
-- common/socket_io.cpp: Rio_readn, Rio_writen, Rio_readinitb, Rio_readnb and Rio_readlineb, which end
-- the program where the function that they wrap returns -1.
use hoststack.Prelude.{
  ℕ, ◌+◌, ◌-◌, ◌<◌, ◌≡◌, refl, Bool, true, false, Option, none, some, [], length,
}
use hoststack.Prelude.Text.{Text}
use hoststack.Returns.{Result, returns, fails, exits}
use hoststack.Io.{Io}
use hoststack.Rio.{Buffer, rio_readn, rio_writen, rio_readinitb, rio_readnb, rio_readlineb}
use hoststack.Rio.Reads.{DeliversUpTo, rio_readn-DeliversUpTo}
use hoststack.Rio.Writes.{WritesAll, rio_writen-WritesAll}
use hoststack.Rio.Buffered.{available}
use hoststack.Rio.Lines.{
  DeliversAll, rio_readnb-DeliversAll, DeliversLine, rio_readlineb-DeliversLine,
}

module _ {ℓ} {A S : Type ℓ} (errno : S → ℕ) where
  -- err_exit(errno, ...) on -1
  abbrev pub or_exit : Option (Option A × S) → Option (Result A × S)
  or_exit none = none
  or_exit (some (none, t)) = some (exits (errno t), t)
  or_exit (some (some a, t)) = some (returns a, t)

  -- A property of what a function returns, as one of its wrapper, which never returns -1 and exits
  -- with the errno of the failure.
  abbrev pub OrExits : (Option (Option A × S) → Type 0) → Option (Result A × S) → Type 0
  OrExits P none = P none
  OrExits P (some (returns a, t)) = P (some (some a, t))
  OrExits P (some (fails, t)) = ⊥
  OrExits P (some (exits n, t)) = P (some (none, t)) × (n ≡ errno t)

  or_exit-OrExits :
      (P : Option (Option A × S) → Type 0) (o : Option (Option A × S)) → P o → OrExits P (or_exit o)
  or_exit-OrExits P none h = h
  or_exit-OrExits P (some (none, t)) h = (h, refl)
  or_exit-OrExits P (some (some a, t)) h = h

module _ (io : Io) (errno : io.State → ℕ) where
  unfoldable pub readn_or_exit : ℕ → ℕ → ℕ → io.State → Option (Result Text × io.State)
  unfolding rio_readn
  readn_or_exit fuel fd n s = or_exit errno (rio_readn io fuel fd n s)

  abbrev pub written_or_exit : Option (Bool × io.State) → Option (Result (Unit {0}) × io.State)
  written_or_exit none = none
  written_or_exit (some (true, t)) = some (returns tt, t)
  written_or_exit (some (false, t)) = some (exits (errno t), t)

  unfoldable pub writen_or_exit : ℕ → ℕ → Text → io.State → Option (Result (Unit {0}) × io.State)
  unfolding rio_writen
  writen_or_exit fuel fd buf s = written_or_exit (rio_writen io fuel fd buf s)

  abbrev pub readinitb : ℕ → Buffer
  readinitb fd = rio_readinitb io fd

  abbrev pub errno_of : Buffer × io.State → ℕ
  errno_of (rp, t) = errno t

  unfoldable pub readnb_or_exit :
      ℕ → Buffer → ℕ → io.State → Option (Result Text × (Buffer × io.State))
  unfolding rio_readnb
  readnb_or_exit tries rp n s = or_exit errno_of (rio_readnb io tries rp n s)

  unfoldable pub readlineb_or_exit :
      ℕ → Buffer → ℕ → io.State → Option (Result Text × (Buffer × io.State))
  unfolding rio_readlineb
  readlineb_or_exit tries rp maxlen s = or_exit errno_of (rio_readlineb io tries rp maxlen s)

  -- Rio_readn returns what rio_readn delivers, or ends the program.
  readn_or_exit-Delivers :
      (fuel fd n : ℕ) (s : io.State)
      → n + io.patience s < fuel
      → OrExits errno (DeliversUpTo io fd n s) (readn_or_exit fuel fd n s)
  unfolding readn_or_exit
  readn_or_exit-Delivers fuel fd n s l =
      or_exit-OrExits errno (DeliversUpTo io fd n s) _ (rio_readn-DeliversUpTo io fd fuel n s l)

  -- Rio_readnb returns the next n bytes that are available, or all of them, or ends the program.
  readnb_or_exit-DeliversAll :
      (tries : ℕ) (rp : Buffer) (n : ℕ) (s : io.State)
      → io.patience s < tries
      → OrExits errno_of (DeliversAll io rp n s) (readnb_or_exit tries rp n s)
  unfolding readnb_or_exit
  readnb_or_exit-DeliversAll tries rp n s l =
      or_exit-OrExits errno_of (DeliversAll io rp n s) _ (rio_readnb-DeliversAll io tries rp n s l)

  -- Rio_readlineb returns the next line, or ends the program.
  readlineb_or_exit-DeliversLine :
      (tries : ℕ) (rp : Buffer) (maxlen : ℕ) (s : io.State)
      → io.patience s < tries
      → OrExits errno_of
          (DeliversLine io (available io rp s) (maxlen - 1) [])
          (readlineb_or_exit tries rp maxlen s)
  unfolding readlineb_or_exit
  readlineb_or_exit-DeliversLine tries rp maxlen s l =
      or_exit-OrExits errno_of (DeliversLine io (available io rp s) (maxlen - 1) []) _
        (rio_readlineb-DeliversLine io tries rp maxlen s l)

  abbrev pub WritesOrExits : ℕ → Text → io.State → Option (Result (Unit {0}) × io.State) → Type 0
  WritesOrExits fd buf s none = ⊥
  WritesOrExits fd buf s (some (returns u, t)) = WritesAll io fd buf s (some (true, t))
  WritesOrExits fd buf s (some (fails, t)) = ⊥
  WritesOrExits fd buf s (some (exits n, t)) =
      WritesAll io fd buf s (some (false, t)) × (n ≡ errno t)

  -- Rio_writen returns only after the descriptor has taken all bytes, and otherwise ends the program.
  writen_or_exit-Writes :
      (fuel fd : ℕ) (buf : Text) (s : io.State)
      → length buf + io.patience s < fuel
      → WritesOrExits fd buf s (writen_or_exit fuel fd buf s)
  unfolding writen_or_exit
  writen_or_exit-Writes fuel fd buf s l =
      go (rio_writen io fuel fd buf s) (rio_writen-WritesAll io fd fuel buf s l)
    where
      go :
          (o : Option (Bool × io.State))
          → WritesAll io fd buf s o
          → WritesOrExits fd buf s (written_or_exit o)
      go none h = h
      go (some (true, t)) h = h
      go (some (false, t)) h = (h, refl)
