-- ===== src/Rio/Lines.antt =====
-- common/socket_io.cpp: rio_readnb and rio_readlineb over what is available.
use mathlib.Core.List.{append_assoc, append-nil}
use hoststack.Prelude.{
  ℕ, zero, suc, ◌+◌, ◌-◌, ◌≤◌, ◌<◌, ◌≡◌, refl, sym, ap, ◌∙◌, ◌⊎◌, inl, inr, false, none, some, [],
  ◌∷◌, ◌++◌, length, length-append, arith, Bool-cases, if◌then◌else◌, ◌==◌, All,
}
use hoststack.Prelude.Text.{Text}
use hoststack.Io.{Io}
use hoststack.Rio.{
  Buffer, BufferedAnswer, rio_readnb, rio_readnb_loop, rio_readlineb, rio_readlineb_loop,
  after_rio_read,
}
use hoststack.Rio.Buffered.{FailsAt, available, Delivers, rio_read-Delivers}

-- The first line of a text, with its newline, up to a length.
abbrev pub line_of : ℕ → Text → Text
line_of zero text = []
line_of (suc n) [] = []
line_of (suc n) (c ∷ text) = let more = line_of n text in if c == 10 then c ∷ [] else c ∷ more

module _ (io : Io) where
  after_rio_read_lem :
      (P : BufferedAnswer io → Type 0) (rp : Buffer) (n : ℕ) (s : io.State) (o : BufferedAnswer io)
      (stop : Buffer → io.State → BufferedAnswer io)
      (go : ℕ → Text → Buffer → io.State → BufferedAnswer io)
      → Delivers io rp n s o
      → ((rp' : Buffer) (t : io.State)
          → FailsAt io rp'.fd (available io rp s) t
          → P (some (none, (rp', t))))
      → ((rp' : Buffer) (t : io.State)
          → available io rp s ≡ available io rp' t
          → available io rp' t ≡ []
          → P (stop rp' t))
      → ((c : ℕ) (d : Text) (rp' : Buffer) (t : io.State)
          → available io rp s ≡ (c ∷ d) ++ available io rp' t
          → length (c ∷ d) ≤ n
          → io.patience t ≤ io.patience s
          → P (go c d rp' t))
      → P (after_rio_read io o stop go)
  after_rio_read_lem P rp n s none stop go h hf hs hg = absurd h
  after_rio_read_lem P rp n s (some (none, (rp', t))) stop go h hf hs hg = hf rp' t h
  after_rio_read_lem P rp n s (some (some [], (rp', t))) stop go (a, l, z, p) hf hs hg =
      hs rp' t a (z refl)
  after_rio_read_lem P rp n s (some (some (c ∷ d), (rp', t))) stop go (a, l, z, p) hf hs hg =
      hg c d rp' t a l p

  -- The bytes are the next n that are available, or all of them; -1 needs a call that failed.
  abbrev pub DeliversAll : Buffer → ℕ → io.State → BufferedAnswer io → Type 0
  DeliversAll rp n s none = ⊥
  DeliversAll rp n s (some (none, (rp', t))) =
      (d rest : Text) × (available io rp s ≡ d ++ rest) × (length d < n) × FailsAt io rp'.fd rest t
  DeliversAll rp n s (some (some d, (rp', t))) =
      (available io rp s ≡ d ++ available io rp' t)
      × (length d ≤ n)
      × ((length d ≡ n) ⊎ (available io rp' t ≡ []))

  readnb_delivers :
      (tries fuel : ℕ) (rp₀ rp : Buffer) (left n : ℕ) (buf : Text) (s₀ s : io.State)
      → io.patience s < tries
      → left < fuel
      → available io rp₀ s₀ ≡ buf ++ available io rp s
      → length buf + left ≡ n
      → DeliversAll rp₀ n s₀ (rio_readnb_loop io tries fuel rp left buf s)
  unfolding rio_readnb_loop
  readnb_delivers tries zero rp₀ rp left n buf s₀ s q l p b = elim l [ ]
  readnb_delivers tries (suc fuel) rp₀ rp zero n buf s₀ s q l p b =
      (p, omega (arith, b), inl (omega (arith, b)))
  readnb_delivers tries (suc fuel) rp₀ rp (suc left) n buf s₀ s q l p b =
      after_rio_read_lem (DeliversAll rp₀ n s₀) rp (suc left) s _ _ _
        (rio_read-Delivers io tries rp left s q)
        (λ rp' t i. (buf, available io rp s, p, omega (arith, b), i))
        (λ rp' t e z. (p ∙ ap (◌++◌ buf) e, omega (arith, b), inr z))
        (λ c d rp' t e m r.
          readnb_delivers tries fuel rp₀ rp' (suc left - length (c ∷ d)) n (buf ++ c ∷ d) s₀ t
            (omega (arith, q, r)) (omega (arith, l, m))
            (p ∙ ap (◌++◌ buf) e ∙ sym (append_assoc buf (c ∷ d) (available io rp' t)))
            (rw (length-append buf (c ∷ d)) (omega (arith, b, m))))

  -- rio_readnb returns the next n available bytes, or all of them where there are fewer, or -1
  -- after a call of read that failed for another reason than a signal.
  pub rio_readnb-DeliversAll :
      (tries : ℕ) (rp : Buffer) (n : ℕ) (s : io.State)
      → io.patience s < tries
      → DeliversAll rp n s (rio_readnb io tries rp n s)
  unfolding rio_readnb
  rio_readnb-DeliversAll tries rp n s l =
      readnb_delivers tries (suc n) rp rp n n [] s s l (omega arith) refl (omega arith)

  -- The bytes are the next line, and what follows stays available; -1 needs a call that failed
  -- before the line had ended.
  abbrev pub DeliversLine : Text → ℕ → Text → BufferedAnswer io → Type 0
  DeliversLine all n buf none = ⊥
  DeliversLine all n buf (some (none, (rp', t))) =
      (d rest : Text) × (all ≡ d ++ rest)
      × (length d < n)
      × All (λ c. (c == 10) ≡ false) d
      × FailsAt io rp'.fd rest t
  DeliversLine all n buf (some (some d, (rp', t))) =
      (d ≡ buf ++ line_of n all) × (buf ++ all ≡ d ++ available io rp' t)

  longer :
      (c n : ℕ) (rest buf : Text) (o : BufferedAnswer io)
      → (c == 10) ≡ false
      → DeliversLine rest n (buf ++ c ∷ []) o
      → DeliversLine (c ∷ rest) (suc n) buf o
  longer c n rest buf none f h = h
  longer c n rest buf (some (none, (rp', t))) f (d, left, e, l, a, h) =
      (c ∷ d, left, ap (◌∷◌ c) e, omega (arith, l), (f, a), h)
  longer c n rest buf (some (some d, (rp', t))) f (a, b) = (
    rw f (a ∙ append_assoc buf (c ∷ []) (line_of n rest)),
    sym (append_assoc buf (c ∷ []) rest) ∙ b,
  )

  one_char :
      (c n : ℕ) (all buf : Text) (rp : Buffer) (t : io.State) (more : BufferedAnswer io)
      → all ≡ c ∷ available io rp t
      → DeliversLine (available io rp t) n (buf ++ c ∷ []) more
      → DeliversLine all
          (suc n)
          buf
          (if c == 10 then some (some (buf ++ c ∷ []), (rp, t)) else more)
  one_char c n all buf rp t more e h = elim (Bool-cases (c == 10)) [
    | inl f ↦ rw (f, e) (rw f refl, sym (append_assoc buf (c ∷ []) (available io rp t)))
    | inr f ↦ rw (f, e) (longer c n (available io rp t) buf more f h)
  ]

  no_more : (d : Text) → length d ≤ 0 → d ≡ []
  no_more [] l = refl
  no_more (c ∷ d) l = elim l [ ]

  readline_delivers :
      (tries rounds : ℕ) (rp : Buffer) (buf : Text) (s : io.State)
      → io.patience s < tries
      → DeliversLine (available io rp s) rounds buf (rio_readlineb_loop io tries rounds rp buf s)
  unfolding rio_readlineb_loop
  readline_delivers tries zero rp buf s l = (sym (append-nil buf), refl)
  readline_delivers tries (suc rounds) rp buf s l =
      after_rio_read_lem (DeliversLine (available io rp s) (suc rounds) buf) rp 1 s _ _ _
        (rio_read-Delivers io tries rp 0 s l)
        (λ rp' t i. ([], available io rp s, refl, omega arith, tt, i))
        (λ rp' t e z. (rw (e, z) (sym (append-nil buf)), ap (◌++◌ buf) e))
        (λ c d rp' t e m r.
          one_char c rounds (available io rp s) buf rp' t _
            (rw (e, no_more d (omega (arith, m))) refl)
            (readline_delivers tries rounds rp' (buf ++ c ∷ []) t (omega (arith, l, r))))

  -- rio_readlineb returns the first line of what is available, with its newline, or its first
  -- maxlen - 1 bytes where it is longer, and leaves the bytes after it for the next call; it is -1
  -- only after a call of read that failed, for another reason than a signal, before the line or the
  -- room for it had ended.
  pub rio_readlineb-DeliversLine :
      (tries : ℕ) (rp : Buffer) (maxlen : ℕ) (s : io.State)
      → io.patience s < tries
      → DeliversLine (available io rp s) (maxlen - 1) [] (rio_readlineb io tries rp maxlen s)
  unfolding rio_readlineb
  rio_readlineb-DeliversLine tries rp maxlen s l = readline_delivers tries (maxlen - 1) rp [] s l
