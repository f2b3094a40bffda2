-- ===== src/Relay/Copies.antt =====
-- pty/pty_exec_util.cpp: what a read and a write of what was read do to the bytes of the descriptors.
use mathlib.Core.List.{append_assoc, append-nil}
use hoststack.Prelude.{
  false, suc, ℕ, zero, suc, ◌≡◌, ◌≢◌, ◌≤◌, refl, sym, ap, ◌∙◌, Bool, true, Option, none, some, [],
  ◌∷◌, ◌++◌, length, ◌⊎◌, inl, inr, drop, ◌+◌, ◌<◌, arith,
}
use hoststack.Prelude.Text.{Text}
use hoststack.Io.{Io}
use hoststack.Rio.{rio_writen, after_write_lem}
use hoststack.Rio.Writes.{Refused, WritesAll, rio_writen-WritesAll}
use hoststack.Pool.Serve.{Waiting}
use hoststack.Relay.{Traffic, Turn, Progress, going, all_written, ended, pass_on}

module _ (io : Io) (waiting : Waiting io) (traffic : Traffic io waiting) where
  -- All bytes that one descriptor has delivered since, the other has taken.
  abbrev pub Copied : ℕ → ℕ → io.State → io.State → Type 0
  Copied a b s t =
      (x : Text) × (traffic.got a t ≡ traffic.got a s ++ x) × (io.written b t ≡ io.written b s ++ x)

  -- A call of read failed or delivered the end.
  abbrev pub Over : ℕ → io.State → Type 0
  Over a t =
      (n : ℕ) × (u : io.State) × ((io.read a n u ≡ (none, t)) ⊎ (io.read a n u ≡ (some [], t)))

  -- A call of write left the rest of what it was given.
  abbrev pub Leftover : ℕ → Text → io.State → Type 0
  Leftover b rest t =
      (d : Text) × (u : io.State) × (((io.write b d u ≡ (none, t)) × (rest ≡ d))
        ⊎ ((k : ℕ) × (io.write b d u ≡ (some k, t)) × (k < length d) × (rest ≡ drop k d)))

  Refused-Leftover : (b : ℕ) (rest : Text) (t : io.State) → Refused io b rest t → Leftover b rest t
  Refused-Leftover b rest t (l, (u, inl e, i)) = (rest, u, inl (e, refl))
  Refused-Leftover b rest t (l, (u, inr e, i)) = (rest, u, inr (0, e, l, refl))

  -- A beginning of them, and then a call of write left the rest.
  abbrev pub Cut : ℕ → ℕ → io.State → io.State → Type 0
  Cut a b s t =
      (x rest : Text) × (traffic.got a t ≡ traffic.got a s ++ (x ++ rest))
      × (io.written b t ≡ io.written b s ++ x)
      × Leftover b rest t

  -- No other descriptor has delivered or taken anything.
  abbrev pub Others : ℕ → ℕ → io.State → io.State → Type 0
  Others a b s t =
      ((g : ℕ) → g ≢ a → traffic.got g t ≡ traffic.got g s)
      × ((g : ℕ) → g ≢ b → io.written g t ≡ io.written g s)

  pub Copied-unchanged :
      (a b : ℕ) (s t : io.State)
      → traffic.got a t ≡ traffic.got a s
      → io.written b t ≡ io.written b s
      → Copied a b s t
  Copied-unchanged a b s t g w =
      ([], g ∙ sym (append-nil (traffic.got a s)), w ∙ sym (append-nil (io.written b s)))

  pub Copied-append :
      (a b : ℕ) (s t u : io.State) → Copied a b s t → Copied a b t u → Copied a b s u
  Copied-append a b s t u (x, g, w) (y, h, v) = (
    x ++ y,
    h ∙ ap (λ z. z ++ y) g ∙ append_assoc (traffic.got a s) x y,
    v ∙ ap (λ z. z ++ y) w ∙ append_assoc (io.written b s) x y,
  )

  pub Copied-Cut_append : (a b : ℕ) (s t u : io.State) → Copied a b s t → Cut a b t u → Cut a b s u
  Copied-Cut_append a b s t u (x, g, w) (y, rest, h, v, r) = (
    x ++ y,
    rest,
    h
        ∙ ap (λ z. z ++ (y ++ rest)) g
        ∙ append_assoc (traffic.got a s) x (y ++ rest)
        ∙ ap (λ z. traffic.got a s ++ z) (sym (append_assoc x y rest)),
    v ∙ ap (λ z. z ++ y) w ∙ append_assoc (io.written b s) x y,
    r,
  )

  pub Others-trans : (a b : ℕ) (s t u : io.State) → Others a b s t → Others a b t u → Others a b s u
  Others-trans a b s t u (g, w) (h, v) = (λ i n. h i n ∙ g i n, λ i n. v i n ∙ w i n)

  -- What rio_writen leaves alone.
  abbrev pub Leaves : ℕ → io.State → Option (Bool × io.State) → Type 0
  Leaves fd s none = Unit
  Leaves fd s (some (b, t)) =
      ((g : ℕ) → traffic.got g t ≡ traffic.got g s)
      × ((g : ℕ) → g ≢ fd → io.written g t ≡ io.written g s)

  write-Leaves :
      (fd : ℕ) (d : Text) (s t : io.State) (k : Option ℕ)
      → io.write fd d s ≡ (k, t)
      → Leaves fd s (some (true, t))
  write-Leaves fd d s t k e = (
    λ g. sym (ap (λ r. traffic.got g r.1) e) ∙ traffic.got-write fd g d s,
    λ g n. sym (ap (λ r. io.written g r.1) e) ∙ traffic.written_other fd g d s n,
  )

  Leaves-later :
      (fd : ℕ) (s t : io.State) (r : Option (Bool × io.State))
      → Leaves fd s (some (true, t))
      → Leaves fd t r
      → Leaves fd s r
  Leaves-later fd s t none h k = tt
  Leaves-later fd s t (some (b, u)) (g, w) (g', w') = (λ i. g' i ∙ g i, λ i n. w' i n ∙ w i n)

  rio_writen-Leaves :
      (fuel fd : ℕ) (buf : Text) (s : io.State) → Leaves fd s (rio_writen io fuel fd buf s)
  unfolding rio_writen
  rio_writen-Leaves zero fd buf s = tt
  rio_writen-Leaves (suc fuel) fd [] s = (λ g. refl, λ g n. refl)
  rio_writen-Leaves (suc fuel) fd (c ∷ buf) s =
      after_write_lem (Leaves fd s) io.eintr (io.write fd (c ∷ buf) s) _ _ _
        (λ t e i. Leaves-later fd s t _ (refused t e) (rio_writen-Leaves fuel fd (c ∷ buf) t))
        (λ t e i. refused t e)
        (λ k t e.
          Leaves-later fd s t _ (write-Leaves fd (c ∷ buf) s t (some (suc k)) e)
            (rio_writen-Leaves fuel fd (drop k buf) t))
    where
      refused :
          (t : io.State)
          → (io.write fd (c ∷ buf) s ≡ (none, t)) ⊎ (io.write fd (c ∷ buf) s ≡ (some 0, t))
          → Leaves fd s (some (true, t))
      refused t (inl e) = write-Leaves fd (c ∷ buf) s t none e
      refused t (inr e) = write-Leaves fd (c ∷ buf) s t (some 0) e

  -- A read, with what it delivered.
  pub read_data :
      (a n : ℕ) (s t : io.State) (d : Text)
      → io.read a n s ≡ (some d, t)
      → (traffic.got a t ≡ traffic.got a s ++ d)
        × ((g : ℕ) → g ≢ a → traffic.got g t ≡ traffic.got g s)
        × ((g : ℕ) → io.written g t ≡ io.written g s)
        × (length d ≤ n)
        × (io.patience t ≤ io.patience s)
  read_data a n s t d e =
      let (p, l, m) = io.read_data a n s t d e in
      (
        traffic.got-read a n s t d e,
        λ g ne. sym (ap (λ r. traffic.got g r.1) e) ∙ traffic.got_other a g n s ne,
        λ g. sym (ap (λ r. io.written g r.1) e) ∙ traffic.written-read a g n s,
        l,
        m,
      )

  pub read_refused :
      (a b n : ℕ) (s t : io.State)
      → io.read a n s ≡ (none, t)
      → Copied a b s t × Others a b s t × (io.patience t ≤ io.patience s)
  read_refused a b n s t e =
      let (p, m, i) = io.read_refused a n s t e in
      let written = λ (g : ℕ). sym (ap (λ r. io.written g r.1) e) ∙ traffic.written-read a g n s in
      (
        Copied-unchanged a b s t (traffic.got_refused a n s t e) (written b),
        (
          λ g ne. sym (ap (λ r. traffic.got g r.1) e) ∙ traffic.got_other a g n s ne,
          λ g ne. written g,
        ),
        m,
      )

  pub read_nothing :
      (a b n : ℕ) (s t : io.State)
      → io.read a n s ≡ (some [], t)
      → Copied a b s t × Others a b s t × (io.patience t ≤ io.patience s)
  read_nothing a b n s t e =
      let (g, o, w, l, m) = read_data a n s t [] e in
      (Copied-unchanged a b s t (g ∙ append-nil (traffic.got a s)) (w b), (o, λ i ne. w i), m)

  module _ (tries : ℕ) (P : Turn io waiting tries → Type 0) (stop : io.State → Progress io.State)
      (a b : ℕ) (s : io.State)
      (copies : (t : io.State)
        → Copied a b s t
        → Others a b s t
        → io.patience t ≤ io.patience s
        → P (some (going t)))
      (stops : (t : io.State)
        → Cut a b s t
        → Others a b s t
        → io.patience t ≤ io.patience s
        → P (some (stop t))) where
    -- The bytes of a read are written, or a beginning of them.
    pub all_written_lem :
        (n : ℕ) (t : io.State) (d : Text)
        → io.read a n s ≡ (some d, t)
        → n + io.patience s < tries
        → P (all_written io waiting tries stop (rio_writen io tries b d t))
    all_written_lem n t d e l =
        let (g, o, w, len, m) = read_data a n s t d e in
        go g o w m (rio_writen io tries b d t)
          (rio_writen-WritesAll io b tries d t (omega (arith, len, m, l)))
          (rio_writen-Leaves tries b d t)
      where
        go :
            traffic.got a t ≡ traffic.got a s ++ d
            → ((g : ℕ) → g ≢ a → traffic.got g t ≡ traffic.got g s)
            → ((g : ℕ) → io.written g t ≡ io.written g s)
            → io.patience t ≤ io.patience s
            → (r : Option (Bool × io.State)) → WritesAll io b d t r
            → Leaves b t r
            → P (all_written io waiting tries stop r)
        go g o w m none h k = absurd h
        go g o w m (some (true, u)) (h, p) (kg, kw) =
            copies u (d, kg a ∙ g, h ∙ ap (λ z. z ++ d) (w b))
              (λ i ne. kg i ∙ o i ne, λ i ne. kw i ne ∙ w i) (omega (arith, p, m))
        go g o w m (some (false, u)) (x, rest, split, h, p, r) (kg, kw) =
            stops u
              (
                x,
                rest,
                kg a ∙ g ∙ ap (λ z. traffic.got a s ++ z) split,
                h ∙ ap (λ z. z ++ x) (w b),
                Refused-Leftover b rest u r,
              )
              (λ i ne. kg i ∙ o i ne, λ i ne. kw i ne ∙ w i) (omega (arith, p, m))

    pub pass_on_lem :
        (n : ℕ)
        → n + io.patience s < tries
        → ((t : io.State)
            → Copied a b s t
            → Others a b s t
            → io.patience t ≤ io.patience s
            → Over a t
            → P (some (ended t)))
        → P (pass_on io waiting tries stop b (io.read a n s))
    pass_on_lem n l ends = go (io.read a n s) refl
      where
        go :
            (r : Option Text × io.State) → io.read a n s ≡ r → P (pass_on io waiting tries stop b r)
        go (none, t) e = let (c, o, m) = read_refused a b n s t e in ends t c o m (n, s, inl e)
        go (some [], t) e = let (c, o, m) = read_nothing a b n s t e in ends t c o m (n, s, inr e)
        go (some (c ∷ d), t) e = all_written_lem n t (c ∷ d) e l
