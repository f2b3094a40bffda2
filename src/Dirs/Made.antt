-- ===== src/Dirs/Made.antt =====
-- common/usg_common.cpp: what mkdir_r and mkdiratfd_r leave behind.
use mathlib.Core.List.{append_assoc, append-nil}
use hoststack.Prelude.{
  ℕ, zero, suc, ◌+◌, ◌<◌, ◌≡◌, ◌≢◌, ◌∙◌, ◌++◌, sym, ap, take-drop, refl, true, false, Option, none,
  some, [], ◌∷◌, take, length, arith, Bool-cases, inl, inr, length-take_le, length-drop, drop,
  subst, ◌==◌, if◌then◌else◌, ◌⊎◌, no_some, same_some,
}
use hoststack.Prelude.Text.{Text, text_eq}
use hoststack.Strings.Search.{strstr_r}
use hoststack.Strings.Search.Last.{length-starts_with, LastBelow, strstr_r-LastBelow}
use hoststack.Dirs.{
  Dirs, Result, seperator, parent_of, find_parent, make, make_last, after_parent, mkdir_r,
  mkdiratfd_r,
}

occurs_below :
    (path : Text) (i : ℕ) → LastBelow path seperator (suc (length path)) (some i) → i < length path
occurs_below path i (l, o, h) =
    omega (arith, l, length-starts_with (drop i path) seperator o, length-drop i path)

found_below : (path : Text) (i : ℕ) → strstr_r (some path) seperator ≡ some i → i < length path
found_below path i e =
    occurs_below path i
      (subst (LastBelow path seperator (suc (length path))) e (strstr_r-LastBelow path seperator))

parent_of-length : (path parent : Text) → parent_of path ≡ some parent → length parent < length path
unfolding parent_of
parent_of-length path parent e = go (strstr_r (some path) seperator) refl e
  where
    go :
        (o : Option ℕ)
        → strstr_r (some path) seperator ≡ o
        → elim o [ none ↦ none | some i ↦ some (take i path) ] ≡ some parent
        → length parent < length path
    go none f h = absurd (no_some h)
    go (some i) f h =
        rw (← same_some h) (omega (arith, length-take_le i path, found_below path i f))

find_parent-length :
    (fuel : ℕ) (path parent : Text)
    → find_parent fuel path ≡ some parent
    → length parent < length path
unfolding find_parent
find_parent-length zero path parent e = absurd (no_some e)
find_parent-length (suc fuel) path parent e =
    go (strstr_r (some path) seperator) refl (λ i. find_parent-length fuel (take i path) parent) e
  where
    go :
        (o : Option ℕ)
        → strstr_r (some path) seperator ≡ o
        → ((i : ℕ)
            → find_parent fuel (take i path) ≡ some parent
            → length parent < length (take i path))
        → elim o [
          | none ↦ none
          | some i ↦
              if (i + 1) == length path then find_parent fuel (take i path) else some (take i path)
        ]
          ≡ some parent
        → length parent < length path
    go none f ih h = absurd (no_some h)
    go (some i) f ih h = elim (Bool-cases ((i + 1) == length path)) [
      | inl b ↦ omega (arith, length-take_le i path, found_below path i f, ih i (rw b at h))
      | inr b ↦
          rw (← same_some (rw b at h)) (omega (arith, length-take_le i path, found_below path i f))
    ]

-- The path begins with q.
abbrev pub Begins : Text → Text → Type 0
Begins q path = (r : Text) × (path ≡ q ++ r)

Begins-take : (i : ℕ) (path : Text) → Begins (take i path) path
Begins-take i path = (drop i path, sym (take-drop i path))

Begins-trans : (q parent path : Text) → Begins q parent → Begins parent path → Begins q path
Begins-trans q parent path (r, e) (x, f) = (r ++ x, f ∙ ap (λ p. p ++ x) e ∙ append_assoc q r x)

parent_of-Begins : (path parent : Text) → parent_of path ≡ some parent → Begins parent path
unfolding parent_of
parent_of-Begins path parent e = go (strstr_r (some path) seperator) e
  where
    go :
        (o : Option ℕ)
        → elim o [ none ↦ none | some i ↦ some (take i path) ] ≡ some parent
        → Begins parent path
    go none h = absurd (no_some h)
    go (some i) h = subst (λ q. Begins q path) (same_some h) (Begins-take i path)

find_parent-Begins :
    (fuel : ℕ) (path parent : Text) → find_parent fuel path ≡ some parent → Begins parent path
unfolding find_parent
find_parent-Begins zero path parent e = absurd (no_some e)
find_parent-Begins (suc fuel) path parent e =
    go (strstr_r (some path) seperator) (λ i. find_parent-Begins fuel (take i path) parent) e
  where
    go :
        (o : Option ℕ)
        → ((i : ℕ) → find_parent fuel (take i path) ≡ some parent → Begins parent (take i path))
        → elim o [
          | none ↦ none
          | some i ↦
              if (i + 1) == length path then find_parent fuel (take i path) else some (take i path)
        ]
          ≡ some parent
        → Begins parent path
    go none ih h = absurd (no_some h)
    go (some i) ih h = elim (Bool-cases ((i + 1) == length path)) [
      | inl b ↦ Begins-trans parent (take i path) path (ih i (rw b at h)) (Begins-take i path)
      | inr b ↦ subst (λ q. Begins q path) (same_some (rw b at h)) (Begins-take i path)
    ]

not_empty : (path : Text) → text_eq path seperator ≡ true → path ≢ []
unfolding text_eq
not_empty [] e = cc
not_empty (c ∷ path) e = λ h. cc

module _ (dirs : Dirs) where
  abbrev pub Keeps : dirs.State → dirs.State → Type 0
  Keeps s t = (q : Text) → dirs.exists q s ≡ true → dirs.exists q t ≡ true

  -- A result 0 means that the path is there, or was empty; one of -1, that the path was not there, and
  -- that the kernel refused to make a beginning of it, one that may be asked for, that was not there.
  -- No path is lost either way.
  abbrev pub Makes : (Text → Type 0) → Text → dirs.State → Result dirs → Type 0
  Makes Asked path s none = ⊥
  Makes Asked path s (some (false, t)) =
      Keeps s t
      × (dirs.exists path s ≡ false)
      × ((q : Text) × Begins q path × Asked q × (dirs.exists q s ≡ false) × (dirs.mkdir q t ≡ none))
  Makes Asked path s (some (true, t)) = Keeps s t × ((path ≡ []) ⊎ (dirs.exists path t ≡ true))

  module _ (Asked : Text → Type 0)
      (root : (path : Text) → text_eq path seperator ≡ true → Asked path) where
    make-Makes :
        (path : Text) (s t : dirs.State)
        → Asked path
        → dirs.exists path s ≡ false
        → Keeps s t
        → Makes Asked path s (make dirs path t)
    make-Makes path s t a n k = go (dirs.mkdir path t) refl
      where
        go :
            (o : Option dirs.State)
            → dirs.mkdir path t ≡ o
            → Makes Asked path s (elim o [ none ↦ some (false, t) | some u ↦ some (true, u) ])
        go none e = (k, n, (path, ([], sym (append-nil path)), a, n, e))
        go (some u) e =
            (λ q h. dirs.mkdir_keeps path q t u e (k q h), inr (dirs.mkdir_exists path t u e))

    after_parent-Makes :
        (path parent : Text) (s : dirs.State) (o : Result dirs) (last : dirs.State → Result dirs)
        → Begins parent path
        → dirs.exists path s ≡ false
        → Makes Asked parent s o
        → ((t : dirs.State) → Keeps s t → Makes Asked path s (last t))
        → Makes Asked path s (after_parent dirs o last)
    after_parent-Makes path parent s none last b n h g = h
    after_parent-Makes path parent s (some (false, t)) last b n (k, m, (q, c, a, x, e)) g =
        (k, n, (q, Begins-trans q parent path c b, a, x, e))
    after_parent-Makes path parent s (some (true, t)) last b n (k, r) g = g t k

    -- The check whether the path is there, that for the root, and the call for the parent.
    checked-Makes :
        (path : Text) (s : dirs.State) (o : Option Text) (last : dirs.State → Result dirs)
        (call : Text → Result dirs)
        → (dirs.exists path s ≡ false → (t : dirs.State) → Keeps s t → Makes Asked path s (last t))
        → ((parent : Text) → o ≡ some parent → Begins parent path)
        → ((parent : Text) → o ≡ some parent → Makes Asked parent s (call parent))
        → Makes Asked path s (elim (dirs.exists path s) [
          | true ↦ some (true, s)
          | false ↦ elim (text_eq path seperator) [
            | true ↦ make dirs path s
            | false ↦ elim o [ none ↦ last s | some parent ↦ after_parent dirs (call parent) last ]
          ]
        ])
    checked-Makes path s o last call l b c = elim (Bool-cases (dirs.exists path s)) [
      | inl e ↦ rw e ((λ q h. h), inr e)
      | inr n ↦ elim (Bool-cases (text_eq path seperator)) [
        | inl e ↦ rw (n, e) (make-Makes path s s (root path e) n (λ q h. h))
        | inr e ↦ rw (n, e) (go n o b c)
      ]
    ]
      where
        go :
            dirs.exists path s ≡ false
            → (o : Option Text) → ((parent : Text) → o ≡ some parent → Begins parent path)
            → ((parent : Text) → o ≡ some parent → Makes Asked parent s (call parent))
            → Makes Asked path s
                (elim o [ none ↦ last s | some parent ↦ after_parent dirs (call parent) last ])
        go n none b c = l n s (λ q h. h)
        go n (some parent) b c =
            after_parent-Makes path parent s (call parent) last (b parent refl) n (c parent refl)
              (l n)

  -- The paths that mkdir_r asks for.
  abbrev pub IsNamed : Text → Type 0
  IsNamed path = path ≢ []

  make_last-Makes :
      (path : Text) (s t : dirs.State)
      → dirs.exists path s ≡ false
      → Keeps s t
      → Makes IsNamed path s (make_last dirs path t)
  make_last-Makes [] s t n k = (k, inl refl)
  make_last-Makes (c ∷ path) s t n k = make-Makes IsNamed not_empty (c ∷ path) s t (λ h. cc) n k

  -- mkdir_r ends, with fuel for every byte of the path. Where it returns 0, the path is there (the
  -- empty path needs nothing); where it returns -1, the path was not there, and neither was a
  -- non-empty beginning of it, which the kernel refused to make. No path is lost either way.
  pub mkdir_r-Makes :
      (fuel : ℕ) (path : Text) (s : dirs.State)
      → length path < fuel
      → Makes IsNamed path s (mkdir_r dirs fuel path s)
  unfolding mkdir_r
  mkdir_r-Makes zero path s l = elim l [ ]
  mkdir_r-Makes (suc fuel) path s l =
      checked-Makes IsNamed not_empty path s (parent_of path) (make_last dirs path)
        (λ parent. mkdir_r dirs fuel parent s) (λ n t k. make_last-Makes path s t n k)
        (parent_of-Begins path)
        (λ parent e. mkdir_r-Makes fuel parent s (omega (arith, l, parent_of-length path parent e)))

  -- mkdiratfd_r ends, with fuel for every byte of the path. Where it returns 0, the path is there or
  -- is empty; where it returns -1, the path was not there, and the kernel refused to make it or a
  -- beginning of it. No path is lost either way.
  pub mkdiratfd_r-Makes :
      (fuel : ℕ) (path : Text) (s : dirs.State)
      → length path < fuel
      → Makes (λ q. Unit) path s (mkdiratfd_r dirs fuel path s)
  unfolding mkdiratfd_r
  mkdiratfd_r-Makes zero path s l = elim l [ ]
  mkdiratfd_r-Makes (suc fuel) path s l =
      checked-Makes (λ q. Unit) (λ q e. tt) path s (find_parent (suc (length path)) path)
        (make dirs path) (λ parent. mkdiratfd_r dirs fuel parent s)
        (λ n t k. make-Makes (λ q. Unit) (λ q e. tt) path s t tt n k)
        (find_parent-Begins (suc (length path)) path)
        (λ parent e.
          mkdiratfd_r-Makes fuel parent s
            (omega (arith, l, find_parent-length (suc (length path)) path parent e)))
