-- ===== src/Pty/Table.antt =====
-- Tables of descriptors, whose entries calls change one by one.
use hoststack.Prelude.{ℕ, ◌≡◌, refl, Option, none, arith, ◌<◌, Bool, true, false, ◌==◌, ltb, assign}
use mathlib.Core.Path.{fun_ext}

module _ {ℓ} {A : Type ℓ} where
  pub assign_back :
      (table : ℕ → Option A) (fd : ℕ) (x : Option A)
      → table fd ≡ none
      → assign (assign table fd x) fd none ≡ table
  assign_back table fd x h = fun_ext (λ g. back g (g == fd) refl)
    where
      back : (g : ℕ) (b : Bool) → (g == fd) ≡ b → assign (assign table fd x) fd none g ≡ table g
      back g true e = ground (arith, h)
      back g false e = ground arith

  -- The standard input, output and error.
  abbrev pub standard : (ℕ → Option A) → Option A → ℕ → Option A
  standard table x = assign (assign (assign table 0 x) 1 x) 2 x

  -- A descriptor above the standard ones is closed once they refer to its file.
  pub assign-standard :
      (table : ℕ → Option A) (fd : ℕ) (x : Option A)
      → table fd ≡ none
      → 2 < fd
      → assign (standard (assign table fd x) x) fd none ≡ standard table x
  assign-standard table fd x h l = fun_ext (λ g. ground (arith, h))

  -- A standard descriptor that the file was opened at is one of the three.
  pub standard-assign :
      (table : ℕ → Option A) (fd : ℕ) (x : Option A)
      → ltb 2 fd ≡ false
      → standard (assign table fd x) x ≡ standard table x
  standard-assign table fd x l = fun_ext (λ g. ground arith)

  pub assign_self : (table : ℕ → A) (fd : ℕ) (x : A) → assign table fd x fd ≡ x
  assign_self table fd x = ground arith

  -- Once more the same entry.
  pub assign_again : (table : ℕ → A) (fd new : ℕ) (x : A) → table fd ≡ x → assign table new x fd ≡ x
  assign_again table fd new x h = ground arith
