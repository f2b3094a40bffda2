-- ===== src/Prelude/First.antt =====
-- The first element of a list that passes a test: finding it, and changing it in place.
use mathlib.Core.Path.{◌≡◌, refl, ap}
use mathlib.Core.Bool.{Bool, true, false}
use mathlib.Core.Option.{Option, none, some}
use mathlib.Core.List.{List, [], ◌∷◌, ◌++◌}
use native.Mathlib.Omega.{arith}
use hoststack.Prelude.Tests.{if◌then◌else◌}
use hoststack.Prelude.Lists.{length, set, All}

module _ {ℓ} {A : Type ℓ} where
  abbrev pub find_first : (A → Bool) → List A → Option A
  find_first test [] = none
  find_first test (x ∷ xs) = if test x then some x else find_first test xs

  abbrev pub map_first : (A → Bool) → (A → A) → List A → List A
  map_first test f [] = []
  map_first test f (x ∷ xs) = if test x then f x ∷ xs else x ∷ map_first test f xs

  -- The elements that fail the test.
  abbrev pub reject : (A → Bool) → List A → List A
  reject test [] = []
  reject test (x ∷ xs) = if test x then reject test xs else x ∷ reject test xs

  abbrev pub Fails : (A → Bool) → List A → Type 0
  Fails test = All (λ x. test x ≡ false)

  pub find_first-split :
      (test : A → Bool) (pre : List A) (x : A) (post : List A)
      → Fails test pre
      → test x ≡ true
      → find_first test (pre ++ x ∷ post) ≡ some x
  find_first-split test [] x post h e = ground (arith)
  find_first-split test (y ∷ pre) x post h e =
      ground (arith, find_first-split test pre x post h.1 e)

  pub find_first-Fails : (test : A → Bool) (xs : List A) → Fails test xs → find_first test xs ≡ none
  find_first-Fails test [] h = refl
  find_first-Fails test (x ∷ xs) h = ground (arith, find_first-Fails test xs h.1)

  pub map_first-split :
      (test : A → Bool) (f : A → A) (pre : List A) (x : A) (post : List A)
      → Fails test pre
      → test x ≡ true
      → map_first test f (pre ++ x ∷ post) ≡ pre ++ f x ∷ post
  map_first-split test f [] x post h e = ground (arith)
  map_first-split test f (y ∷ pre) x post h e =
      ground (arith, map_first-split test f pre x post h.1 e)

  pub map_first-Fails :
      (test : A → Bool) (f : A → A) (xs : List A) → Fails test xs → map_first test f xs ≡ xs
  map_first-Fails test f [] h = refl
  map_first-Fails test f (x ∷ xs) h = ground (arith, map_first-Fails test f xs h.1)

  pub set-split :
      (pre : List A) (x y : A) (post : List A)
      → set (pre ++ x ∷ post) (length pre) y ≡ pre ++ y ∷ post
  set-split [] x y post = refl
  set-split (z ∷ pre) x y post = ap (◌∷◌ z) (set-split pre x y post)
