-- ===== src/Strings/Search/Last.antt =====
-- common/usg_common.cpp: strstr_r and the occurrences of its needle.
use hoststack.Prelude.{
  ℕ, zero, suc, ◌-◌, ◌≤◌, ◌<◌, ◌≡◌, true, false, Option, none, some, [], ◌∷◌, arith, ltb, length,
  length-drop, drop, Bool-cases, inl, inr, ◌⊎◌,
}
use hoststack.Prelude.Text.{Text}
use hoststack.Libc.{starts_with}
use hoststack.Strings.Search.{strstr_r_loop, strstr_r}

abbrev pub OccursAt : Text → Text → ℕ → Type 0
OccursAt str needle i = starts_with (drop i str) needle ≡ true

-- The last occurrence below a bound, or none.
abbrev pub LastBelow : Text → Text → ℕ → Option ℕ → Type 0
LastBelow str needle n none = (j : ℕ) → j < n → ¬ OccursAt str needle j
LastBelow str needle n (some i) =
    (i < n) × OccursAt str needle i × ((j : ℕ) → i < j → j < n → ¬ OccursAt str needle j)

strstr_r_loop-LastBelow :
    (str needle : Text) (n : ℕ) → LastBelow str needle n (strstr_r_loop str needle n)
unfolding strstr_r_loop
strstr_r_loop-LastBelow str needle zero = λ j h. elim h [ ]
strstr_r_loop-LastBelow str needle (suc i) = elim (Bool-cases (starts_with (drop i str) needle)) [
  | inl e ↦ rw e (omega arith, e, λ j p q. absurd (omega arith))
  | inr e ↦ rw e (later i e (strstr_r_loop str needle i) (strstr_r_loop-LastBelow str needle i))
]
  where
    at_top : (k : ℕ) (j : ℕ) → j < suc k → (j < k) ⊎ (j ≡ k)
    at_top k j h = grind arith

    later :
        (k : ℕ)
        → starts_with (drop k str) needle ≡ false
        → (r : Option ℕ) → LastBelow str needle k r
        → LastBelow str needle (suc k) r
    later k e none h = λ j p. elim (at_top k j p) [ inl q ↦ h j q | inr q ↦ λ o. cc ]
    later k e (some i) (l, o, h) =
        (omega arith, o, λ j p q. elim (at_top k j q) [ inl q' ↦ h j p q' | inr q' ↦ λ o'. cc ])

pub length-starts_with : (s needle : Text) → starts_with s needle ≡ true → length needle ≤ length s
unfolding starts_with
length-starts_with s [] h = omega arith
length-starts_with [] (y ∷ ys) h = cc
length-starts_with (x ∷ xs) (y ∷ ys) h = ground (arith, length-starts_with xs ys)

-- No occurrence begins where the needle would run over the end.
out_of_room :
    (str needle : Text) (j : ℕ)
    → OccursAt str needle j
    → j ≤ length str
    → length needle ≤ length str - j
out_of_room str needle j o h =
    omega (arith, length-starts_with (drop j str) needle o, length-drop j str)

-- strstr_r returns the offset of the last occurrence of the needle in the string, among all offsets
-- up to the end of the string, and a null pointer exactly when there is none.
pub strstr_r-LastBelow :
    (str needle : Text) → LastBelow str needle (suc (length str)) (strstr_r (some str) needle)
unfolding strstr_r
strstr_r-LastBelow str needle = elim (Bool-cases (ltb (length str) (length needle))) [
  | inl e ↦ rw e (λ j p o. ground (arith, out_of_room str needle j o))
  | inr e ↦ rw e (widen _ (strstr_r_loop-LastBelow str needle (suc (length str - length needle))))
]
  where
    widen :
        (r : Option ℕ)
        → LastBelow str needle (suc (length str - length needle)) r
        → LastBelow str needle (suc (length str)) r
    widen none h = λ j p o. h j (omega (arith, out_of_room str needle j o)) o
    widen (some i) (l, o, h) =
        (omega arith, o, λ j p q o'. h j p (omega (arith, out_of_room str needle j o')) o')
