-- ===== src/Info/Volumes.antt =====
-- util/container_info.h: the set of volumes, listed in its order.
use mathlib.Core.List.{append_assoc, append-nil}
use hoststack.Prelude.{
  ◌≡◌, refl, ◌∙◌, true, false, List, [], ◌∷◌, ◌++◌, arith, All, All-append, Bool-cases, inl, inr,
}
use hoststack.Prelude.Text.{Text, text_lt}
use hoststack.Info.{set_insert, insert_all}

pub text_lt_asymm : (s t : Text) → text_lt s t ≡ true → text_lt t s ≡ false
unfolding text_lt
text_lt_asymm [] [] h = refl
text_lt_asymm [] (y ∷ ys) h = refl
text_lt_asymm (x ∷ xs) [] h = cc
text_lt_asymm (x ∷ xs) (y ∷ ys) h = ground (arith, text_lt_asymm xs ys)

-- A list in the order of a set, with no repetition.
abbrev pub IsVolumeSet : List Text → Type 0
IsVolumeSet [] = Unit
IsVolumeSet (x ∷ xs) = All (λ v. text_lt x v ≡ true) xs × IsVolumeSet xs

set_insert_last :
    (v : Text) (s : List Text) → All (λ x. text_lt x v ≡ true) s → set_insert v s ≡ s ++ v ∷ []
unfolding set_insert
set_insert_last v [] h = refl
set_insert_last v (x ∷ s) h = ground (arith, text_lt_asymm x v, set_insert_last v s h.1)

heads :
    (v : Text) (vs s : List Text)
    → All (λ x. All (λ w. text_lt x w ≡ true) (v ∷ vs)) s
    → All (λ x. text_lt x v ≡ true) s × All (λ x. All (λ w. text_lt x w ≡ true) vs) s
heads v vs [] h = (tt, tt)
heads v vs (x ∷ s) h = let (a, b) = heads v vs s h.1 in ((h.0.0, a), (h.0.1, b))

insert_all-append :
    (s vs : List Text)
    → All (λ x. All (λ w. text_lt x w ≡ true) vs) s
    → IsVolumeSet vs
    → insert_all s vs ≡ s ++ vs
insert_all-append s [] h k = rw append-nil
insert_all-append s (v ∷ vs) h k =
    let (a, b) = heads v vs s h in
    rw (set_insert_last v s a) (
      insert_all-append (s ++ v ∷ []) vs (All-append _ s (v ∷ []) b (k.0, tt)) k.1
      ∙ append_assoc s (v ∷ []) vs)

-- A set that is inserted member by member into the empty set comes back.
pub insert_all_self : (vs : List Text) → IsVolumeSet vs → insert_all [] vs ≡ vs
insert_all_self vs h = insert_all-append [] vs tt h

text_lt_trans : (s t u : Text) → text_lt s t ≡ true → text_lt t u ≡ true → text_lt s u ≡ true
unfolding text_lt
text_lt_trans [] [] [] h k = cc
text_lt_trans [] (y ∷ t) [] h k = cc
text_lt_trans [] [] (z ∷ u) h k = refl
text_lt_trans [] (y ∷ t) (z ∷ u) h k = refl
text_lt_trans (x ∷ s) [] [] h k = cc
text_lt_trans (x ∷ s) [] (z ∷ u) h k = cc
text_lt_trans (x ∷ s) (y ∷ t) [] h k = cc
text_lt_trans (x ∷ s) (y ∷ t) (z ∷ u) h k = ground (arith, text_lt_trans s t u)

All-set_insert :
    (x v : Text) (vs : List Text)
    → text_lt x v ≡ true
    → All (λ w. text_lt x w ≡ true) vs
    → All (λ w. text_lt x w ≡ true) (set_insert v vs)
unfolding set_insert
All-set_insert x v [] e h = (e, tt)
All-set_insert x v (y ∷ vs) e h = ground (arith, All-set_insert x v vs e h.1)

All-lt_trans :
    (v x : Text) (vs : List Text)
    → text_lt v x ≡ true
    → All (λ w. text_lt x w ≡ true) vs
    → All (λ w. text_lt v w ≡ true) vs
All-lt_trans v x [] e h = tt
All-lt_trans v x (w ∷ vs) e h = (text_lt_trans v x w e h.0, All-lt_trans v x vs e h.1)

-- Insertion keeps the order and the absence of repetitions.
pub set_insert-IsVolumeSet :
    (v : Text) (vs : List Text) → IsVolumeSet vs → IsVolumeSet (set_insert v vs)
unfolding set_insert
set_insert-IsVolumeSet v [] h = (tt, tt)
set_insert-IsVolumeSet v (x ∷ xs) h = elim (Bool-cases (text_lt v x)) [
  | inl e ↦ rw e ((e, All-lt_trans v x xs e h.0), h)
  | inr e ↦ rw e (elim (Bool-cases (text_lt x v)) [
    | inl f ↦ rw f (All-set_insert x v xs f h.0, set_insert-IsVolumeSet v xs h.1)
    | inr f ↦ rw f h
  ])
]

pub insert_all-IsVolumeSet : (vs s : List Text) → IsVolumeSet s → IsVolumeSet (insert_all s vs)
insert_all-IsVolumeSet [] s h = h
insert_all-IsVolumeSet (v ∷ vs) s h =
    insert_all-IsVolumeSet vs (set_insert v s) (set_insert-IsVolumeSet v s h)
