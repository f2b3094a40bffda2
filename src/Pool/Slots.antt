-- ===== src/Pool/Slots.antt =====
-- The slots of the pool after a write.
use hoststack.Prelude.{
  ℕ, zero, suc, ◌<◌, ◌≡◌, ◌≢◌, refl, none, some, List, [], ◌∷◌, Option, length, set, arith,
  replicate,
}
use hoststack.Pool.{slot, free_slot}

pub slot_same :
    (fds : List (Option ℕ)) (i : ℕ) (v : Option ℕ) → i < length fds → slot (set fds i v) i ≡ v
slot_same [] i v l = elim l [ ]
slot_same (f ∷ fds) zero v l = refl
slot_same (f ∷ fds) (suc i) v l = slot_same fds i v (omega (arith, l))

pub slot_other :
    (fds : List (Option ℕ)) (i j : ℕ) (v : Option ℕ) → j ≢ i → slot (set fds i v) j ≡ slot fds j
slot_other [] i j v n = refl
slot_other (f ∷ fds) zero zero v n = absurd (n refl)
slot_other (f ∷ fds) zero (suc j) v n = refl
slot_other (f ∷ fds) (suc i) zero v n = refl
slot_other (f ∷ fds) (suc i) (suc j) v n = slot_other fds i j v (λ e. n (omega (arith, e)))

pub slot_cleared : (fds : List (Option ℕ)) (i : ℕ) → slot (set fds i none) i ≡ none
slot_cleared [] i = refl
slot_cleared (f ∷ fds) zero = refl
slot_cleared (f ∷ fds) (suc i) = slot_cleared fds i

pub slot-replicate : (n i : ℕ) → slot (replicate n none) i ≡ none
slot-replicate zero i = refl
slot-replicate (suc n) zero = refl
slot-replicate (suc n) (suc i) = slot-replicate n i

abbrev pub FreeAt : List (Option ℕ) → Option ℕ → Type 0
FreeAt fds none = (i : ℕ) → i < length fds → (fd : ℕ) × (slot fds i ≡ some fd)
FreeAt fds (some i) = (i < length fds) × (slot fds i ≡ none)

pub free_slot-FreeAt : (fds : List (Option ℕ)) → FreeAt fds (free_slot fds)
unfolding free_slot
free_slot-FreeAt [] = λ i l. elim l [ ]
free_slot-FreeAt (none ∷ fds) = (omega arith, refl)
free_slot-FreeAt (some fd ∷ fds) = go (free_slot fds) (free_slot-FreeAt fds)
  where
    at_all :
        FreeAt fds none
        → (i : ℕ) → i < suc (length fds)
        → (f : ℕ) × (slot (some fd ∷ fds) i ≡ some f)
    at_all h zero l = (fd, refl)
    at_all h (suc i) l = h i (omega (arith, l))

    go :
        (o : Option ℕ)
        → FreeAt fds o
        → FreeAt (some fd ∷ fds) (elim o [ none ↦ none | some i ↦ some (suc i) ])
    go none h = at_all h
    go (some i) (l, e) = (omega (arith, l), e)
