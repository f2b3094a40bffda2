-- ===== src/Semaphores/Initial.antt =====
-- common/sem_util.cpp: what holds once a process has returned from SemUtil::get.
use hoststack.Prelude.{
  ℕ, ◌+◌, ◌-◌, ◌%◌, ◌<◌, ltb, ◌≡◌, refl, sym, ap, ◌∙◌, subst, Bool, true, false, ◌==◌, arith,
  Bool-cases, inl, inr, assign, some, no_some, same_some,
}
use hoststack.Semaphores.{
  Semaphore, absent, present, Getter, start, created, zeroed, initialised, existing, polling,
  attached, failed, System, system, has_returned, Step, create, set_value, operate, exists,
  open_existing, see, wait, give_up, fail, change, assign_value, max_tries, Reach, here, next,
  add_short,
}

-- The process is about to change the value by SETVAL or by its first operation.
abbrev pub is_creating : Getter → Bool
is_creating created = true
is_creating zeroed = true
is_creating start = false
is_creating initialised = false
is_creating existing = false
is_creating (polling tries) = false
is_creating attached = false
is_creating failed = false

abbrev is_zeroed : Getter → Bool
is_zeroed zeroed = true
is_zeroed created = false
is_zeroed start = false
is_zeroed initialised = false
is_zeroed existing = false
is_zeroed (polling tries) = false
is_zeroed attached = false
is_zeroed failed = false

-- What holds of every process at a semaphore that has not been operated on, and the process that
-- created it.
record Fresh (v : ℕ) (p : ℕ → Getter) : Type 0 where
  none_returned : (i : ℕ) → has_returned (p i) ≡ false
  single : (i j : ℕ) → is_creating (p i) ≡ true → is_creating (p j) ≡ true → i ≡ j
  zero_value : (i : ℕ) → is_zeroed (p i) ≡ true → v ≡ 0

record Operated (value v : ℕ) (c : Bool) (p : ℕ → Getter) : Type 0 where
  none_creating : (i : ℕ) → is_creating (p i) ≡ false
  initial : c ≡ false → v ≡ value % 65536

abbrev Inv : ℕ → System → Type 0
Inv value (system absent p) =
    ((i : ℕ) → has_returned (p i) ≡ false) × ((i : ℕ) → is_creating (p i) ≡ false)
Inv value (system (present v false c) p) = Fresh v p
Inv value (system (present v true c) p) = Operated value v c p

module _ (i : ℕ) (p : ℕ → Getter) (x : Getter) where
  assign_all :
      (test : Getter → Bool)
      → ((j : ℕ) → test (p j) ≡ false)
      → test x ≡ false
      → (j : ℕ) → test (assign p i x j) ≡ false
  assign_all test h e j = elim (Bool-cases (j == i)) [ inl m ↦ rw m e | inr m ↦ rw m (h j) ]

  -- A process that passes a test after the step passed it before, if the one that made the step did.
  assign_before :
      (test : Getter → Bool)
      → (test x ≡ true → test (p i) ≡ true)
      → (j : ℕ) → test (assign p i x j) ≡ true
      → test (p j) ≡ true
  assign_before test back j e = elim (Bool-cases (j == i)) [
    | inl m ↦ subst (λ n. test (p n) ≡ true) (sym (same j m)) (back (rw m at e))
    | inr m ↦ rw m at e
  ]
    where
      same : (j : ℕ) → (j == i) ≡ true → j ≡ i
      same j m = ground arith

zeroed-creating : (g : Getter) → is_creating g ≡ false → is_zeroed g ≡ false
zeroed-creating created e = refl
zeroed-creating zeroed e = e
zeroed-creating start e = refl
zeroed-creating initialised e = refl
zeroed-creating existing e = refl
zeroed-creating (polling n) e = refl
zeroed-creating attached e = refl
zeroed-creating failed e = refl

clash : {b : Bool} → b ≡ false → b ≡ true → ⊥
clash h e = cc

-- A step of a process that neither creates nor returns, at a fresh semaphore.
Fresh-assign :
    (i v : ℕ) (p : ℕ → Getter) (x : Getter)
    → has_returned x ≡ false
    → is_creating x ≡ false
    → Fresh v p
    → Fresh v (assign p i x)
Fresh-assign i v p x r c f = record {
  none_returned = assign_all i p x has_returned f.none_returned r;
  single = λ j k ej ek.
      f.single j k (assign_before i p x is_creating (λ e. absurd (clash c e)) j ej)
        (assign_before i p x is_creating (λ e. absurd (clash c e)) k ek);
  zero_value = λ j e.
      f.zero_value j
        (assign_before i p x is_zeroed (λ e. absurd (clash (zeroed-creating x c) e)) j e);
}

Operated-assign :
    (value i v : ℕ) (c : Bool) (p : ℕ → Getter) (x : Getter)
    → is_creating x ≡ false
    → Operated value v c p
    → Operated value v c (assign p i x)
Operated-assign value i v c p x h o = record {
  none_creating = assign_all i p x is_creating o.none_creating h;
  initial = o.initial;
}

-- A step in which a process that does not create takes no part in the semaphore.
aside :
    (value i : ℕ) (s : Semaphore) (p : ℕ → Getter) (x : Getter)
    → has_returned x ≡ false
    → is_creating x ≡ false
    → Inv value (system s p)
    → Inv value (system s (assign p i x))
aside value i absent p x r c (h, k) =
    (assign_all i p x has_returned h r, assign_all i p x is_creating k c)
aside value i (present v false b) p x r c f = Fresh-assign i v p x r c f
aside value i (present v true b) p x r c f = Operated-assign value i v b p x c f

-- The first operation, on a semaphore of 0, leaves the value, if it was not taken for a decrement.
add_short_zero : (value v w : ℕ) → v ≡ 0 → add_short value v ≡ some w → w ≡ value % 65536
unfolding add_short
add_short_zero value v w z e = elim (Bool-cases ((value % 65536) == 0)) [
  | inl n ↦ elim (Bool-cases (v == 0)) [
    | inl b ↦ equal (value % 65536) n z (same_some (rw (n, b) at e))
    | inr b ↦ absurd (no_some (rw (n, b) at e))
  ]
  | inr n ↦ elim (Bool-cases (ltb (value % 65536) 32768)) [
    | inl a ↦ elim (Bool-cases (ltb (v + value % 65536) 32768)) [
      | inl b ↦ omega (arith, z, same_some (rw (n, a, b) at e))
      | inr b ↦ absurd (no_some (rw (n, a, b) at e))
    ]
    | inr a ↦ elim (Bool-cases (ltb v (65536 - value % 65536))) [
      | inl b ↦ absurd (no_some (rw (n, a, b) at e))
      | inr b ↦ absurd (never (value % 65536) v z (mod_lt value) b)
    ]
  ]
]
  where
    mod_lt : (n : ℕ) → n % 65536 < 65536
    mod_lt n = omega arith

    is_zero : (n : ℕ) → (n == 0) ≡ true → n ≡ 0
    is_zero n b = ground arith

    equal : (n : ℕ) → (n == 0) ≡ true → v ≡ 0 → v ≡ w → w ≡ n
    equal n b y h = sym h ∙ y ∙ sym (is_zero n b)

    never : (n v : ℕ) → v ≡ 0 → n < 65536 → ltb v (65536 - n) ≡ false → ⊥
    never n v z l b = ground arith

Step-Inv : (value i : ℕ) {s t : System} → Step value i s t → Inv value s → Inv value t
Step-Inv value i (create v p e) (h, k) = record {
  none_returned = assign_all i p created has_returned h refl;
  single = λ j k ej ek. only j ej ∙ sym (only k ek);
  zero_value = λ j z.
      absurd (clash (assign_all i p created is_zeroed (λ j. zeroed-creating (p j) (k j)) refl j) z);
}
  where
    same : (j : ℕ) → (j == i) ≡ true → j ≡ i
    same j m = ground arith

    only : (j : ℕ) → is_creating (assign p i created j) ≡ true → j ≡ i
    only j c = elim (Bool-cases (j == i)) [
      | inl m ↦ same j m
      | inr m ↦ absurd (clash (k j) (rw m at c))
    ]
Step-Inv value i (set_value v false b p e) f = record {
  none_returned = assign_all i p zeroed has_returned f.none_returned refl;
  single = λ j k ej ek.
      f.single j k (assign_before i p zeroed is_creating (λ _. ap is_creating e) j ej)
        (assign_before i p zeroed is_creating (λ _. ap is_creating e) k ek);
  zero_value = λ j z. refl;
}
Step-Inv value i (set_value v true b p e) f = absurd (clash (f.none_creating i) (ap is_creating e))
Step-Inv value i (operate v w false b p e a) f = record {
  none_creating = λ j. none_left j;
  initial = λ _. add_short_zero value v w (f.zero_value i (ap is_zeroed e)) a;
}
  where
    same : (j : ℕ) → (j == i) ≡ false → j ≡ i → ⊥
    same j m h = absurd (ground arith)

    other : (j : ℕ) → (j == i) ≡ false → (b : Bool) → is_creating (p j) ≡ b → b ≡ false
    other j m true c = absurd (same j m (f.single j i c (ap is_creating e)))
    other j m false c = refl

    none_left : (j : ℕ) → is_creating (assign p i initialised j) ≡ false
    none_left j = elim (Bool-cases (j == i)) [
      | inl m ↦ rw m refl
      | inr m ↦ rw m (other j m (is_creating (p j)) refl)
    ]
Step-Inv value i (operate v w true b p e a) f =
    absurd (clash (f.none_creating i) (ap is_creating e))
Step-Inv value i (exists v o c p e) f = aside value i (present v o c) p existing refl refl f
Step-Inv value i (open_existing v o c p e) f =
    aside value i (present v o c) p (polling max_tries) refl refl f
Step-Inv value i (see v n c p e) f = Operated-assign value i v c p attached refl f
Step-Inv value i (wait v n c p e) f = aside value i (present v false c) p (polling n) refl refl f
Step-Inv value i (give_up v c p e) f = aside value i (present v false c) p failed refl refl f
Step-Inv value i (fail s p e) f = aside value i s p failed refl refl f
Step-Inv value i (change v w false c p e) f = absurd (clash (f.none_returned i) e)
Step-Inv value i (change v w true c p e) f = record {
  none_creating = f.none_creating;
  initial = λ h. absurd (clash h refl);
}
Step-Inv value i (assign_value v w false c p e) f = absurd (clash (f.none_returned i) e)
Step-Inv value i (assign_value v w true c p e) f = record {
  none_creating = f.none_creating;
  initial = λ h. absurd (clash h refl);
}

Reach-Inv : {value : ℕ} {s : System} → Reach value s → Inv value s
Reach-Inv here = (λ i. refl, λ i. refl)
Reach-Inv {value} (next i r step) = Step-Inv value i step (Reach-Inv r)

-- The semaphore is there and was operated on; no process will set it again by get; and unless one that
-- had returned has changed it, its value is the argument of get, as a short.
abbrev pub IsInitialised : ℕ → System → Type 0
IsInitialised value (system absent p) = ⊥
IsInitialised value (system (present v o c) p) =
    (o ≡ true) × ((j : ℕ) → is_creating (p j) ≡ false) × (c ≡ false → v ≡ value % 65536)

abbrev pub process : System → ℕ → Getter
process (system s p) = p

initialised_lem :
    (value i : ℕ) (s : System)
    → Inv value s
    → has_returned (process s i) ≡ true
    → IsInitialised value s
initialised_lem value i (system absent p) (h, k) e = absurd (clash (h i) e)
initialised_lem value i (system (present v false c) p) f e = absurd (clash (f.none_returned i) e)
initialised_lem value i (system (present v true c) p) f e = (refl, f.none_creating, f.initial)

-- However many processes call SemUtil::get on one key with one value, in whatever order their steps
-- fall, whichever of their calls fail, and however those that have returned increment, decrement and
-- set the semaphore, as long as none removes it: once one of them has returned, the first operation has
-- been made, and no process is about to set the value anew by get. Until one that has returned changes
-- it, the value is the one that get was called with, modulo 65536.
pub Reach-IsInitialised :
    {value : ℕ} {s : System}
    → Reach value s
    → (i : ℕ) → has_returned (process s i) ≡ true
    → IsInitialised value s
Reach-IsInitialised {value} {s} r i e = initialised_lem value i s (Reach-Inv r) e
