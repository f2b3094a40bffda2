-- ===== src/Pool/Kept.antt =====
-- pty/pty_exec_util.cpp: add_client and the slots, against the validity of the pool.
use hoststack.Prelude.{
  if◌then◌else◌, ltb, lt→ltb, ◌-◌, ℕ, suc, ◌<◌, ◌≡◌, ◌≢◌, ◌⊎◌, inl, inr, refl, sym, ◌∙◌, true,
  false, none, some, List, Option, length, length-set, set, arith, no_some, same_some,
}
use hoststack.Outcome.{ok, undefined}
use hoststack.Pool.{
  Pool, FdSet, fd_set, fd_clr, slot, max, fd_setsize, add_client, free_slot, fill_slot,
}
use hoststack.Pool.Valid.{Valid, IsValid}
use hoststack.Pool.Slots.{slot_same, slot_other, slot_cleared, FreeAt, free_slot-FreeAt}
use hoststack.Pool.Sets.{
  not_both, same_index, fd_clr_iff, fd_clr_other, fd_set_same, fd_set_more, fd_set_iff, max_left,
  max_right,
}

-- A client that is in a slot after another slot has been cleared.
left_over :
    (fds : List (Option ℕ)) (i j x : ℕ)
    → slot (set fds i none) j ≡ some x
    → (j ≢ i) × (slot fds j ≡ some x)
left_over fds i j x f = go (same_index j i)
  where
    go : (j ≡ i) ⊎ (j ≢ i) → (j ≢ i) × (slot fds j ≡ some x)
    go (inl q) = absurd (no_some (sym (slot_cleared fds i) ∙ (rw q at f)))
    go (inr n) = (n, sym (slot_other fds i j none n) ∙ f)

-- A client that is in a slot after another slot has been filled.
still_there :
    (fds : List (Option ℕ)) (i j x : ℕ) (v : Option ℕ)
    → slot fds i ≡ none
    → slot fds j ≡ some x
    → slot (set fds i v) j ≡ some x
still_there fds i j x v e f = go (same_index j i)
  where
    go : (j ≡ i) ⊎ (j ≢ i) → slot (set fds i v) j ≡ some x
    go (inl q) = absurd (no_some (sym e ∙ (rw q at f)))
    go (inr n) = slot_other fds i j v n ∙ f

-- The client of a slot after one has been filled: the new one there, or one that was there.
old_or_new :
    (fds : List (Option ℕ)) (i j c x : ℕ)
    → i < length fds
    → slot (set fds i (some c)) j ≡ some x
    → ((j ≡ i) × (x ≡ c)) ⊎ ((j ≢ i) × (slot fds j ≡ some x))
old_or_new fds i j c x l f = go (same_index j i)
  where
    go : (j ≡ i) ⊎ (j ≢ i) → ((j ≡ i) × (x ≡ c)) ⊎ ((j ≢ i) × (slot fds j ≡ some x))
    go (inl q) = inl (q, sym (same_some (sym (slot_same fds i (some c) l) ∙ (rw q at f))))
    go (inr n) = inr (n, sym (slot_other fds i j (some c) n) ∙ f)

-- A client leaves.
pub clear-Valid :
    (listenfd masterfd maxfd clients : ℕ) (fds : List (Option ℕ)) (read_set : FdSet) (i fd : ℕ)
    → Valid listenfd masterfd maxfd clients fds read_set
    → slot fds i ≡ some fd
    → Valid listenfd masterfd maxfd clients (set fds i none) (fd_clr fd read_set)
clear-Valid listenfd masterfd maxfd clients fds read_set i fd v e =
    let (m, nl, nm) = v.reads i fd e in
    record {
      size = length-set fds i none ∙ v.size;
      listens = fd_clr_other fd listenfd read_set (λ q. nl (sym q)) v.listens;
      serves = fd_clr_other fd masterfd read_set (λ q. nm (sym q)) v.serves;
      reads = λ j x f.
          let (n, g) = left_over fds i j x f in
          let (r, nl', nm') = v.reads j x g in
          (fd_clr_other fd x read_set (λ q. n (v.distinct j i fd (rw q at g) e)) r, nl', nm');
      members = λ x f.
          let (n, g) = fd_clr_iff fd x read_set f in
          elim (v.members x g) [
            | inl q ↦ inl q
            | inr (inl q) ↦ inr (inl q)
            | inr (inr (j, h)) ↦ inr (
                inr (j, slot_other fds i j none (λ q. n (same_some (sym h ∙ (rw (← q) at e)))) ∙ h))
          ];
      distinct = λ j k x f g. v.distinct j k x (left_over fds i j x f).1 (left_over fds i k x g).1;
      bounded = λ x f. v.bounded x (fd_clr_iff fd x read_set f).1;
      beyond = λ j b. elim (same_index j i) [
        | inl q ↦ rw q (slot_cleared fds i)
        | inr n ↦ slot_other fds i j none n ∙ v.beyond j b
      ];
    }

-- Two slots that hold the same client after one has been filled.
module _ (fds : List (Option ℕ)) (read_set : FdSet) (i c : ℕ)
    (reads : (k x : ℕ) → slot fds k ≡ some x → read_set x ≡ true)
    (distinct : (j k x : ℕ) → slot fds j ≡ some x → slot fds k ≡ some x → j ≡ k)
    (fresh : read_set c ≡ false) where
  old_client : (x k : ℕ) → x ≡ c → slot fds k ≡ some x → ⊥
  old_client x k q g = not_both (reads k x g) (rw (← q) at fresh)

  one_slot :
      (j k x : ℕ)
      → ((j ≡ i) × (x ≡ c)) ⊎ ((j ≢ i) × (slot fds j ≡ some x))
      → ((k ≡ i) × (x ≡ c)) ⊎ ((k ≢ i) × (slot fds k ≡ some x))
      → j ≡ k
  one_slot j k x (inl (p, q)) (inl (r, t)) = p ∙ sym r
  one_slot j k x (inl (p, q)) (inr (r, t)) = absurd (old_client x k q t)
  one_slot j k x (inr (p, q)) (inl (r, t)) = absurd (old_client x j t q)
  one_slot j k x (inr (p, q)) (inr (r, t)) = distinct j k x q t

-- A client arrives, in a free slot.
fill-Valid :
    (listenfd masterfd maxfd clients : ℕ) (fds : List (Option ℕ)) (read_set : FdSet) (i c : ℕ)
    → Valid listenfd masterfd maxfd clients fds read_set
    → i < length fds
    → slot fds i ≡ none
    → read_set c ≡ false
    → Valid listenfd masterfd
        (max maxfd c)
        (max clients (suc i))
        (set fds i (some c))
        (fd_set c read_set)
fill-Valid listenfd masterfd maxfd clients fds read_set i c v l e fresh = record {
  size = length-set fds i (some c) ∙ v.size;
  listens = fd_set_more c listenfd read_set v.listens;
  serves = fd_set_more c masterfd read_set v.serves;
  reads = λ j x f. elim (old_or_new fds i j c x l f) [
    | inl (q, r) ↦ rw r (
      fd_set_same c read_set,
      (λ n. not_both v.listens (rw n at fresh)),
      (λ n. not_both v.serves (rw n at fresh)),
    )
    | inr (n, g) ↦ let (r, nl', nm') = v.reads j x g in (fd_set_more c x read_set r, nl', nm')
  ];
  members = λ x f. elim (fd_set_iff c x read_set f) [
    | inl q ↦ inr (inr (i, rw q (slot_same fds i (some c) l)))
    | inr g ↦ elim (v.members x g) [
      | inl q ↦ inl q
      | inr (inl q) ↦ inr (inl q)
      | inr (inr (j, h)) ↦ inr (inr (j, still_there fds i j x (some c) e h))
    ]
  ];
  distinct = λ j k x f g.
      one_slot fds read_set i c (λ n y h. (v.reads n y h).0) v.distinct fresh j k x
        (old_or_new fds i j c x l f) (old_or_new fds i k c x l g);
  bounded = λ x f. elim (fd_set_iff c x read_set f) [
    | inl q ↦ omega (arith, q, max_right maxfd c)
    | inr g ↦ omega (arith, v.bounded x g, max_left maxfd c)
  ];
  beyond = λ j b.
      slot_other fds i j (some c) (λ q. omega (arith, q, b, max_right clients (suc i)))
      ∙ v.beyond j (omega (arith, b, max_left clients (suc i)));
}

-- What add_client does to a valid pool: the new client is in it, or every slot is taken and the
-- pool is as it was.
abbrev pub Adds : ℕ → ℕ → Pool → Pool → Type 0
Adds listenfd connfd p p' =
    IsValid listenfd p'
    × (((i : ℕ) × (slot p'.clientfd i ≡ some connfd))
        ⊎ (((i : ℕ) → i < fd_setsize → (fd : ℕ) × (slot p.clientfd i ≡ some fd))
            × (p'.clientfd ≡ p.clientfd)))

-- A new descriptor that fits the set joins a valid pool, which stays valid, unless all slots are
-- taken: then the pool does not change.
pub add_client-Adds :
    (listenfd connfd : ℕ) (p : Pool)
    → IsValid listenfd p
    → connfd < fd_setsize
    → p.read_set connfd ≡ false
    → (p' : Pool) × (add_client connfd p ≡ ok p') × Adds listenfd connfd p p'
unfolding add_client
add_client-Adds listenfd connfd p v l fresh =
    go (free_slot p.clientfd) (free_slot-FreeAt p.clientfd)
  where
    less : Pool
    less = record p { nready = p.nready - 1 }

    go :
        (o : Option ℕ)
        → FreeAt p.clientfd o
        → (p' : Pool) × (elim o [
          | none ↦ ok less
          | some i ↦ if ltb connfd fd_setsize then ok (fill_slot connfd i less) else undefined
        ]
            ≡ ok p')
          × Adds listenfd connfd p p'
    go none h = (less, refl, (v, inr ((λ i m. h i (rw v.size m)), refl)))
    go (some i) (m, e) = (
      fill_slot connfd i less,
      rw (lt→ltb connfd fd_setsize l) refl,
      (
        fill-Valid listenfd p.masterfd p.maxfd p.clients p.clientfd p.read_set i connfd v m e fresh,
        inl (i, slot_same p.clientfd i (some connfd) m),
      ),
    )
