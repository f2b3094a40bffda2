-- ===== src/Pool/Sets.antt =====
-- pty/pty_exec_util.cpp: sets of descriptors with one added or removed.
use hoststack.Prelude.{ℕ, ◌≤◌, ◌≡◌, ◌≢◌, ◌⊎◌, true, false, arith, Bool}
use hoststack.Pool.{FdSet, fd_set, fd_clr, max}

pub not_both : {b : Bool} → b ≡ true → b ≡ false → ⊥
not_both e f = cc

-- Which slot an index of the written slots is.
pub same_index : (i j : ℕ) → (i ≡ j) ⊎ (i ≢ j)
same_index i j = grind arith

pub fd_clr_iff : (fd x : ℕ) (s : FdSet) → fd_clr fd s x ≡ true → (x ≢ fd) × (s x ≡ true)
fd_clr_iff fd x s e = grind (arith)

pub fd_clr_other : (fd x : ℕ) (s : FdSet) → x ≢ fd → s x ≡ true → fd_clr fd s x ≡ true
fd_clr_other fd x s n e = grind arith

pub fd_set_same : (fd : ℕ) (s : FdSet) → fd_set fd s fd ≡ true
fd_set_same fd s = grind arith

pub fd_set_more : (fd x : ℕ) (s : FdSet) → s x ≡ true → fd_set fd s x ≡ true
fd_set_more fd x s e = grind arith

pub fd_set_iff : (fd x : ℕ) (s : FdSet) → fd_set fd s x ≡ true → (x ≡ fd) ⊎ (s x ≡ true)
fd_set_iff fd x s e = grind arith

pub max_left : (a b : ℕ) → a ≤ max a b
max_left a b = ground arith

pub max_right : (a b : ℕ) → b ≤ max a b
max_right a b = ground arith
