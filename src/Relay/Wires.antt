-- ===== src/Relay/Wires.antt =====
-- An instance of the interfaces: for each descriptor, the bytes that it has still to deliver, those
-- that it has delivered, and those that it has taken. Every call succeeds.
use hoststack.Prelude.{
  ℕ, suc, ◌≡◌, ◌≢◌, ◌≤◌, refl, sym, ap, ◌∙◌, subst, false, Option, none, some, [], ◌++◌, length,
  take, drop, take-drop, length-take_le, if◌then◌else◌, ◌==◌, arith, true, some_part, take_nothing,
  no_refusal,
}
use hoststack.Prelude.Text.{Text}
use hoststack.Strings.Buffer.{take_all}
use hoststack.Io.{Io}
use hoststack.Pool.Serve.{Waiting}
use hoststack.Relay.{Traffic}

pub data Wires : Type 0 where
  wires : (ℕ → Text) → (ℕ → Text) → (ℕ → Text) → Wires

abbrev pub left_at : ℕ → Wires → Text
left_at fd (wires l g w) = l fd

abbrev pub got_at : ℕ → Wires → Text
got_at fd (wires l g w) = g fd

abbrev pub taken_at : ℕ → Wires → Text
taken_at fd (wires l g w) = w fd

abbrev pub put_at : ℕ → Text → (ℕ → Text) → ℕ → Text
put_at fd s f g = if g == fd then s else f g

abbrev pub wire_read : ℕ → ℕ → Wires → Option Text × Wires
wire_read fd n (wires l g w) = (
  some (take n (l fd)),
  wires (put_at fd (drop n (l fd)) l) (put_at fd (g fd ++ take n (l fd)) g) w,
)

abbrev pub wire_write : ℕ → Text → Wires → Option ℕ × Wires
wire_write fd d (wires l g w) = (some (length d), wires l g (put_at fd (w fd ++ d) w))

put_at_self : (fd : ℕ) (s : Text) (f : ℕ → Text) → put_at fd s f fd ≡ s
put_at_self fd s f = ground arith

put_at_other : (fd g : ℕ) (s : Text) (f : ℕ → Text) → g ≢ fd → put_at fd s f g ≡ f g
put_at_other fd g s f n = ground arith

pub wire_read_data :
    (fd n : ℕ) (s t : Wires) (d : Text)
    → wire_read fd n s ≡ (some d, t)
    → (left_at fd s ≡ d ++ left_at fd t) × (length d ≤ n)
wire_read_data fd n (wires l g w) t d e =
    let same = ap (λ r. r.1) e in
    (
      sym (take-drop n (l fd))
          ∙ ap (λ z. z ++ drop n (l fd)) (some_part e)
          ∙ ap (λ z. d ++ z) (sym (put_at_self fd (drop n (l fd)) l))
          ∙ ap (λ z. d ++ left_at fd z) same,
      subst (λ z. length z ≤ n) (some_part e) (length-take_le n (l fd)),
    )

pub wire_read_end :
    (fd n : ℕ) (s t : Wires) → wire_read fd (suc n) s ≡ (some [], t) → left_at fd s ≡ []
wire_read_end fd n (wires l g w) t e = take_nothing n (l fd) (some_part e)

pub wire_read_succeeds : (fd n : ℕ) (s t : Wires) → wire_read fd n s ≡ (none, t) → ⊥
wire_read_succeeds fd n (wires l g w) t e = no_refusal e

pub wire_write-some :
    (fd k : ℕ) (s t : Wires) (d : Text)
    → wire_write fd d s ≡ (some k, t)
    → (taken_at fd t ≡ taken_at fd s ++ take k d) × (k ≤ length d)
wire_write-some fd k (wires l g w) t d e = (
  sym (ap (λ r. taken_at fd r.1) e)
      ∙ put_at_self fd (w fd ++ d) w
      ∙ ap (λ z. w fd ++ z) (sym (take_all d))
      ∙ ap (λ z. w fd ++ take z d) (some_part e),
  subst (λ z. z ≤ length d) (some_part e) (omega arith),
)

pub wire_write_succeeds : (fd : ℕ) (s t : Wires) (d : Text) → wire_write fd d s ≡ (none, t) → ⊥
wire_write_succeeds fd (wires l g w) t d e = no_refusal e

pub uninterrupted : false ≡ true → ⊥
uninterrupted e = cc

abbrev pub wire_io : Io
wire_io = record {
  State = Wires;
  read = λ fd n s. wire_read fd n s;
  write = λ fd d s. wire_write fd d s;
  close = λ fd s. s;
  eintr = λ s. false;
  patience = λ s. 0;
  pending = λ fd s. left_at fd s;
  written = λ fd s. taken_at fd s;
  read_data = λ fd n s t d e. let (p, l) = wire_read_data fd n s t d e in (p, l, omega arith);
  read_end = λ fd n s t e. wire_read_end fd n s t e;
  read_refused = λ fd n s t e. absurd (wire_read_succeeds fd n s t e);
  write_some = λ fd k s t d e. let (p, l) = wire_write-some fd k s t d e in (p, l, omega arith);
  write_zero = λ fd s t d e i. absurd (uninterrupted i);
  write_refused = λ fd s t d e. absurd (wire_write_succeeds fd s t d e);
  close_patience = λ fd s. omega arith;
}

-- Every descriptor that is asked for is ready, and no client comes.
abbrev pub wire_waiting : Waiting wire_io
wire_waiting = record {
  select = λ n r s. (some (1, r), s);
  accept = λ fd s. (none, s);
  select_patience = λ n r s. omega arith;
  accept_patience = λ fd s. omega arith;
}

pub got_read :
    (fd n : ℕ) (s t : Wires) (d : Text)
    → wire_read fd n s ≡ (some d, t)
    → got_at fd t ≡ got_at fd s ++ d
got_read fd n (wires l g w) t d e =
    sym (ap (λ r. got_at fd r.1) e)
    ∙ put_at_self fd (g fd ++ take n (l fd)) g
    ∙ ap (λ z. g fd ++ z) (some_part e)

pub got_elsewhere : (fd g n : ℕ) (s : Wires) → g ≢ fd → got_at g (wire_read fd n s).1 ≡ got_at g s
got_elsewhere fd i n (wires l g w) ne = put_at_other fd i _ g ne

pub got_write : (fd g : ℕ) (d : Text) (s : Wires) → got_at g (wire_write fd d s).1 ≡ got_at g s
got_write fd i d (wires l g w) = refl

pub taken_read : (fd g n : ℕ) (s : Wires) → taken_at g (wire_read fd n s).1 ≡ taken_at g s
taken_read fd i n (wires l g w) = refl

pub taken_elsewhere :
    (fd g : ℕ) (d : Text) (s : Wires) → g ≢ fd → taken_at g (wire_write fd d s).1 ≡ taken_at g s
taken_elsewhere fd i d (wires l g w) ne = put_at_other fd i _ w ne

abbrev pub wire_traffic : Traffic wire_io wire_waiting
wire_traffic = record {
  got = λ fd s. got_at fd s;
  got-read = λ fd n s t d e. got_read fd n s t d e;
  got_refused = λ fd n s t e. absurd (wire_read_succeeds fd n s t e);
  got_other = λ fd g n s ne. got_elsewhere fd g n s ne;
  got-write = λ fd g d s. got_write fd g d s;
  got-select = λ n g r s. refl;
  written-read = λ fd g n s. taken_read fd g n s;
  written_other = λ fd g d s ne. taken_elsewhere fd g d s ne;
  written-select = λ n g r s. refl;
}
