-- ===== src/Rio.antt =====
-- common/socket_io.cpp: the Rio functions, which read and write a whole buffer. Loops run on fuel:
-- the outer `none` is its end. An inner `none` is the result -1, and a byte count is the length
-- of the bytes read. The structure rio_t holds the descriptor and the unread bytes of its buffer.
pub mod Reads
pub mod Writes
pub mod Buffered
pub mod Lines
pub mod Wrappers
use hoststack.Prelude.{
  ◌≡◌, refl, ◌⊎◌, inl, inr, Bool-cases, ℕ, zero, suc, ◌-◌, Bool, true, false, Option, none, some,
  List, [], ◌∷◌, ◌++◌, if◌then◌else◌, length, take, drop, ◌==◌,
}
use hoststack.Prelude.Text.{Text}
use hoststack.Outcome.{Outcome, ok, exits, undefined}
use hoststack.Io.{Io}

pub record Buffer : Type 0 where
  pub fd : ℕ
  pub unread : Text

-- RIO_BUFSIZE
abbrev pub buffer_size : ℕ
buffer_size = 8192

-- Which branch the result of a read or a write takes.
abbrev pub after_read {ℓ} :
    {R State : Type ℓ}
    → (State → Bool)
    → Option Text × State
    → (State → R)
    → (State → R)
    → (State → R)
    → (Text → State → R)
    → R
after_read eintr (none, t) again fail stop go = if eintr t then again t else fail t
after_read eintr (some [], t) again fail stop go = stop t
after_read eintr (some (c ∷ d), t) again fail stop go = go (c ∷ d) t

abbrev pub after_write {ℓ} :
    {R State : Type ℓ}
    → (State → Bool)
    → Option ℕ × State
    → (State → R)
    → (State → R)
    → (ℕ → State → R)
    → R
after_write eintr (none, t) again fail go = if eintr t then again t else fail t
after_write eintr (some zero, t) again fail go = if eintr t then again t else fail t
after_write eintr (some (suc k), t) again fail go = go (suc k) t

module _ {ℓ κ} {R State : Type ℓ} (P : R → Type κ) (eintr : State → Bool) where
  -- A property of each branch holds of the result.
  pub after_read_lem :
      (r : Option Text × State) (again fail stop : State → R) (go : Text → State → R)
      → ((t : State) → r ≡ (none, t) → eintr t ≡ true → P (again t))
      → ((t : State) → r ≡ (none, t) → eintr t ≡ false → P (fail t))
      → ((t : State) → r ≡ (some [], t) → P (stop t))
      → ((c : ℕ) (d : Text) (t : State) → r ≡ (some (c ∷ d), t) → P (go (c ∷ d) t))
      → P (after_read eintr r again fail stop go)
  after_read_lem (none, t) again fail stop go ha hf hs hg = elim (Bool-cases (eintr t)) [
    | inl e ↦ rw e (ha t refl e)
    | inr e ↦ rw e (hf t refl e)
  ]
  after_read_lem (some [], t) again fail stop go ha hf hs hg = hs t refl
  after_read_lem (some (c ∷ d), t) again fail stop go ha hf hs hg = hg c d t refl

  pub after_write_lem :
      (r : Option ℕ × State) (again fail : State → R) (go : ℕ → State → R)
      → ((t : State) → (r ≡ (none, t)) ⊎ (r ≡ (some 0, t)) → eintr t ≡ true → P (again t))
      → ((t : State) → (r ≡ (none, t)) ⊎ (r ≡ (some 0, t)) → eintr t ≡ false → P (fail t))
      → ((k : ℕ) (t : State) → r ≡ (some (suc k), t) → P (go (suc k) t))
      → P (after_write eintr r again fail go)
  after_write_lem (none, t) again fail go ha hf hg = elim (Bool-cases (eintr t)) [
    | inl e ↦ rw e (ha t (inl refl) e)
    | inr e ↦ rw e (hf t (inl refl) e)
  ]
  after_write_lem (some zero, t) again fail go ha hf hg = elim (Bool-cases (eintr t)) [
    | inl e ↦ rw e (ha t (inr refl) e)
    | inr e ↦ rw e (hf t (inr refl) e)
  ]
  after_write_lem (some (suc k), t) again fail go ha hf hg = hg k t refl

module _ (io : Io) where
  abbrev pub Answer : Type 0
  Answer = Option (Option Text × io.State)

  pub rio_readn_loop : ℕ → ℕ → ℕ → Text → io.State → Answer
  rio_readn_loop zero fd left buf s = none
  rio_readn_loop (suc fuel) fd zero buf s = some (some buf, s)
  rio_readn_loop (suc fuel) fd (suc left) buf s =
      after_read io.eintr (io.read fd (suc left) s) (λ t. rio_readn_loop fuel fd (suc left) buf t)
        (λ t. some (none, t)) (λ t. some (some buf, t))
        (λ d t. rio_readn_loop fuel fd (suc left - length d) (buf ++ d) t)

  pub rio_readn : ℕ → ℕ → ℕ → io.State → Answer
  unfolding rio_readn_loop
  rio_readn fuel fd n s = rio_readn_loop fuel fd n [] s

  -- The bytes that are left, and whether the result is n.
  unfoldable pub rio_writen : ℕ → ℕ → Text → io.State → Option (Bool × io.State)
  rio_writen zero fd buf s = none
  rio_writen (suc fuel) fd [] s = some (true, s)
  rio_writen (suc fuel) fd (c ∷ buf) s =
      after_write io.eintr (io.write fd (c ∷ buf) s) (λ t. rio_writen fuel fd (c ∷ buf) t)
        (λ t. some (false, t)) (λ k t. rio_writen fuel fd (drop k (c ∷ buf)) t)

  -- The loop that refills an empty buffer: the result -1, 0, or bytes to copy.
  pub rio_refill : ℕ → ℕ → Text → io.State → Option (Option Bool × (Text × io.State))
  rio_refill zero fd unread s = none
  rio_refill (suc fuel) fd (c ∷ unread) s = some (some true, (c ∷ unread, s))
  rio_refill (suc fuel) fd [] s =
      after_read io.eintr (io.read fd buffer_size s) (λ t. rio_refill fuel fd [] t)
        (λ t. some (none, ([], t))) (λ t. some (some false, ([], t)))
        (λ d t. some (some true, (d, t)))

  -- min(n, rio_cnt) bytes out of the buffer
  abbrev pub rio_copy :
      ℕ → ℕ → Option (Option Bool × (Text × io.State)) → Option (Option Text × (Buffer × io.State))
  rio_copy fd n none = none
  rio_copy fd n (some (none, (u, t))) = some (none, (record { fd = fd; unread = u }, t))
  rio_copy fd n (some (some false, (u, t))) = some (some [], (record { fd = fd; unread = u }, t))
  rio_copy fd n (some (some true, (u, t))) =
      some (some (take n u), (record { fd = fd; unread = drop n u }, t))

  pub rio_read : ℕ → Buffer → ℕ → io.State → Option (Option Text × (Buffer × io.State))
  unfolding rio_refill
  rio_read fuel rp n s = rio_copy rp.fd n (rio_refill fuel rp.fd rp.unread s)

  pub rio_readinitb : ℕ → Buffer
  rio_readinitb fd = record { fd = fd; unread = [] }

  -- Which branch the result of rio_read takes.
  abbrev pub BufferedAnswer : Type 0
  BufferedAnswer = Option (Option Text × (Buffer × io.State))

  abbrev pub after_rio_read :
      BufferedAnswer
      → (Buffer → io.State → BufferedAnswer)
      → (ℕ → Text → Buffer → io.State → BufferedAnswer)
      → BufferedAnswer
  after_rio_read none stop go = none
  after_rio_read (some (none, r)) stop go = some (none, r)
  after_rio_read (some (some [], (rp, t))) stop go = stop rp t
  after_rio_read (some (some (c ∷ d), (rp, t))) stop go = go c d rp t

  pub rio_readnb_loop : ℕ → ℕ → Buffer → ℕ → Text → io.State → BufferedAnswer
  unfolding rio_read
  rio_readnb_loop tries zero rp left buf s = none
  rio_readnb_loop tries (suc fuel) rp zero buf s = some (some buf, (rp, s))
  rio_readnb_loop tries (suc fuel) rp (suc left) buf s =
      after_rio_read (rio_read tries rp (suc left) s) (λ rp' t. some (some buf, (rp', t)))
        (λ c d rp' t. rio_readnb_loop tries fuel rp' (suc left - length (c ∷ d)) (buf ++ c ∷ d) t)

  pub rio_readnb : ℕ → Buffer → ℕ → io.State → BufferedAnswer
  unfolding rio_readnb_loop
  rio_readnb tries rp n s = rio_readnb_loop tries (suc n) rp n [] s

  -- The loop with maxlen - n rounds to go.
  pub rio_readlineb_loop : ℕ → ℕ → Buffer → Text → io.State → BufferedAnswer
  unfolding rio_read
  rio_readlineb_loop tries zero rp buf s = some (some buf, (rp, s))
  rio_readlineb_loop tries (suc rounds) rp buf s =
      after_rio_read (rio_read tries rp 1 s) (λ rp' t. some (some buf, (rp', t)))
        (λ c d rp' t.
          let more = rio_readlineb_loop tries rounds rp' (buf ++ c ∷ []) t in
          if c == 10 then some (some (buf ++ c ∷ []), (rp', t)) else more)

  -- At least one byte of the caller's buffer is for the terminating zero.
  pub rio_readlineb : ℕ → Buffer → ℕ → io.State → BufferedAnswer
  unfolding rio_readlineb_loop
  rio_readlineb tries rp maxlen s = rio_readlineb_loop tries (maxlen - 1) rp [] s
