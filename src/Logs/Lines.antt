-- ===== src/Logs/Lines.antt =====
-- common/logger.cpp and common/log.h: the line of a message, and the buffer that it is made in.
use mathlib.Core.List.{append_assoc, append-nil}
use hoststack.Prelude.{
  ℕ, zero, suc, ◌+◌, ◌-◌, ◌<◌, ◌≤◌, ◌≡◌, refl, sym, ap, ◌∙◌, true, Option, none, some, [], ◌∷◌,
  ◌++◌, if◌then◌else◌, ltb, length, take, length-append, length-take_le, arith, Bool-cases, inl,
  inr, ltb→lt, not_ltb→le,
}
use hoststack.Prelude.Text.{Text, codes}
use hoststack.Strings.Buffer.{strcat}
use hoststack.Logs.{maxbuf, append_bounded, logger_text, logger_line, log_line}

-- Two pieces of which only so many bytes are kept.
take-append_take :
    (n : ℕ) (a b : Text) → take n a ++ take (n - length (take n a)) b ≡ take n (a ++ b)
take-append_take zero a b = refl
take-append_take (suc n) [] b = rw (minus_zero n) refl
  where
    minus_zero : (n : ℕ) → suc n - 0 ≡ suc n
    minus_zero n = omega arith
take-append_take (suc n) (x ∷ a) b =
    ap (λ k. x ∷ (take n a ++ take k b)) (minus_suc n (length (take n a)))
    ∙ ap (◌∷◌ x) (take-append_take n a b)
  where
    minus_suc : (n k : ℕ) → suc n - suc k ≡ n - k
    minus_suc n k = omega arith

pub take_of_le : (n : ℕ) (s : Text) → length s ≤ n → take n s ≡ s
take_of_le n [] h = empty n
  where
    empty : (n : ℕ) → take {A = ℕ} n [] ≡ []
    empty zero = refl
    empty (suc n) = refl
take_of_le zero (x ∷ s) h = absurd (omega arith)
take_of_le (suc n) (x ∷ s) h = ap (◌∷◌ x) (take_of_le n s (omega arith))

pub length-take_of_le : (n : ℕ) (s : Text) → n ≤ length s → length (take n s) ≡ n
length-take_of_le zero s h = refl
length-take_of_le (suc n) [] h = absurd (omega arith)
length-take_of_le (suc n) (x ∷ s) h = ap suc (length-take_of_le n s (omega arith))

-- The bytes that the pieces of a line have room for.
abbrev pub limit : ℕ
limit = 8190

append_bounded_lem : (a b : Text) → append_bounded (take limit a) b ≡ take limit (a ++ b)
unfolding append_bounded
append_bounded_lem a b =
    ap (λ k. take limit a ++ take k b) (room (length (take limit a))) ∙ take-append_take limit a b
  where
    room : (k : ℕ) → maxbuf - k - 1 - 1 ≡ limit - k
    room k = omega arith

two_pieces :
    (stamp prefix body : Text)
    → length stamp ≤ limit
    → append_bounded (append_bounded stamp prefix) body ≡ take limit ((stamp ++ prefix) ++ body)
two_pieces stamp prefix body h =
    ap (λ s. append_bounded (append_bounded s prefix) body) (sym (take_of_le limit stamp h))
    ∙ ap (λ s. append_bounded s body) (append_bounded_lem stamp prefix)
    ∙ append_bounded_lem (stamp ++ prefix) body

-- The whole message, with the text of the error number if there is one.
abbrev pub suffix : Option Text → Text
suffix none = []
suffix (some err) = codes ": " ++ err

abbrev pub whole : Text → Text → Text → Option Text → Text
whole stamp prefix body err = stamp ++ (prefix ++ (body ++ suffix err))

pieces :
    (stamp prefix body : Text)
    → length stamp ≤ limit
    → append_bounded (append_bounded stamp prefix) body ≡ take limit (whole stamp prefix body none)
pieces stamp prefix body h =
    two_pieces stamp prefix body h ∙ ap (take limit) (simp (append_assoc, append-nil))

logger_text-eq :
    (stamp prefix body : Text) (err : Option Text)
    → length stamp ≤ limit
    → logger_text stamp prefix body err ≡ take limit (whole stamp prefix body err)
unfolding logger_text
logger_text-eq stamp prefix body none h = pieces stamp prefix body h
logger_text-eq stamp prefix body (some err) h =
    ap (λ s. append_bounded s (codes ": " ++ err)) (two_pieces stamp prefix body h)
    ∙ append_bounded_lem ((stamp ++ prefix) ++ body) (codes ": " ++ err)
    ∙ ap (take limit) (simp append_assoc)

-- The end of the line, two bytes, after the kept ones.
end_fits :
    (s : Text)
    → length s < limit
    → strcat (record { size = maxbuf; bytes = take limit s }) (13 ∷ 10 ∷ [])
      ≡ some (record { size = maxbuf; bytes = s ++ 13 ∷ 10 ∷ [] })
unfolding strcat
end_fits s h = rw (take_of_le limit s (omega arith)) (rw (fits (length s) h) refl)
  where
    fits : (k : ℕ) → k < limit → ltb (k + 2) maxbuf ≡ true
    fits k h = ground arith

end_overflows :
    (s : Text)
    → limit ≤ length s
    → strcat (record { size = maxbuf; bytes = take limit s }) (13 ∷ 10 ∷ []) ≡ none
unfolding strcat
end_overflows s h = rw (length-take_of_le limit s h) refl

-- Where the time fits, Logger::dolog makes a line of the whole message if that is shorter than 8190
-- bytes; any longer message is cut to 8190 bytes, and the end of the line is then written past the
-- buffer.
pub logger_line-whole :
    (stamp prefix body : Text) (err : Option Text)
    → length stamp ≤ limit
    → logger_line stamp prefix body err ≡ (
        if ltb (length (whole stamp prefix body err)) limit
        then some (record { size = maxbuf; bytes = whole stamp prefix body err ++ 13 ∷ 10 ∷ [] })
        else none)
unfolding logger_line
logger_line-whole stamp prefix body err h =
    ap (λ s. strcat (record { size = maxbuf; bytes = s }) (13 ∷ 10 ∷ []))
      (logger_text-eq stamp prefix body err h)
    ∙ split (whole stamp prefix body err)
  where
    split :
        (s : Text)
        → strcat (record { size = maxbuf; bytes = take limit s }) (13 ∷ 10 ∷ []) ≡ (
            if ltb (length s) limit
            then some (record { size = maxbuf; bytes = s ++ 13 ∷ 10 ∷ [] })
            else none)
    split s = elim (Bool-cases (ltb (length s) limit)) [
      | inl e ↦ rw e (end_fits s (ltb→lt (length s) limit e))
      | inr e ↦ rw e (end_overflows s (not_ltb→le (length s) limit e))
    ]

pub logger_line_short :
    (stamp prefix body : Text) (err : Option Text)
    → length stamp ≤ limit
    → length (whole stamp prefix body err) < limit
    → logger_line stamp prefix body err
      ≡ some (record { size = maxbuf; bytes = whole stamp prefix body err ++ 13 ∷ 10 ∷ [] })
logger_line_short stamp prefix body err h l =
    logger_line-whole stamp prefix body err h
    ∙ rw (short (length (whole stamp prefix body err)) l) refl
  where
    short : (k : ℕ) → k < limit → ltb k limit ≡ true
    short k h = ground arith

-- Where the time fits, the line of _dolog, with its terminator, stays inside its buffer, whatever the
-- message: it is the first 8190 bytes of it, and a newline.
pub log_line-fits :
    (stamp prefix body : Text)
    → length stamp ≤ limit
    → (log_line stamp prefix body
        ≡ some (record {
          size = maxbuf;
          bytes = take limit (whole stamp prefix body none) ++ 10 ∷ [];
        }))
      × (length (take limit (whole stamp prefix body none) ++ 10 ∷ []) < maxbuf)
unfolding log_line strcat
log_line-fits stamp prefix body h =
    let room = length-take_le limit (whole stamp prefix body none) in
    (
      ap (λ s. strcat (record { size = maxbuf; bytes = s }) (10 ∷ [])) (pieces stamp prefix body h)
          ∙ rw (fits (length (take limit (whole stamp prefix body none))) room) refl,
      omega (arith, room, length-append (take limit (whole stamp prefix body none)) (10 ∷ [])),
    )
  where
    fits : (k : ℕ) → k ≤ limit → ltb (k + 1) maxbuf ≡ true
    fits k h = ground arith
