-- ===== src/Strings/Buffer.antt =====
-- The character buffers that common/usg_common.cpp allocates: a size and the string they hold.
-- Memory is never exhausted. A write past the end is `none`.
use hoststack.Prelude.{
  ℕ, ◌+◌, ◌*◌, ◌≡◌, refl, ap, Option, none, some, [], ◌∷◌, ◌++◌, ltb, leb, if◌then◌else◌, length,
  take,
}
use hoststack.Prelude.Text.{Text}

pub record Buffer : Type 0 where
  pub size : ℕ
  pub bytes : Text

-- malloc(size), and strcpy(buf, s) into it
unfoldable pub strcpy : ℕ → Text → Option Buffer
strcpy size s = if ltb (length s) size then some (record { size = size; bytes = s }) else none

-- strcat(buf, s)
unfoldable pub strcat : Buffer → Text → Option Buffer
strcat b s =
    if ltb (length b.bytes + length s) b.size
    then some (record b { bytes = b.bytes ++ s })
    else none

-- *(buf + len) = 0
unfoldable pub terminate : Buffer → ℕ → Option Buffer
terminate b len = if ltb len b.size then some (record b { bytes = take len b.bytes }) else none

-- if (len >= size) { size = len * 2; realloc }
unfoldable pub reserve : Buffer → ℕ → Buffer
reserve b len = if leb b.size len then record b { size = len * 2 } else b

infixl 5 ◌>>=◌
abbrev pub ◌>>=◌ {ℓ κ} : {A : Type ℓ} {B : Type κ} → Option A → (A → Option B) → Option B
none >>= f = none
some a >>= f = f a

pub take_all : (s : Text) → take (length s) s ≡ s
take_all [] = refl
take_all (x ∷ s) = ap (◌∷◌ x) (take_all s)
