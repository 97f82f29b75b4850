-- ===== src/Format/Chars.antt =====
-- What format.c uses of the C library: `islower` and `tolower` in the C locale, `atoi`, and the
-- `%d` of `sscanf`.
use piiptyyt.Prelude.{
  ℕ, ◌+◌, ◌-◌, ◌*◌, Bool, ◌&&◌, ◌||◌, Option, none, some, [], ◌∷◌, Bytes, leb, ◌==◌, if◌then◌else◌,
  ◌>>=◌,
}
use piiptyyt.Prelude.Int.{ℤ, pos, neg}

abbrev pub islower : ℕ → Bool
islower c = leb b'a' c && leb c b'z'

abbrev pub tolower : ℕ → ℕ
tolower c = if leb b'A' c && leb c b'Z' then c + 32 else c

abbrev pub is_digit : ℕ → Bool
is_digit c = leb b'0' c && leb c b'9'

abbrev pub is_space : ℕ → Bool
is_space c = c == b' ' || (leb 9 c && leb c 13)

-- The number that the digits go on with, and what is behind them.
unfoldable pub read_digits : ℕ → Bytes → ℕ × Bytes
read_digits acc [] = (acc, [])
read_digits acc (c ∷ s) =
    let more = read_digits (acc * 10 + (c - b'0')) s in if is_digit c then more else (acc, c ∷ s)

unfoldable pub read_unsigned : Bytes → Option (ℕ × Bytes)
read_unsigned [] = none
read_unsigned (c ∷ s) = if is_digit c then some (read_digits 0 (c ∷ s)) else none

unfoldable pub signed : (ℕ → ℤ) → Option (ℕ × Bytes) → Option (ℤ × Bytes)
signed f none = none
signed f (some (n, rest)) = some (f n, rest)

-- `%d`: spaces, a sign, and a digit at least.
unfoldable pub read_int : Bytes → Option (ℤ × Bytes)
read_int [] = none
read_int (c ∷ s) =
    let later = read_int s in
    if is_space c
    then later
    else if c == b'-'
    then signed neg (read_unsigned s)
    else if c == b'+'
    then signed pos (read_unsigned s)
    else signed pos (read_unsigned (c ∷ s))

-- `atoi`, for numbers that fit an `int`.
unfoldable pub atoi : Bytes → ℤ
atoi s = elim (read_int s) [ none ↦ pos 0 | some (n, rest) ↦ n ]

-- The `:` of a format.
unfoldable pub read_colon : Bytes → Option Bytes
read_colon [] = none
read_colon (c ∷ s) = if c == b':' then some s else none

-- `sscanf(s, "%d:%d:%d", …) == 3`
unfoldable pub read_time : Bytes → Option (ℤ × ℤ × ℤ)
read_time s = do
  (hour, s₁) ← read_int s
  s₂ ← read_colon s₁
  (min, s₃) ← read_int s₂
  s₄ ← read_colon s₃
  (sec, s₅) ← read_int s₄
  some (hour, min, sec)
