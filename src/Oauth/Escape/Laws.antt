-- ===== src/Oauth/Escape/Laws.antt =====
-- What the percent-encoding keeps, and the characters that it leaves.
use mathlib.Core.Option
use piiptyyt.Prelude.{
  ℕ, ◌+◌, ◌-◌, ◌*◌, ◌/◌, ◌%◌, ◌<◌, ◌≤◌, ◌≡◌, refl, ap, ◌⊎◌, inl, inr, true, false, Option, none,
  some, [], ◌∷◌, ◌++◌, arith, Bytes, Bool, ◌||◌, ◌&&◌, leb, All, All-append, ltb, ◌==◌,
  if◌then◌else◌, Bool-cases,
}
use piiptyyt.Oauth.Escape.{is_unreserved, hex_digit, percent, escape_char, escape}

abbrev pub IsByte : ℕ → Type 0
IsByte c = c < 256

-- A reader of percent-encoded text, as RFC 3986 describes it: it reads a plain character, or the
-- first or the second digit behind a `%`.
pub data Mode : Type 0 where
  plain high : Mode
  low : ℕ → Mode

unfoldable pub hex_value : ℕ → ℕ
hex_value d = if ltb d b'A' then d - b'0' else d + 10 - b'A'

unfoldable pub unescape : Mode → Bytes → Option Bytes
unescape plain [] = some []
unescape high [] = none
unescape (low h) [] = none
unescape plain (c ∷ s) =
    let digits = unescape high s in
    let copy = Option.map (λ t. c ∷ t) (unescape plain s) in if c == b'%' then digits else copy
unescape high (c ∷ s) = unescape (low (hex_value c)) s
unescape (low h) (c ∷ s) = Option.map (λ t. (16 * h + hex_value c) ∷ t) (unescape plain s)

hex_value-hex_digit : (d : ℕ) → d < 16 → hex_value (hex_digit d) ≡ d
unfolding hex_value hex_digit
hex_value-hex_digit d h = ground arith

unescape-percent :
    (c : ℕ) (s : Bytes)
    → IsByte c
    → unescape plain (percent c ++ s) ≡ Option.map (λ t. c ∷ t) (unescape plain s)
unfolding unescape percent
unescape-percent c s h =
    let digits : 16 * (c / 16) + c % 16 ≡ c = omega arith in
    rw (
      hex_value-hex_digit (c / 16) (omega arith),
      hex_value-hex_digit (c % 16) (omega arith),
      digits,
    )

unescape-escape_char :
    (c : ℕ) (s : Bytes)
    → IsByte c
    → unescape plain (escape_char c ++ s) ≡ Option.map (λ t. c ∷ t) (unescape plain s)
unfolding escape_char
unescape-escape_char c s h = elim (Bool-cases (is_unreserved c)) [
  | inl kept ↦ rw kept (unfold unescape is_unreserved in ground arith)
  | inr escaped ↦ rw escaped (unescape-percent c s h)
]

-- Decoding an encoded string gives it back, for every string of bytes: no two strings are encoded
-- alike.
pub unescape-escape : (s : Bytes) → All IsByte s → unescape plain (escape s) ≡ some s
unfolding escape
unescape-escape [] _ = unfold unescape in refl
unescape-escape (c ∷ s) (hc, hs) = rw (unescape-escape_char c (escape s) hc, unescape-escape s hs)

pub escape-injective : (s t : Bytes) → All IsByte s → All IsByte t → escape s ≡ escape t → s ≡ t
escape-injective s t hs ht e =
    ground (arith, unescape-escape s hs, unescape-escape t ht, ap (unescape plain) e)

abbrev pub IsBetween : ℕ → ℕ → ℕ → Type 0
IsBetween a b c = (a ≤ c) × (c ≤ b)

-- The unreserved characters as RFC 3986 lists them: the letters and the digits of ASCII, and
-- `-` (45), `.` (46), `_` (95) and `~` (126).
pub data IsUnreserved (c : ℕ) : Type 0 where
  digit : IsBetween 48 57 c → IsUnreserved c
  upper : IsBetween 65 90 c → IsUnreserved c
  lower : IsBetween 97 122 c → IsUnreserved c
  mark : (c ≡ 45) ⊎ (c ≡ 46) ⊎ (c ≡ 95) ⊎ (c ≡ 126) → IsUnreserved c

-- What may stand in an encoded string: an unreserved character, or the percent sign (37).
abbrev pub IsSafe : ℕ → Type 0
IsSafe c = IsUnreserved c ⊎ (c ≡ 37)

either_true : (a b : Bool) → (a || b) ≡ true → (a ≡ true) ⊎ (b ≡ true)
either_true true b e = inl refl
either_true false b e = inr e

between : (a b c : ℕ) → (leb a c && leb c b) ≡ true → IsBetween a b c
between a b c e = (ground arith, ground arith)

is_unreserved-IsUnreserved : (c : ℕ) → is_unreserved c ≡ true → IsUnreserved c
unfolding is_unreserved
is_unreserved-IsUnreserved c e = elim (either_true _ _ e) [
  | inl d ↦ digit (between 48 57 c d)
  | inr e₁ ↦ elim (either_true _ _ e₁) [
    | inl l ↦ lower (between 97 122 c l)
    | inr e₂ ↦ elim (either_true _ _ e₂) [
      | inl u ↦ upper (between 65 90 c u)
      | inr e₃ ↦ mark (ground arith)
    ]
  ]
]

hex_digit-IsSafe : (d : ℕ) → d < 16 → IsSafe (hex_digit d)
unfolding hex_digit
hex_digit-IsSafe d h = elim (Bool-cases (ltb d 10)) [
  | inl small ↦ inl (digit (ground arith, ground arith))
  | inr large ↦ inl (upper (ground arith, ground arith))
]

escape_char-IsSafe : (c : ℕ) → IsByte c → All IsSafe (escape_char c)
unfolding escape_char percent
escape_char-IsSafe c h = elim (Bool-cases (is_unreserved c)) [
  | inl kept ↦ rw kept (inl (is_unreserved-IsUnreserved c kept), tt)
  | inr escaped ↦
      let first = hex_digit-IsSafe (c / 16) (omega arith) in
      let second = hex_digit-IsSafe (c % 16) (omega arith) in
      rw escaped (inr refl, (first, (second, tt)))
]

-- Every character of an encoded string is unreserved by RFC 3986 or a percent sign.
pub escape-IsSafe : (s : Bytes) → All IsByte s → All IsSafe (escape s)
unfolding escape
escape-IsSafe [] _ = tt
escape-IsSafe (c ∷ s) (hc, hs) =
    All-append IsSafe (escape_char c) (escape s) (escape_char-IsSafe c hc) (escape-IsSafe s hs)
