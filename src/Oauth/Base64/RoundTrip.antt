-- ===== src/Oauth/Base64/RoundTrip.antt =====
-- The encoder against a reader of Base64, and the size of its buffer.
use mathlib.Core.Option
use piiptyyt.Prelude.{
  ℕ, ◌+◌, ◌-◌, ◌*◌, ◌/◌, ◌%◌, Option, none, some, [], ◌∷◌, Bytes, ltb, ◌==◌, if◌then◌else◌,
}

-- The value of a character of the alphabet of RFC 4648.
unfoldable pub b64_value : ℕ → ℕ
b64_value c =
    if c == b'+'
    then 62
    else if c == b'/'
    then 63
    else if ltb c b'A'
    then c + 52 - b'0'
    else if ltb c b'a'
    then c - b'A'
    else c + 26 - b'a'

-- A reader that takes four characters at a time.
unfoldable pub decode_groups : Bytes → Option Bytes
decode_groups (p ∷ q ∷ r ∷ s ∷ rest) =
    let u = b64_value p in
    let v = b64_value q in
    let w = b64_value r in
    let x = b64_value s in
    let a = u * 4 + v / 16 in
    let b = v % 16 * 16 + w / 4 in
    let c = w % 4 * 64 + x in
    if r == b'='
    then some (a ∷ [])
    else if s == b'='
    then some (a ∷ b ∷ [])
    else Option.map (λ t. a ∷ b ∷ c ∷ t) (decode_groups rest)
decode_groups [] = some []
decode_groups _ = none
