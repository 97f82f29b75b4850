-- ===== src/Oauth/Base64.antt =====
-- `oauth_encode_base64` of oauth.c.
pub mod Bits
pub mod RoundTrip
use Prim.Native.Nat.{bit_and, bit_or}
use piiptyyt.Prelude.{
  ℕ, zero, suc, ◌+◌, ◌-◌, ◌*◌, ◌/◌, ◌%◌, ◌^◌, ◌≤◌, ◌<◌, ◌≡◌, refl, sym, ap, ◌∙◌, ◌≢◌, ◌↔◌, ◌⊎◌, inl,
  inr, Bool, true, false, not, ◌&&◌, ◌||◌, Option, none, some, List, [], ◌∷◌, ◌++◌, map, append-nil,
  append_assoc, arith, Bytes, codes, strcmp, bytes_eq, bytes_eq_iff, length, get_elem?,
  length-append, All, All-append, ltb, leb, ◌==◌, if◌then◌else◌, ==_iff, Bool-cases, Option-cases,
}

-- `oauth_b64_encode`: the character of a six-bit value.
unfoldable pub b64_encode : ℕ → ℕ
b64_encode u =
    if ltb u 26
    then b'A' + u
    else if ltb u 52
    then b'a' + (u - 26)
    else if ltb u 62
    then b'0' + (u - 52)
    else if u == 62
    then b'+'
    else b'/'

-- `b4` to `b7`; `<<` and `>>` are written as products and quotients.
unfoldable pub sextet₁ : ℕ → ℕ
sextet₁ b₁ = b₁ / 4

unfoldable pub sextet₂ : ℕ → ℕ → ℕ
sextet₂ b₁ b₂ = bit_or (bit_and b₁ 0x3 * 16) (b₂ / 16)

unfoldable pub sextet₃ : ℕ → ℕ → ℕ
sextet₃ b₂ b₃ = bit_or (bit_and b₂ 0xf * 4) (b₃ / 64)

unfoldable pub sextet₄ : ℕ → ℕ
sextet₄ b₃ = bit_and b₃ 0x3f

-- What one round appends: `last₂` and `last₃` are the tests `i+1<size` and `i+2<size`.
unfoldable pub group : ℕ → ℕ → ℕ → Bool → Bool → Bytes
group b₁ b₂ b₃ more₁ more₂ =
    b64_encode (sextet₁ b₁)
    ∷ b64_encode (sextet₂ b₁ b₂)
    ∷ (if more₁ then b64_encode (sextet₃ b₂ b₃) else b'=')
    ∷ (if more₂ then b64_encode (sextet₄ b₃) else b'=')
    ∷ []

-- The loop over `src[i .. size)`; a byte that is not there is read as 0. `int i` is the number of the
-- bytes that are behind; the sums with it stay below 2 ^ 31 for a size below 2 ^ 31 - 1.
unfoldable pub encode_groups : Bytes → Bytes
encode_groups [] = []
encode_groups (b₁ ∷ []) = group b₁ 0 0 false false
encode_groups (b₁ ∷ b₂ ∷ []) = group b₁ b₂ 0 true false
encode_groups (b₁ ∷ b₂ ∷ b₃ ∷ rest) = group b₁ b₂ b₃ true true ++ encode_groups rest

-- The bytes before the first NUL.
unfoldable pub c_string : Bytes → Bytes
c_string [] = []
c_string (c ∷ s) = let rest = c ∷ c_string s in if c == 0 then [] else rest

-- The bytes of `out`, with the terminator that `g_malloc0` has left behind the text.
unfoldable pub b64_alloc : ℕ → ℕ
b64_alloc size = size * 4 % 2 ^ 64 / 3 + 4

pub data Encoded : Type 0 where
  null fault : Encoded
  text : Bytes → Encoded

-- `src` is the memory behind the pointer, `size` the argument of that name. A text that does not
-- fit into `out` with its terminator is a fault, and so is a read behind `src`.
unfoldable pub take_exactly : ℕ → Bytes → Option Bytes
take_exactly zero s = some []
take_exactly (suc n) [] = none
take_exactly (suc n) (c ∷ s) = elim (take_exactly n s) [ none ↦ none | some t ↦ some (c ∷ t) ]

unfoldable pub encode_into : ℕ → Bytes → Encoded
encode_into alloc input =
    let out = encode_groups input in if ltb (length out) alloc then text out else fault

unfoldable pub encode_exactly : ℕ → Bytes → Encoded
encode_exactly n src = elim (take_exactly n src) [
  | none ↦ fault
  | some input ↦ encode_into (b64_alloc n) input
]

unfoldable pub encode_base64 : ℕ → Option Bytes → Encoded
encode_base64 size none = null
encode_base64 size (some src) =
    encode_exactly (if size == 0 then length (c_string src) else size) src
