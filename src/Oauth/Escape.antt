-- ===== src/Oauth/Escape.antt =====
-- `oauth_url_escape` of oauth.c: percent-encoding of a C string.
pub mod Buffer
pub mod Laws
use mathlib.Core.List.{flat_map}
use piiptyyt.Prelude.{
  ℕ, suc, ◌+◌, ◌-◌, ◌*◌, ◌/◌, ◌%◌, ◌^◌, ◌≤◌, ◌<◌, Bool, ◌||◌, ◌&&◌, true, false, List, [], ◌∷◌,
  ◌++◌, Option, none, some, ◌≡◌, refl, arith, Bytes, length, leb, ltb, ◌==◌, if◌then◌else◌,
}

-- The cases of the `switch` that are copied as they are.
unfoldable pub is_unreserved : ℕ → Bool
is_unreserved c =
    (leb b'0' c && leb c b'9')
    || ((leb b'a' c && leb c b'z')
        || ((leb b'A' c && leb c b'Z') || (c == b'_' || (c == b'~' || (c == b'.' || c == b'-')))))

-- A digit of `%X`.
unfoldable pub hex_digit : ℕ → ℕ
hex_digit d = if ltb d 10 then b'0' + d else b'A' + d - 10

-- The three characters of `%%%02X`, for one byte.
unfoldable pub percent : ℕ → Bytes
percent c = b'%' ∷ hex_digit (c / 16) ∷ hex_digit (c % 16) ∷ []

unfoldable pub escape_char : ℕ → Bytes
escape_char c = if is_unreserved c then c ∷ [] else percent c

-- The text that the loop leaves in `ns`.
unfoldable pub escape : Bytes → Bytes
escape [] = []
escape (c ∷ s) = escape_char c ++ escape s
