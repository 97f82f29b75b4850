-- ===== src/Oauth/Tests.antt =====
-- Short strings through the two encoders.
use piiptyyt.Oauth.Escape.{escape}
use piiptyyt.Oauth.Escape.Buffer.{oauth_url_escape, url_escape-escape}
use piiptyyt.Oauth.Escape.Laws.{IsByte, IsSafe, plain, unescape, unescape-escape, escape-IsSafe}
use piiptyyt.Prelude.{◌≡◌, some, [], ◌∷◌, arith, Bytes, All}

-- "a b/"
abbrev path : Bytes
path = 97 ∷ 32 ∷ 98 ∷ 47 ∷ []

path-IsByte : All IsByte path
path-IsByte = (omega arith, (omega arith, (omega arith, (omega arith, tt))))

url_escape-escape_example : oauth_url_escape (some path) ≡ some (escape path)
url_escape-escape_example = url_escape-escape path (omega arith)

unescape-escape_example : unescape plain (escape path) ≡ some path
unescape-escape_example = unescape-escape path path-IsByte

escape-IsSafe_example : All IsSafe (escape path)
escape-IsSafe_example = escape-IsSafe path path-IsByte
