-- ===== src/Login/Flow.antt =====
-- `oauth_login` of login.c. `send` is a session with the server: the status and the body of its
-- answer to a POST. `pin` is what the dialog gives, and the browser only shows a page.
use piiptyyt.Prelude.{
  ℕ, ◌+◌, ◌-◌, ◌^◌, Option, none, some, List, [], ◌∷◌, ◌++◌, Bytes, codes, ltb, ◌==◌, if◌then◌else◌,
  ◌>>=◌,
}
use piiptyyt.Prelude.Int.{pos, negsuc}
use piiptyyt.Format.Chars.{read_int}
use piiptyyt.Glib.HashTable.{HashTable}
use piiptyyt.Oauth.Request.{Environment}
use piiptyyt.Oauth.Response.{oa_parse_response}
use piiptyyt.Login.Messages.{make_token_request_msg, make_access_token_request_msg}

pub record Account : Type 0 where
  pub username : Option Bytes
  pub auth_token : Option Bytes
  pub auth_secret : Option Bytes
  pub userid : ℕ

abbrev pub token_uri : Bytes
token_uri = codes "https://api.twitter.com/oauth/request_token"

abbrev pub access_uri : Bytes
access_uri = codes "https://api.twitter.com/oauth/access_token"

abbrev pub soup_status_ok : ℕ
soup_status_ok = 200

-- A number over the range becomes the largest one, and a negative one wraps around.
unfoldable pub strtoull : Bytes → ℕ
strtoull s = elim (read_int s) [
  | none ↦ 0
  | some (n, rest) ↦ elim n [
    | pos k ↦ if ltb k (2 ^ 64) then k else 2 ^ 64 - 1
    | negsuc k ↦ if ltb (k + 1) (2 ^ 64) then 2 ^ 64 - (k + 1) else 2 ^ 64 - 1
  ]
]

-- The address that the browser is given.
unfoldable pub browser_uri : Bytes → Bytes
browser_uri req_token =
    codes "https://api.twitter.com/oauth/authorize" ++ codes "?oauth_token=" ++ req_token

-- The four values of the second answer; a user id that is not there is a bad access.
unfoldable pub payoff : List (Option Bytes) → Option Account
payoff (token ∷ secret ∷ some id ∷ name ∷ rest) =
    some
      (record { username = name; auth_token = token; auth_secret = secret; userid = strtoull id })
payoff _ = none

abbrev pub token_names : List Bytes
token_names = codes "oauth_token" ∷ codes "oauth_token_secret" ∷ []

abbrev pub account_names : List Bytes
account_names = token_names ++ codes "user_id" ∷ codes "screen_name" ∷ []

module _ (H : HashTable Bytes (Option Bytes)) (digest : Option Bytes → Bytes → Option Bytes)
    (sort : List Bytes → List Bytes) (strsplit : Bytes → List Bytes) (e₁ e₁' e₂ e₂' : Environment)
    (consumer_key consumer_secret : Bytes) (send : Bytes → Bytes → ℕ × Bytes)
    (pin : Option Bytes) where
  -- Any other status of the second answer aborts.
  unfoldable pub read_account : ℕ × Bytes → Option (Option Account)
  read_account (status, data_read) =
      if status == soup_status_ok
      then (payoff (oa_parse_response strsplit data_read account_names) >>= λ a. some (some a))
      else none

  -- The second request; no message aborts.
  unfoldable pub get_access : List (Option Bytes) → Option (Option Account)
  get_access (req_token ∷ req_secret ∷ rest) = do
    msg ←
        make_access_token_request_msg H digest sort e₂ e₂' access_uri req_token req_secret pin
          consumer_key consumer_secret
    body ← msg
    read_account (send access_uri body)
  get_access _ = none

  unfoldable pub read_token : ℕ × Bytes → Option (Option Account)
  read_token (status, data_read) =
      if status == soup_status_ok
      then get_access (oa_parse_response strsplit data_read token_names)
      else some none

  -- The account, or false; `none` is an abort.
  unfoldable pub oauth_login : Option (Option Account)
  oauth_login = do
    msg ← make_token_request_msg H digest sort e₁ e₁' token_uri consumer_key consumer_secret
    body ← msg
    read_token (send token_uri body)
