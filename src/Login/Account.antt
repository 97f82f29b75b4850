-- ===== src/Login/Account.antt =====
-- What a login gives.
use piiptyyt.Prelude.{ℕ, ◌≡◌, refl, Option, some, List, arith, Bytes, codes}
use piiptyyt.Glib.HashTable.{HashTable}
use piiptyyt.Oauth.Request.{Environment}
use piiptyyt.Oauth.Response.{last_value, parse_response-last_value}
use piiptyyt.Login.Messages.{make_token_request_msg, make_access_token_request_msg}
use piiptyyt.Login.Flow.{
  token_uri, access_uri, soup_status_ok, strtoull, payoff, token_names, account_names, read_account,
  get_access, read_token, oauth_login,
}

module _ (H : HashTable Bytes (Option Bytes)) (digest : Option Bytes → Bytes → Option Bytes)
    (sort : List Bytes → List Bytes) (strsplit : Bytes → List Bytes) (e₁ e₁' e₂ e₂' : Environment)
    (consumer_key consumer_secret : Bytes) (send : Bytes → Bytes → ℕ × Bytes)
    (pin : Option Bytes) where
  -- If both messages are made, the second with the token and the secret of the first answer, and
  -- the server accepts both, the login gives the last values of the second answer, of which the
  -- user id must be there.
  pub oauth_login-last_value :
      (body₁ body₂ r₁ r₂ id : Bytes)
      → make_token_request_msg H digest sort e₁ e₁' token_uri consumer_key consumer_secret
        ≡ some (some body₁)
      → send token_uri body₁ ≡ (soup_status_ok, r₁)
      → make_access_token_request_msg H digest sort e₂ e₂' access_uri
          (last_value (codes "oauth_token") (strsplit r₁))
          (last_value (codes "oauth_token_secret") (strsplit r₁))
          pin
          consumer_key
          consumer_secret
        ≡ some (some body₂)
      → send access_uri body₂ ≡ (soup_status_ok, r₂)
      → last_value (codes "user_id") (strsplit r₂) ≡ some id
      → oauth_login H digest sort strsplit e₁ e₁' e₂ e₂' consumer_key consumer_secret send pin
        ≡ some (
            some (record {
              username = last_value (codes "screen_name") (strsplit r₂);
              auth_token = last_value (codes "oauth_token") (strsplit r₂);
              auth_secret = last_value (codes "oauth_token_secret") (strsplit r₂);
              userid = strtoull id;
            }))
  unfolding oauth_login read_token get_access read_account payoff
  oauth_login-last_value body₁ body₂ r₁ r₂ id first accepted second granted known =
      let tokens =
        parse_response-last_value strsplit r₁ token_names (refl, (refl, tt)) (refl, (refl, tt))
          (omega arith) in
      let account =
        parse_response-last_value strsplit r₂ account_names (refl, (refl, (refl, (refl, tt))))
          (refl, (refl, (refl, (refl, tt)))) (omega arith) in
      rw first (rw accepted (rw tokens (rw second (rw granted (rw account (rw known))))))
