-- ===== src/Login/Tests.antt =====
-- A login with a library of signatures that are all zeros, and a server that knows one account.
use piiptyyt.Prelude.{◌≡◌, refl, some, codes}
use piiptyyt.Oauth.Request.{Request}
use piiptyyt.Oauth.Response.{last_value, after_name, split_eq}
use piiptyyt.Login.Example.{
  zeros, clock, table, unsorted, first_message, second_message, split_amp, token_answer,
  account_answer, server,
}
use piiptyyt.Login.Account.{oauth_login-last_value}
use piiptyyt.Login.Flow.{strtoull, oauth_login}

oauth_login-last_value_example :
    oauth_login table zeros unsorted split_amp clock clock clock clock
      (codes "k")
      (codes "s")
      server
      (some (codes "12345"))
    ≡ some (
        some (record {
          username = last_value (codes "screen_name") (split_amp account_answer);
          auth_token = last_value (codes "oauth_token") (split_amp account_answer);
          auth_secret = last_value (codes "oauth_token_secret") (split_amp account_answer);
          userid = strtoull (codes "7");
        }))
unfolding last_value after_name split_eq split_amp
oauth_login-last_value_example =
    oauth_login-last_value table zeros unsorted split_amp clock clock clock clock (codes "k")
      (codes "s") server (some (codes "12345")) first_message.0 second_message.0 token_answer
      account_answer (codes "7") first_message.1 refl second_message.1 refl refl
