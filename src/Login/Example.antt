-- ===== src/Login/Example.antt =====
-- A login with a library of signatures that are all zeros, and a server that knows one account, on
-- which the tests run.
use piiptyyt.Glib.Assoc.{assoc}
use piiptyyt.Glib.HashTable.{HashTable}
use piiptyyt.Oauth.Escape.{is_unreserved, hex_digit, percent}
use piiptyyt.Oauth.Escape.Buffer.{write, grow, escape_round, escape_loop, oauth_url_escape}
use piiptyyt.Prelude.{bytes_discrete}
use piiptyyt.Oauth.Request.{
  Environment, oa_req_new, oa_req_new_with_params, sig_method_str, oa_set_token, oa_set_verifier,
  is_null, or_empty, as_pointer, oa_gen_nonce, oa_sign_sha1, value_of, kind_params, stamp,
  add_nonce, common_params, gather_common, gather_params, finish_params, oa_request_params,
}
use piiptyyt.Oauth.Sign.{
  encode_pair, append_encoded, encode_params, oa_sig_base, hmac_key, sign_base, sign_params,
  oa_sign_request, oa_request_params_to_post_body, body_text, append_body,
}
use piiptyyt.Glib.HashTable.{find}
use piiptyyt.Glib.Assoc.{erase, dedup}
use piiptyyt.Login.Messages.{signed_message, post_body}
use piiptyyt.Oauth.Base64.{
  encode_base64, encode_exactly, encode_into, take_exactly, b64_alloc, encode_groups, group,
  b64_encode, sextet₁, sextet₂, sextet₃, sextet₄,
}
use piiptyyt.Oauth.Response.{last_value, after_name, split_eq}
use piiptyyt.Login.Flow.{token_uri, access_uri, soup_status_ok}
use piiptyyt.Login.Messages.{
  make_token_request_msg, make_access_token_request_msg, token_request, access_request,
}
use piiptyyt.Prelude.{
  ℕ, ◌≡◌, refl, Option, some, List, [], ◌∷◌, Bytes, codes, bytes_eq, ◌==◌, if◌then◌else◌,
}

abbrev pub zeros : Option Bytes → Bytes → Option Bytes
zeros key s =
    some (0 ∷ 0 ∷ 0 ∷ 0 ∷ 0 ∷ 0 ∷ 0 ∷ 0 ∷ 0 ∷ 0 ∷ 0 ∷ 0 ∷ 0 ∷ 0 ∷ 0 ∷ 0 ∷ 0 ∷ 0 ∷ 0 ∷ 0 ∷ [])

abbrev pub clock : Environment
clock = record { seconds = codes "1"; urandom = some (7 ∷ []) }

abbrev pub table : HashTable Bytes (Option Bytes)
table = assoc bytes_discrete

abbrev pub unsorted : List Bytes → List Bytes
unsorted l = l

pub first_message :
    (body : Bytes) × (make_token_request_msg table zeros unsorted clock clock token_uri
        (codes "k")
        (codes "s")
      ≡ some (some body))
unfolding make_token_request_msg oa_sign_request sign_params sign_base hmac_key gather_params
    gather_common add_nonce stamp common_params kind_params or_empty is_null sig_method_str
    oa_gen_nonce oa_sign_sha1 as_pointer encode_base64 encode_exactly encode_into take_exactly
    b64_alloc encode_groups group b64_encode sextet₁ sextet₂ sextet₃ sextet₄ oa_sig_base
    encode_params encode_pair append_encoded value_of find erase dedup oauth_url_escape escape_loop
    escape_round grow write is_unreserved hex_digit percent oa_req_new oa_req_new_with_params
    signed_message post_body token_request oa_request_params_to_post_body oa_request_params
    finish_params body_text append_body
first_message = (_, refl)

-- Pieces between ampersands.
unfoldable pub split_amp : Bytes → List Bytes
split_amp [] = [] ∷ []
split_amp (c ∷ s) =
    let pieces = split_amp s in
    if c == b'&' then [] ∷ pieces else elim pieces [ [] ↦ (c ∷ []) ∷ [] | p ∷ ps ↦ (c ∷ p) ∷ ps ]

abbrev pub token_answer : Bytes
token_answer = codes "oauth_token=t&oauth_token_secret=u"

abbrev pub account_answer : Bytes
account_answer = codes "oauth_token=a&oauth_token_secret=b&user_id=7&screen_name=me"

abbrev pub server : Bytes → Bytes → ℕ × Bytes
server uri body =
    if bytes_eq uri token_uri
    then (soup_status_ok, token_answer)
    else (soup_status_ok, account_answer)

pub second_message :
    (body : Bytes) × (make_access_token_request_msg table zeros unsorted clock clock access_uri
        (last_value (codes "oauth_token") (split_amp token_answer))
        (last_value (codes "oauth_token_secret") (split_amp token_answer))
        (some (codes "12345"))
        (codes "k")
        (codes "s")
      ≡ some (some body))
unfolding make_access_token_request_msg access_request oa_set_token oa_set_verifier last_value
    after_name split_eq split_amp oa_sign_request sign_params sign_base hmac_key gather_params
    gather_common add_nonce stamp common_params kind_params or_empty is_null sig_method_str
    oa_gen_nonce oa_sign_sha1 as_pointer encode_base64 encode_exactly encode_into take_exactly
    b64_alloc encode_groups group b64_encode sextet₁ sextet₂ sextet₃ sextet₄ oa_sig_base
    encode_params encode_pair append_encoded value_of find erase dedup oauth_url_escape escape_loop
    escape_round grow write is_unreserved hex_digit percent oa_req_new oa_req_new_with_params
    signed_message post_body token_request oa_request_params_to_post_body oa_request_params
    finish_params body_text append_body
second_message = (_, refl)
