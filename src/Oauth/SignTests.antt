-- ===== src/Oauth/SignTests.antt =====
-- Requests for a token and for a resource, with a digest of zeros and a sort that does nothing,
-- and a response.
use piiptyyt.Prelude.{
  ℕ, ◌≡◌, refl, ◌≢◌, Option, none, some, List, [], ◌∷◌, map, arith, Bytes, codes, All, ◌==◌,
  if◌then◌else◌,
}
use piiptyyt.Prelude.{bytes_discrete}
use piiptyyt.Glib.Assoc.{assoc}
use piiptyyt.Glib.HashTable.{HashTable, find}
use piiptyyt.Oauth.Base64.{
  b64_encode, sextet₁, sextet₂, sextet₃, sextet₄, group, encode_groups, b64_alloc, take_exactly,
  encode_into, encode_exactly, encode_base64,
}
use piiptyyt.Oauth.Request.{
  Request, Environment, req_resource, oa_set_extra_param, sig_method_str, is_null, or_empty,
  as_pointer, oa_gen_nonce, oa_sign_sha1, value_of, kind_params, stamp, add_nonce, common_params,
  gather_common, gather_params,
}
use piiptyyt.Oauth.Extra.{set_extra_param-value_of, gather_params-extra, own_names}
use piiptyyt.Oauth.Response.{oa_parse_response, last_value, parse_response-last_value}

abbrev digest : Option Bytes → Bytes → Option Bytes
digest key s =
    some (0 ∷ 0 ∷ 0 ∷ 0 ∷ 0 ∷ 0 ∷ 0 ∷ 0 ∷ 0 ∷ 0 ∷ 0 ∷ 0 ∷ 0 ∷ 0 ∷ 0 ∷ 0 ∷ 0 ∷ 0 ∷ 0 ∷ 0 ∷ [])

abbrev clock : Environment
clock = record { seconds = codes "1"; urandom = some (7 ∷ []) }

abbrev params_table : HashTable Bytes (Option Bytes)
params_table = assoc bytes_discrete

abbrev asked : Request (List (Bytes × Option Bytes))
asked = record {
  extra_params = [];
  consumer_key = some (codes "k");
  consumer_secret = some (codes "s");
  token_key = none;
  token_secret = none;
  request_url = some (codes "u");
  request_method = some (codes "GET");
  verifier = none;
  sig_method = 1;
  timestamp = none;
  nonce = none;
  callback_url = none;
  signature = none;
}

abbrev sent_signature : Bytes
sent_signature = codes "AAAAAAAAAAAAAAAAAAAAAAAAAAA="

abbrev signed : Request (List (Bytes × Option Bytes))
signed = record asked {
  timestamp = some (codes "1");
  nonce = some sent_signature;
  signature = some sent_signature;
}

abbrev asked_params : List (Bytes × Option Bytes)
asked_params =
    (codes "oauth_nonce", some sent_signature)
    ∷ (codes "oauth_timestamp", some (codes "1"))
    ∷ (codes "oauth_signature_method", some (codes "HMAC-SHA1"))
    ∷ (codes "oauth_consumer_key", some (codes "k"))
    ∷ (codes "oauth_version", some (codes "1.0"))
    ∷ (codes "oauth_callback", some [])
    ∷ []

abbrev named : Request (List (Bytes × Option Bytes))
named = record asked { extra_params = (codes "id", some (codes "7")) ∷ [] }

set_extra_param-value_of_example :
    (value_of params_table
        (codes "id")
        (oa_set_extra_param params_table (codes "id") (some (codes "8")) named).extra_params
      ≡ some (codes "8"))
    × ((k : Bytes)
        → codes "id" ≢ k
        → value_of params_table k
            (oa_set_extra_param params_table (codes "id") (some (codes "8")) named).extra_params
          ≡ value_of params_table k named.extra_params)
set_extra_param-value_of_example =
    set_extra_param-value_of params_table (codes "id") (some (codes "8")) named

named-gathered :
    (r : Request (List (Bytes × Option Bytes))) × (t : List (Bytes × Option Bytes)) × (gather_params
        params_table digest clock req_resource named
      ≡ some (r, some t))
unfolding gather_params gather_common add_nonce stamp common_params kind_params or_empty is_null
    sig_method_str oa_gen_nonce oa_sign_sha1 as_pointer encode_base64 encode_exactly encode_into
    take_exactly b64_alloc encode_groups group b64_encode sextet₁ sextet₂ sextet₃ sextet₄
named-gathered = (_, _, refl)

id-not_own : All (λ name. name ≢ codes "id") own_names
id-not_own = (λ e. cc, (λ e. cc, (λ e. cc, (λ e. cc, (λ e. cc, (λ e. cc, tt))))))

gather_params-extra_example :
    find bytes_discrete (codes "id") named-gathered.1
    ≡ find bytes_discrete (codes "id") ((codes "id", some (codes "7")) ∷ [])
gather_params-extra_example =
    gather_params-extra params_table digest clock named named-gathered.0 named-gathered.1
      (codes "id") id-not_own named-gathered.2

-- A splitter for the tests.
push : ℕ → List Bytes → List Bytes
push c [] = (c ∷ []) ∷ []
push c (s ∷ rest) = (c ∷ s) ∷ rest

split_amp : Bytes → List Bytes
split_amp [] = []
split_amp (c ∷ s) = let rest = split_amp s in if c == b'&' then [] ∷ rest else push c rest

parse_response-last_value_example :
    oa_parse_response split_amp (codes "a=1&b=2&a=3") (codes "a" ∷ codes "b" ∷ codes "c" ∷ [])
    ≡ map
        (λ name. last_value name (split_amp (codes "a=1&b=2&a=3")))
        (codes "a" ∷ codes "b" ∷ codes "c" ∷ [])
parse_response-last_value_example =
    parse_response-last_value split_amp (codes "a=1&b=2&a=3")
      (codes "a" ∷ codes "b" ∷ codes "c" ∷ []) (refl, (refl, (refl, tt))) (refl, (refl, (refl, tt)))
      (omega arith)
