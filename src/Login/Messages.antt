-- ===== src/Login/Messages.antt =====
-- The messages of login.c and `make_resource_request_msg` of main.c. A message to POST is its body,
-- and one to GET is the parameters of its query. The clock and /dev/urandom are read for the
-- signature in `e`, and for the message in `e'`.
use piiptyyt.Prelude.{Bool, true, false, Option, none, some, List, [], ◌∷◌, Bytes, codes, ◌>>=◌}
use piiptyyt.Glib.HashTable.{HashTable}
use piiptyyt.Oauth.Request.{
  Request, Environment, Kind, req_request_token, req_access_token, req_resource, sig_hmac_sha1,
  oa_req_new_with_params, oa_set_token, oa_set_verifier, oa_set_extra_param, oa_request_params,
}
use piiptyyt.Oauth.Sign.{oa_sign_request, oa_request_params_to_post_body}

module _ (H : HashTable Bytes (Option Bytes)) where
  open H use {Table}

  unfoldable pub token_request : Bytes → Bytes → Bytes → Request Table
  token_request token_uri consumer_key consumer_secret =
      oa_req_new_with_params H (some consumer_key) (some consumer_secret) (some token_uri)
        (some (codes "POST")) sig_hmac_sha1 none

  unfoldable pub access_request :
      Bytes → Option Bytes → Option Bytes → Option Bytes → Bytes → Bytes → Request Table
  access_request uri req_token req_secret verifier consumer_key consumer_secret =
      oa_set_verifier H verifier
        (oa_set_token H req_token req_secret (token_request uri consumer_key consumer_secret))

  -- The loop over the arguments.
  unfoldable pub set_extra_params : List (Bytes × Option Bytes) → Request Table → Request Table
  set_extra_params [] oa = oa
  set_extra_params ((key, value) ∷ al) oa = set_extra_params al (oa_set_extra_param H key value oa)

module _ (H : HashTable Bytes (Option Bytes)) (digest : Option Bytes → Bytes → Option Bytes)
    (sort : List Bytes → List Bytes) (e e' : Environment) where
  open H use {Table}

  -- `strlen` of a body that is NULL is a bad access.
  unfoldable pub post_body : Kind → Request Table → Option (Option Bytes)
  post_body kind oa = oa_request_params_to_post_body H digest sort e' kind oa >>= λ r.
      r.1 >>= λ body. some (some body)

  -- From the signing on; NULL if the request is not signed.
  unfoldable pub signed_message : Kind → Request Table × Bool → Option (Option Bytes)
  signed_message kind (oa, true) = post_body kind oa
  signed_message kind (oa, false) = some none

  unfoldable pub make_token_request_msg : Bytes → Bytes → Bytes → Option (Option Bytes)
  make_token_request_msg token_uri consumer_key consumer_secret =
      oa_sign_request H digest sort e req_request_token
        (token_request H token_uri consumer_key consumer_secret)
      >>= signed_message req_request_token

  unfoldable pub make_access_token_request_msg :
      Bytes → Option Bytes → Option Bytes → Option Bytes → Bytes → Bytes → Option (Option Bytes)
  make_access_token_request_msg uri req_token req_secret verifier consumer_key consumer_secret =
      oa_sign_request H digest sort e req_access_token
        (access_request H uri req_token req_secret verifier consumer_key consumer_secret)
      >>= signed_message req_access_token

  unfoldable pub signed_query : Request Table × Bool → Option (Option Table)
  signed_query (oa, true) = oa_request_params H digest e' req_resource oa >>= λ r. some r.1
  signed_query (oa, false) = some none

  unfoldable pub make_resource_request_msg :
      Bytes
      → Bytes
      → Bytes
      → Option Bytes
      → Option Bytes
      → List (Bytes × Option Bytes)
      → Option (Option Table)
  make_resource_request_msg consumer_key consumer_secret uri auth_token auth_secret al =
      oa_sign_request H digest sort e req_resource (
        set_extra_params H al (
          oa_set_token H auth_token auth_secret (
            oa_req_new_with_params H (some consumer_key) (some consumer_secret) (some uri)
              (some (codes "GET")) sig_hmac_sha1 none)))
      >>= signed_query
