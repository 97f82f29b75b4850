-- ===== src/Oauth/Sign.antt =====
-- The signature base string, `oa_sign_request`, and the texts made of the parameters.
use piiptyyt.Prelude.{
  Bool, true, false, not, Option, none, some, List, [], ◌∷◌, ◌++◌, map, Bytes, codes, ◌==◌,
  if◌then◌else◌, ◌>>=◌, ◌>>◌, assert,
}
use piiptyyt.Glib.HashTable.{HashTable}
use piiptyyt.Oauth.Escape.Buffer.{oauth_url_escape}
use piiptyyt.Oauth.Request.{
  Request, Environment, Kind, sig_hmac_sha1, is_null, oa_sign_sha1, value_of, gather_params,
  oa_request_params,
}

-- `%s=%s` of the two encoded.
unfoldable pub encode_pair : Bytes → Option Bytes → Option Bytes
encode_pair key value = do
  e_key ← oauth_url_escape (some key)
  e_val ← oauth_url_escape value
  some (e_key ++ b'=' ∷ e_val)

-- The loop that appends the encoded texts of a list; all but the first come behind `%26`.
unfoldable pub append_encoded : Bool → List Bytes → Option Bytes
append_encoded is_first [] = some []
append_encoded is_first (s ∷ rest) = do
  enc ← oauth_url_escape (some s)
  more ← append_encoded false rest
  some ((if is_first then [] else codes "%26") ++ enc ++ more)

-- A pair as `oa_auth_header` writes it: `%s="%s"`.
unfoldable pub header_pair : Bytes → Option Bytes → Option Bytes
header_pair key value = do
  e_key ← oauth_url_escape (some key)
  e_val ← oauth_url_escape value
  some (e_key ++ b'=' ∷ b'"' ∷ e_val ++ b'"' ∷ [])

unfoldable pub append_header : Bool → List (Bytes × Option Bytes) → Option Bytes
append_header is_first [] = some []
append_header is_first ((k, v) ∷ rest) = do
  pair ← header_pair k v
  more ← append_header false rest
  some ((if is_first then [] else codes ", ") ++ pair ++ more)

-- The loop of `oa_request_params_to_post_body`, with its assertion on the value.
unfoldable pub append_body : Bool → List (Bytes × Option Bytes) → Option Bytes
append_body is_first [] = some []
append_body is_first ((k, v) ∷ rest) = do
  assert (not (is_null v))
  pair ← encode_pair k v
  more ← append_body false rest
  some ((if is_first then [] else b'&' ∷ []) ++ pair ++ more)

module _ (H : HashTable Bytes (Option Bytes)) where
  open H use {Table}

  -- The first loop of `oa_sig_base`, over the keys of the table.
  unfoldable pub encode_params : Table → List Bytes → Option (List Bytes)
  encode_params params [] = some []
  encode_params params (key ∷ rest) = do
    assert (not (is_null (value_of H key params)))
    pair ← encode_pair key (value_of H key params)
    more ← encode_params params rest
    some (pair ∷ more)

  abbrev pub keys_of : Table → List Bytes
  keys_of t = map (λ (e : Bytes × Option Bytes). e.0) (H.entries t)

  -- `sort` stands for `g_list_sort` by `strcmp`. A method that is NULL stops the model: `%s` of
  -- NULL is undefined.
  unfoldable pub oa_sig_base :
      (List Bytes → List Bytes) → Option Bytes → Option Bytes → Table → Option Bytes
  oa_sig_base sort method uri params = do
    pairs ← encode_params params (keys_of params)
    m ← method
    e_uri ← oauth_url_escape uri
    rest ← append_encoded true (sort pairs)
    some (m ++ b'&' ∷ e_uri ++ b'&' ∷ rest)

  unfoldable pub hmac_key : Request Table → Option Bytes
  hmac_key req = do
    con_sec ← oauth_url_escape req.consumer_secret
    tok_sec ← oauth_url_escape req.token_secret
    some (con_sec ++ b'&' ∷ tok_sec)

  module _ (digest : Option Bytes → Bytes → Option Bytes) (sort : List Bytes → List Bytes) where
    -- The `switch` on the method.
    unfoldable pub sign_base : Bytes → Request Table → Option (Request Table × Bool)
    sign_base sb req =
        if req.sig_method == sig_hmac_sha1
        then (hmac_key req >>= λ key. oa_sign_sha1 digest (some key) sb >>= λ signature.
            some (record req { signature = signature }, true))
        else some (req, false)

    unfoldable pub sign_params : Request Table × Option Table → Option (Request Table × Bool)
    sign_params (req, none) = some (req, false)
    sign_params (req, some params) =
        oa_sig_base sort req.request_method req.request_url params >>= λ sb. sign_base sb req

    -- The request as it is left, and the result.
    unfoldable pub oa_sign_request :
        Environment → Kind → Request Table → Option (Request Table × Bool)
    oa_sign_request e kind req = gather_params H digest e kind req >>= sign_params

    unfoldable pub header_text : Option Table → Option (Option Bytes)
    header_text none = some none
    header_text (some params) =
        append_header true (H.entries params) >>= λ s. some (some (codes "OAuth " ++ s))

    unfoldable pub oa_auth_header :
        Environment → Kind → Request Table → Option (Request Table × Option Bytes)
    oa_auth_header e kind req =
        oa_request_params H digest e kind req >>= λ r. header_text r.1 >>= λ s. some (r.0, s)

    unfoldable pub body_text : Option Table → Option (Option Bytes)
    body_text none = some none
    body_text (some params) = append_body true (H.entries params) >>= λ s. some (some s)

    unfoldable pub oa_request_params_to_post_body :
        Environment → Kind → Request Table → Option (Request Table × Option Bytes)
    oa_request_params_to_post_body e kind req =
        oa_request_params H digest e kind req >>= λ r. body_text r.1 >>= λ s. some (r.0, s)
