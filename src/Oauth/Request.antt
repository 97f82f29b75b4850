-- ===== src/Oauth/Request.antt =====
-- `struct oauth_request`: making one, setting its parts, and the parameters of a request.
use piiptyyt.Prelude.{
  ℕ, Bool, true, false, not, Option, none, some, List, [], ◌∷◌, Bytes, codes, ltb, ◌==◌,
  if◌then◌else◌, ◌>>=◌, ◌>>◌, assert,
}
use piiptyyt.Glib.HashTable.{HashTable}
use piiptyyt.Oauth.Base64.{Encoded, null, fault, text, encode_base64}

-- A `char *` that may be NULL is an `Option`. The copies of the strings in `strs` are the strings.
pub record Request (Table : Type 0) : Type 0 where
  pub extra_params : Table
  pub consumer_key : Option Bytes
  pub consumer_secret : Option Bytes
  pub token_key : Option Bytes
  pub token_secret : Option Bytes
  pub request_url : Option Bytes
  pub request_method : Option Bytes
  pub verifier : Option Bytes
  pub sig_method : ℕ
  pub timestamp : Option Bytes
  pub nonce : Option Bytes
  pub callback_url : Option Bytes
  pub signature : Option Bytes

-- What a request reads from outside: the seconds of the clock in decimal digits, and the bytes of
-- /dev/urandom, unless it cannot be read.
pub record Environment : Type 0 where
  pub seconds : Bytes
  pub urandom : Option Bytes

pub data Kind : Type 0 where
  req_request_token req_access_token req_resource req_other : Kind

abbrev pub sig_hmac_sha1 : ℕ
sig_hmac_sha1 = 1

-- `sig_method_str`, which has an entry for 0 too: NULL.
unfoldable pub sig_method_str : ℕ → Option Bytes
sig_method_str m = if m == sig_hmac_sha1 then some (codes "HMAC-SHA1") else none

abbrev pub sig_method_count : ℕ
sig_method_count = 2

unfoldable pub is_null : Option Bytes → Bool
is_null none = true
is_null (some s) = false

-- The text, or an empty one for NULL.
unfoldable pub or_empty : Option Bytes → Bytes
or_empty none = []
or_empty (some s) = s

-- The result of the encoder as a pointer.
unfoldable pub as_pointer : Encoded → Option (Option Bytes)
as_pointer null = some none
as_pointer fault = none
as_pointer (text t) = some (some t)

-- `digest` stands for libgcrypt: the 20 bytes of SHA-1, or of HMAC-SHA1 for a key, and `none`
-- for an error.
module _ (digest : Option Bytes → Bytes → Option Bytes) where
  unfoldable pub oa_sign_sha1 : Option Bytes → Bytes → Option (Option Bytes)
  oa_sign_sha1 key data_read = elim (digest key data_read) [
    | none ↦ some none
    | some value ↦ as_pointer (encode_base64 20 (some value))
  ]

  unfoldable pub oa_gen_nonce : Environment → Option (Option Bytes)
  oa_gen_nonce e = elim e.urandom [ none ↦ none | some d ↦ oa_sign_sha1 none d ]

-- `g_str_hash` and `g_str_equal` tell the keys apart by their text; a value may be NULL.
module _ (H : HashTable Bytes (Option Bytes)) where
  open H use {Table, lookup}

  unfoldable pub oa_req_new : Request Table
  oa_req_new = record {
    extra_params = H.new;
    consumer_key = none;
    consumer_secret = none;
    token_key = none;
    token_secret = none;
    request_url = none;
    request_method = none;
    verifier = none;
    sig_method = 0;
    timestamp = none;
    nonce = none;
    callback_url = none;
    signature = none;
  }

  unfoldable pub oa_req_new_with_params :
      Option Bytes → Option Bytes → Option Bytes → Option Bytes → ℕ → Option Bytes → Request Table
  oa_req_new_with_params consumer_key consumer_secret request_url request_method sig_method
        callback_url =
      record oa_req_new {
        consumer_key = consumer_key;
        consumer_secret = consumer_secret;
        request_url = request_url;
        request_method = request_method;
        sig_method = sig_method;
        callback_url = callback_url;
      }

  unfoldable pub oa_set_token : Option Bytes → Option Bytes → Request Table → Request Table
  oa_set_token token secret req = record req { token_key = token; token_secret = secret }

  unfoldable pub oa_set_verifier : Option Bytes → Request Table → Request Table
  oa_set_verifier verifier req = record req { verifier = verifier }

  -- `g_hash_table_lookup`, which does not tell a NULL value from an absent key.
  unfoldable pub value_of : Bytes → Table → Option Bytes
  value_of k t = elim (lookup k t) [ none ↦ none | some v ↦ v ]

  unfoldable pub oa_set_extra_param : Bytes → Option Bytes → Request Table → Request Table
  oa_set_extra_param key value req =
      let t =
        if not (is_null (value_of key req.extra_params))
        then H.remove key req.extra_params
        else req.extra_params in
      record req { extra_params = H.insert key value t }

  unfoldable pub add_entries : List (Bytes × Option Bytes) → Table → Table
  add_entries [] t = t
  add_entries ((k, v) ∷ rest) t = add_entries rest (H.insert k v t)

  -- The `switch`.
  unfoldable pub kind_params : Kind → Request Table → Request Table × Option Table
  kind_params req_request_token req =
      (req, some (H.insert (codes "oauth_callback") (some (or_empty req.callback_url)) H.new))
  kind_params req_access_token req =
      let v = some (or_empty req.verifier) in
      (
        record req { verifier = v },
        some (
            H.insert (codes "oauth_token") req.token_key
              (H.insert (codes "oauth_verifier") v H.new)),
      )
  kind_params req_resource req = (
    req,
    some (
        add_entries (H.entries req.extra_params)
          (H.insert (codes "oauth_token") req.token_key H.new)),
  )
  kind_params req_other req = (req, none)

  unfoldable pub stamp : Environment → Request Table → Request Table
  stamp e req = elim req.timestamp [
    | none ↦ record req { timestamp = some e.seconds }
    | some _ ↦ req
  ]

  unfoldable pub add_nonce :
      (Option Bytes → Bytes → Option Bytes) → Environment → Request Table → Option (Request Table)
  add_nonce digest e req = elim req.nonce [
    | none ↦ oa_gen_nonce digest e >>= λ n. some (record req { nonce = n })
    | some _ ↦ some req
  ]

  -- What every kind has in common, of a request that is ready for it.
  unfoldable pub common_params : Request Table → Table → Table
  common_params req t = H.insert (codes "oauth_nonce") req.nonce (
      H.insert (codes "oauth_timestamp") req.timestamp (
        H.insert (codes "oauth_signature_method") (sig_method_str req.sig_method) (
          H.insert (codes "oauth_consumer_key") req.consumer_key
            (H.insert (codes "oauth_version") (some (codes "1.0")) t))))

  unfoldable pub gather_common :
      (Option Bytes → Bytes → Option Bytes)
      → Environment
      → Request Table
      → Option Table
      → Option (Request Table × Option Table)
  gather_common digest e req none = some (req, none)
  gather_common digest e req (some t) =
      add_nonce digest e (stamp e req) >>= λ req'. some (req', some (common_params req' t))

  -- The request as it is left, and the table or NULL.
  unfoldable pub gather_params :
      (Option Bytes → Bytes → Option Bytes)
      → Environment
      → Kind
      → Request Table
      → Option (Request Table × Option Table)
  gather_params digest e kind req = do
    assert (ltb req.sig_method sig_method_count)
    if is_null req.consumer_key
        then some (req, none)
        else gather_common digest e (kind_params kind req).0 (kind_params kind req).1

  unfoldable pub finish_params : Request Table × Option Table → Request Table × Option Table
  finish_params (req, none) = (req, none)
  finish_params (req, some t) = (
    req,
    some (
        H.insert (codes "oauth_signature") req.signature
          (H.remove (codes "oauth_token_secret") (H.remove (codes "oauth_consumer_secret") t))),
  )

  unfoldable pub oa_request_params :
      (Option Bytes → Bytes → Option Bytes)
      → Environment
      → Kind
      → Request Table
      → Option (Request Table × Option Table)
  oa_request_params digest e kind req =
      if is_null req.signature
      then some (req, none)
      else gather_params digest e kind req >>= λ r. some (finish_params r)
