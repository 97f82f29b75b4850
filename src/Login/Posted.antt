-- ===== src/Login/Posted.antt =====
-- The messages of a login carry what was signed.
use piiptyyt.Prelude.{◌≡◌, ◌≢◌, true, Option, none, some, List, Bytes}
use piiptyyt.Glib.HashTable.{HashTable}
use piiptyyt.Oauth.Request.{Request, Environment, Kind, oa_sign_sha1}
use piiptyyt.Oauth.Sign.{oa_sig_base, hmac_key, oa_sign_request, body_text}
use piiptyyt.Oauth.Sent.{IsBase, IsSent}

module _ (H : HashTable Bytes (Option Bytes)) (digest : Option Bytes → Bytes → Option Bytes)
    (sort : List Bytes → List Bytes) (e e' : Environment) where
  open H use {Table}

  -- The body is the text of the parameters that were signed, with the signature and without
  -- secrets; the signature is the HMAC-SHA1 of their base string under the secrets of the request.
  pub record IsSigned (kind : Kind) (oa : Request Table) (body : Bytes) : Type 0 where
    pub signed : Request Table
    pub params : Table
    pub key : Bytes
    pub base : Bytes
    pub signature : Bytes
    pub signs : oa_sign_request H digest sort e kind oa ≡ some (signed, true)
    pub based : oa_sig_base H sort signed.request_method signed.request_url params ≡ some base
    pub is_base : IsBase H sort signed params base
    pub keyed : hmac_key H signed ≡ some key
    pub made : oa_sign_sha1 digest (some key) base ≡ some (some signature)
    pub carried : signed.signature ≡ some signature
    pub sent : Table
    pub sends : IsSent H signature params sent
    pub text : body_text H digest sort (some sent) ≡ some (some body)

  -- libgcrypt makes a signature for a request that is signed.
  abbrev pub Makes : Kind → Request Table → Type 0
  Makes kind oa =
      (r : Request Table)
      → oa_sign_request H digest sort e kind oa ≡ some (r, true)
      → r.signature ≢ none
