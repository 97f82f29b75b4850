-- ===== src/Oauth/Sent.antt =====
-- The table that a signed request sends, and the base string of its signature, apart from the code.
use piiptyyt.Glib.HashTable.{HashTable}
use piiptyyt.Oauth.Escape.Buffer.{oauth_url_escape}
use piiptyyt.Oauth.Request.{Request, finish_params}
use piiptyyt.Oauth.Sign.{encode_params, keys_of, append_encoded, oa_sig_base}
use piiptyyt.Prelude.{
  ◌≡◌, refl, sym, ap, ◌∙◌, ◌≢◌, true, false, Option, none, some, List, ◌∷◌, ◌++◌, arith,
  some-injective, Bytes, codes, bytes_eq, bytes_eq_iff, >>=-eq-some,
}

bytes_differ : (a b : Bytes) → bytes_eq a b ≡ false → a ≢ b
bytes_differ a b h e = ground (arith, (bytes_eq_iff a b).1 e)

module _ (H : HashTable Bytes (Option Bytes)) where
  open H use {Table, lookup}

  -- The parameters `sent`: those of `signed`, with the signature and without the two secrets.
  pub record IsSent (sig : Bytes) (signed sent : Table) : Type 0 where
    pub signature : lookup (codes "oauth_signature") sent ≡ some (some sig)
    pub no_token_secret : lookup (codes "oauth_token_secret") sent ≡ none
    pub no_consumer_secret : lookup (codes "oauth_consumer_secret") sent ≡ none
    pub others :
        (k : Bytes)
        → codes "oauth_signature" ≢ k
        → codes "oauth_token_secret" ≢ k
        → codes "oauth_consumer_secret" ≢ k
        → lookup k sent ≡ lookup k signed

  pub finish_params-IsSent :
      (req : Request Table) (sig : Bytes) (t : Table)
      → req.signature ≡ some sig
      → (u : Table) × (finish_params H (req, some t) ≡ (req, some u)) × IsSent sig t u
  unfolding finish_params
  finish_params-IsSent req sig t made =
      let t₁ = H.remove (codes "oauth_consumer_secret") t in
      let t₂ = H.remove (codes "oauth_token_secret") t₁ in
      (
        H.insert (codes "oauth_signature") req.signature t₂,
        refl,
        record {
          signature = H.lookup-insert_self _ req.signature t₂ ∙ ap some made;
          no_token_secret =
              H.lookup-insert_ne _ _ _ t₂ (bytes_differ _ _ refl) ∙ H.lookup-remove_self _ t₁;
          no_consumer_secret =
              H.lookup-insert_ne _ _ _ t₂ (bytes_differ _ _ refl)
              ∙ H.lookup-remove_ne _ _ t₁ (bytes_differ _ _ refl)
              ∙ H.lookup-remove_self _ t;
          others = λ k a b c.
              H.lookup-insert_ne _ k _ t₂ a
              ∙ H.lookup-remove_ne _ k t₁ b
              ∙ H.lookup-remove_ne _ k t c;
        },
      )

  module _ (sort : List Bytes → List Bytes) where
    -- The signature base string: the method, the escaped address, and the encoded pairs of the
    -- parameters, sorted, with a `&` (38) between the three.
    pub record IsBase (req : Request Table) (t : Table) (sb : Bytes) : Type 0 where
      pub pairs : List Bytes
      pub method : Bytes
      pub uri : Bytes
      pub joined : Bytes
      pub encoded : encode_params H t (keys_of H t) ≡ some pairs
      pub has_method : req.request_method ≡ some method
      pub has_uri : oauth_url_escape req.request_url ≡ some uri
      pub joins : append_encoded true (sort pairs) ≡ some joined
      pub base : sb ≡ method ++ 38 ∷ uri ++ 38 ∷ joined

    pub oa_sig_base-IsBase :
        (req : Request Table) (t : Table) (sb : Bytes)
        → oa_sig_base H sort req.request_method req.request_url t ≡ some sb
        → IsBase req t sb
    unfolding oa_sig_base
    oa_sig_base-IsBase req t sb based =
        let (pairs, encoded, r₁) = >>=-eq-some (encode_params H t (keys_of H t)) _ based in
        let (m, has_method, r₂) = >>=-eq-some req.request_method _ r₁ in
        let (uri, has_uri, r₃) = >>=-eq-some (oauth_url_escape req.request_url) _ r₂ in
        let (joined, joins, r₄) = >>=-eq-some (append_encoded true (sort pairs)) _ r₃ in
        record {
          pairs = pairs;
          method = m;
          uri = uri;
          joined = joined;
          encoded = encoded;
          has_method = has_method;
          has_uri = has_uri;
          joins = joins;
          base = sym (some-injective r₄);
        }
