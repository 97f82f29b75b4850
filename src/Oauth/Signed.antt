-- ===== src/Oauth/Signed.antt =====
-- What a signed request sends.
use piiptyyt.Prelude.{
  ◌≡◌, inl, inr, Bool, true, Option, some, List, arith, Bytes, ◌==◌, Bool-cases, Option-cases,
  ◌>>=◌, >>=-eq-some,
}
use piiptyyt.Glib.HashTable.{HashTable}
use piiptyyt.Oauth.Request.{
  Request, Environment, Kind, sig_hmac_sha1, oa_sign_sha1, kind_params, gather_params,
}
use piiptyyt.Oauth.Sign.{oa_sig_base, hmac_key, sign_base, sign_params, oa_sign_request}

module _ (H : HashTable Bytes (Option Bytes)) where
  open H use {Table, lookup}

  -- The request of a call that has filled in what was missing.
  abbrev pub filled :
      Kind → Option Bytes → Option Bytes → Option Bytes → Request Table → Request Table
  filled kind ts n sig req = record ((kind_params H kind req).0) {
    timestamp = ts;
    nonce = n;
    signature = sig;
  }

  module _ (digest : Option Bytes → Bytes → Option Bytes) where
    module _ (sort : List Bytes → List Bytes) where
      pub signed_inv :
          (e : Environment) (kind : Kind) (req req' : Request Table)
          → oa_sign_request H digest sort e kind req ≡ some (req', true)
          → (r : Request Table) × (t : Table) × (key sb : Bytes) × (s : Option Bytes)
            × (gather_params H digest e kind req ≡ some (r, some t))
            × (oa_sig_base H sort r.request_method r.request_url t ≡ some sb)
            × (hmac_key H r ≡ some key)
            × (oa_sign_sha1 digest (some key) sb ≡ some s)
            × (req' ≡ record r { signature = s })
      unfolding oa_sign_request sign_params sign_base
      signed_inv e kind req req' done =
          let ((r, params), gathered, rest) =
            >>=-eq-some (gather_params H digest e kind req) _ done in
          elim (Option-cases params) [
            | inl bad ↦ ground arith
            | inr (t, table) ↦
                let step : sign_params H digest sort (r, some t) ≡ some (req', true) =
                  ground arith in
                let (sb, based, rest₂) =
                  >>=-eq-some (oa_sig_base H sort r.request_method r.request_url t) _ step in
                elim (Bool-cases (r.sig_method == sig_hmac_sha1)) [
                  | inr other ↦ ground arith
                  | inl hmac ↦
                      let with_signature : Option Bytes → Option (Request Table × Bool) =
                        λ s. some (record r { signature = s }, true) in
                      let step₂ : (hmac_key H r >>= λ key.
                      oa_sign_sha1 digest (some key) sb >>= with_signature)
                          ≡ some (req', true) =
                        ground arith in
                      let (key, keyed, rest₃) = >>=-eq-some (hmac_key H r) _ step₂ in
                      let (s, signed, out) =
                        >>=-eq-some (oa_sign_sha1 digest (some key) sb) _ rest₃ in
                      (r, t, key, sb, s, ground arith, based, keyed, signed, ground arith)
                ]
          ]
