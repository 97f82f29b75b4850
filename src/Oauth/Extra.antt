-- ===== src/Oauth/Extra.antt =====
-- The extra parameters of a request.
use piiptyyt.Prelude.{
  ◌≡◌, refl, sym, ap, ◌∙◌, ◌≢◌, inl, inr, not, Option, none, some, List, [], ◌∷◌, arith, Bytes,
  codes, All, if◌then◌else◌, Bool-cases, >>=-eq-some,
}
use piiptyyt.Glib.HashTable.{HashTable, find, Distinct}
use piiptyyt.Oauth.Request.{
  Request, Environment, req_resource, is_null, value_of, oa_set_extra_param, add_entries,
  kind_params, common_params, add_nonce, stamp, gather_common, gather_params,
}

-- The names that a request for a resource has on its own.
abbrev pub own_names : List Bytes
own_names =
    codes "oauth_token"
    ∷ codes "oauth_version"
    ∷ codes "oauth_consumer_key"
    ∷ codes "oauth_signature_method"
    ∷ codes "oauth_timestamp"
    ∷ codes "oauth_nonce"
    ∷ []

module _ (H : HashTable Bytes (Option Bytes)) where
  open H use {Table, lookup}

  remove_if_set-lookup :
      (key k : Bytes) (t : Table)
      → key ≢ k
      → lookup k (if not (is_null (value_of H key t)) then H.remove key t else t) ≡ lookup k t
  remove_if_set-lookup key k t ne = elim (Bool-cases (is_null (value_of H key t))) [
    | inl absent ↦ rw absent
    | inr present ↦ rw present (H.lookup-remove_ne key k t ne)
  ]

  value_of_found :
      (k : Bytes) (t : Table) (v : Option Bytes) → lookup k t ≡ some v → value_of H k t ≡ v
  unfolding value_of
  value_of_found k t v found = rw (found, value_of)

  value_of_same :
      (k : Bytes) (t u : Table) → lookup k t ≡ lookup k u → value_of H k t ≡ value_of H k u
  unfolding value_of
  value_of_same k t u same = rw (same, value_of)

  -- A parameter that is set has the value given, also where it had one before, and the others
  -- keep theirs.
  pub set_extra_param-value_of :
      (key : Bytes) (value : Option Bytes) (req : Request Table)
      → (value_of H key (oa_set_extra_param H key value req).extra_params ≡ value)
        × ((k : Bytes)
            → key ≢ k
            → value_of H k (oa_set_extra_param H key value req).extra_params
              ≡ value_of H k req.extra_params)
  unfolding oa_set_extra_param
  set_extra_param-value_of key value req = (
    value_of_found key _ value (H.lookup-insert_self key value _),
    λ k ne.
        value_of_same k _ _
          (H.lookup-insert_ne key k value _ ne ∙ remove_if_set-lookup key k req.extra_params ne),
  )

  -- The entries of an iteration override what was there.
  add_entries-lookup :
      (k : Bytes) (l : List (Bytes × Option Bytes)) (t : Table)
      → Distinct H.key_discrete l
      → lookup k (add_entries H l t)
        ≡ (elim (find H.key_discrete k l) [ none ↦ lookup k t | some v ↦ some v ])
  unfolding add_entries find
  add_entries-lookup k [] t d = refl
  add_entries-lookup k ((j, v) ∷ l) t (new, d) = elim (H.key_discrete j k) [
    | yes same ↦ ground (
      arith,
      add_entries-lookup k l (H.insert j v t) d,
      sym (ap (λ x. find H.key_discrete x l) same) ∙ new,
      ap (λ x. lookup x (H.insert j v t)) (sym same) ∙ H.lookup-insert_self j v t,
    )
    | no other ↦
        ground (arith, add_entries-lookup k l (H.insert j v t) d, H.lookup-insert_ne j k v t other)
  ]

  common_params-lookup :
      (k : Bytes) (r : Request Table) (t : Table)
      → All (λ name. name ≢ k) own_names
      → lookup k (common_params H r t) ≡ lookup k t
  unfolding common_params
  common_params-lookup k r t (_, (h₁, (h₂, (h₃, (h₄, (h₅, _)))))) =
      H.lookup-insert_ne _ k _ _ h₅
      ∙ H.lookup-insert_ne _ k _ _ h₄
      ∙ H.lookup-insert_ne _ k _ _ h₃
      ∙ H.lookup-insert_ne _ k _ _ h₂
      ∙ H.lookup-insert_ne _ k _ _ h₁

  -- The parameters of a request for a resource have, under each name that is not one of the six
  -- of the protocol, just what the extra parameters have under that name, in whatever order the
  -- table of those is read.
  pub gather_params-extra :
      (digest : Option Bytes → Bytes → Option Bytes) (e : Environment) (req r : Request Table)
      (t : Table) (k : Bytes)
      → All (λ name. name ≢ k) own_names
      → gather_params H digest e req_resource req ≡ some (r, some t)
      → lookup k t ≡ lookup k req.extra_params
  unfolding gather_params gather_common kind_params
  gather_params-extra digest e req r t k own done =
      let plain = H.insert (codes "oauth_token") req.token_key H.new in
      let all = add_entries H (H.entries req.extra_params) plain in
      let step : gather_common H digest e req (some all) ≡ some (r, some t) = ground arith in
      let (r₂, ready, out) = >>=-eq-some (add_nonce H digest e (stamp H e req)) _ step in
      let made : common_params H r₂ all ≡ t = ground arith in
      let bare : lookup k plain ≡ none = H.lookup-insert_ne _ k _ _ own.0 ∙ H.lookup-new k in
      sym (ap (lookup k) made)
      ∙ common_params-lookup k r₂ all own
      ∙ ground (
        arith,
        bare,
        add_entries-lookup k (H.entries req.extra_params) plain
            (H.entries-Distinct req.extra_params),
        H.find-entries k req.extra_params,
      )
