-- ===== src/Update/Parse.antt =====
-- Updates from JSON, in pt-update.c and main.c. `get_user` stands for `get_user_info_from_json`
-- with a cache in the state `W`, and is not there if the cache is NULL.
use piiptyyt.Prelude.{
  ℕ, Bool, true, false, Option, none, some, List, [], ◌∷◌, Bytes, codes, ◌==◌, if◌then◌else◌, ◌>>=◌,
}
use piiptyyt.Prelude.Int.{ℤ}
use piiptyyt.Format.Fields.{string_value, Memory, store_at, as_string}
use piiptyyt.Format.Json.{JsonObject, format_from_json}
use piiptyyt.Update.Offset
use piiptyyt.Update.Source.{Event, separate_source_uri}
use piiptyyt.Update.Table.{update_fields, PtUpdate, pt_update_new}

-- The object of an update; `user` is `json_object_get_object_member` of that name.
pub record UpdateJson : Type 0 where
  pub members : JsonObject
  pub user : Option JsonObject

abbrev pub has_tag : Bytes → Bool
has_tag [] = false
has_tag (c ∷ s) = if c == b'<' then true else has_tag s

module _ {W : Type 0} (get_user : Option (JsonObject → W → Option (Option ℕ × W))) where
  -- The user, where the object has one.
  unfoldable pub update_user : UpdateJson → W → Option (Option ℕ × W)
  update_user obj w = elim get_user [
    | none ↦ some (none, w)
    | some get ↦ elim (obj.members.member (codes "user")) [
      | some true ↦ some (none, w)
      | some false ↦ elim obj.user [ none ↦ some (none, w) | some user ↦ get user w ]
      | none ↦ elim obj.user [ none ↦ some (none, w) | some user ↦ get user w ]
    ]
  ]

module _ (sax : Bytes → List Event × ℤ) where
  -- A source that is NULL is a bad access, and so is the message of the error that is not set.
  unfoldable pub new_source : Option Bytes → Option Bytes
  new_source none = none
  new_source (some source) =
      if has_tag source then (separate_source_uri sax source >>= λ r. some r.1) else some source

  unfoldable pub clean_source : PtUpdate → Option PtUpdate
  clean_source u = do
    source ← as_string (u.fields Offset.source)
    src ← new_source source
    some (record u { fields = store_at u.fields Offset.source (string_value (some src)) })

  module _ {W : Type 0} (date : Option Bytes → Option ℕ)
      (get_user : Option (JsonObject → W → Option (Option ℕ × W))) where
    -- After an error the object is NULL, and the read of its source is a bad access.
    unfoldable pub with_fields : UpdateJson → W → Memory × Option Bytes → Option (PtUpdate × W)
    with_fields obj w (m, some name) = none
    with_fields obj w (m, none) = do
      (user, w') ← update_user get_user obj w
      u ← clean_source (record pt_update_new { fields = m; user = user })
      some (u, w')

    unfoldable pub pt_update_new_from_json : UpdateJson → W → Option (PtUpdate × W)
    pt_update_new_from_json obj w =
        format_from_json date pt_update_new.fields obj.members update_fields >>= with_fields obj w

    -- The loop over the elements; no element comes out as NULL.
    unfoldable pub parse_elements : List UpdateJson → W → Option (List PtUpdate × W)
    parse_elements [] w = some ([], w)
    parse_elements (obj ∷ contents) w = do
      (u, w') ← pt_update_new_from_json obj w
      (updates, w'') ← parse_elements contents w'
      some (u ∷ updates, w'')

    -- `load` stands for the parser: the elements of the array, or NULL.
    unfoldable pub parse_update_array :
        (Bytes → Option (List UpdateJson)) → Bytes → W → Option (Option (List PtUpdate) × W)
    parse_update_array load text w = elim (load text) [
      | none ↦ some (none, w)
      | some contents ↦ parse_elements contents w >>= λ r. some (some r.0, r.1)
    ]
