-- ===== src/UserInfo/Table.antt =====
-- `struct user_info` of pt-user-info.h, and its fields in JSON and in the database.
use piiptyyt.Prelude.{
  ℕ, Bool, false, Option, none, some, List, [], ◌∷◌, Bytes, codes, leb, ◌==◌, if◌then◌else◌, ◌>>=◌,
}
use piiptyyt.Format.Fields.{int_value, bool_value, string_value, Field, Memory, store_at}
use piiptyyt.UserInfo.Offset
use piiptyyt.Format.Json.{JsonObject, format_from_json}

-- `SQL_FIELD`, `FIELD` and `FLD`.
abbrev pub sql_field : ℕ → ℕ → Bytes → Bytes → Field
sql_field type offset name column = record {
  name = name;
  column = column;
  offset = offset;
  type = type;
}

abbrev pub field : ℕ → ℕ → Bytes → Field
field type offset name = sql_field type offset name name

abbrev pub fld : ℕ → ℕ → Bytes → Field
fld type offset name = field type offset name

abbrev pub user_info_fields : List Field
user_info_fields =
    sql_field b's' Offset.longname (codes "name") (codes "longname")
    ∷ sql_field b's' Offset.screenname (codes "screen_name") (codes "screenname")
    ∷ fld b's' Offset.profile_image_url (codes "profile_image_url")
    ∷ fld b'b' Offset.protected (codes "protected")
    ∷ fld b'b' Offset.verified (codes "verified")
    ∷ fld b'b' Offset.following (codes "following")
    ∷ fld b'I' Offset.id (codes "id")
    ∷ []

-- `fields` has the members that the table describes; a number stands for a message.
pub record UserInfo : Type 0 where
  pub fields : Memory
  pub cached_img_name : Option Bytes
  pub dirty : Bool
  pub img_fetch_msg : Option ℕ

-- A new object is filled with zeros, and `pt_user_info_init` sets what is not zero-filled.
unfoldable pub new_fields : Memory
new_fields o =
    if o == Offset.id
    then int_value 0
    else if leb o Offset.profile_image_url
    then string_value none
    else bool_value false

unfoldable pub pt_user_info_new : UserInfo
pt_user_info_new = record {
  fields = new_fields;
  cached_img_name = none;
  dirty = false;
  img_fetch_msg = none;
}

unfoldable pub get_id : UserInfo → ℕ
get_id u = elim (u.fields Offset.id) [ int_value n ↦ n | _ ↦ 0 ]

unfoldable pub set_id : ℕ → UserInfo → UserInfo
set_id n u = record u { fields = store_at u.fields Offset.id (int_value n) }

unfoldable pub get_string : ℕ → UserInfo → Option Bytes
get_string o u = elim (u.fields o) [ string_value s ↦ s | _ ↦ none ]

-- The object as it is left, and the name that the error is about.
unfoldable pub pt_user_info_from_json :
    (Option Bytes → Option ℕ) → UserInfo → JsonObject → Option (UserInfo × Option Bytes)
pt_user_info_from_json date ui obj = format_from_json date ui.fields obj user_info_fields >>= λ r.
    some (record ui { fields = r.0 }, r.1)
