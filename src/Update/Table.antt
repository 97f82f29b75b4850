-- ===== src/Update/Table.antt =====
-- The table of `struct update` and new updates in pt-update.c.
use piiptyyt.Prelude.{
  ℕ, false, ◌||◌, Option, none, List, [], ◌∷◌, Bytes, codes, ◌==◌, if◌then◌else◌,
}
use piiptyyt.Format.Fields.{int_value, bool_value, string_value, time_value, Field, Memory}
use piiptyyt.Update.Offset
use piiptyyt.UserInfo.Table.{fld, field}

-- `UFS` is `fld` and `UF` is `field`.
abbrev pub update_fields : List Field
update_fields =
    fld b'I' Offset.id (codes "id")
    ∷ field b'i' Offset.in_rep_to_uid (codes "in_reply_to_user_id")
    ∷ field b'i' Offset.in_rep_to_sid (codes "in_reply_to_status_id")
    ∷ fld b'b' Offset.favorited (codes "favorited")
    ∷ fld b'b' Offset.truncated (codes "truncated")
    ∷ field b's' Offset.in_rep_to_screen_name (codes "in_reply_to_screen_name")
    ∷ fld b's' Offset.source (codes "source")
    ∷ fld b'S' Offset.text (codes "text")
    ∷ field b'T' Offset.timestamp (codes "created_at")
    ∷ []

-- `fields` has the members that the table describes; a number stands for a user.
pub record PtUpdate : Type 0 where
  pub fields : Memory
  pub user : Option ℕ
  pub markup_cache : Option Bytes

-- A new object is filled with zeros.
unfoldable pub zero_fields : Memory
zero_fields o =
    if o == Offset.favorited || o == Offset.truncated
    then bool_value false
    else if o == Offset.in_rep_to_screen_name || (o == Offset.source || o == Offset.text)
    then string_value none
    else if o == Offset.timestamp
    then time_value none
    else int_value 0

unfoldable pub pt_update_new : PtUpdate
pt_update_new = record { fields = zero_fields; user = none; markup_cache = none }
