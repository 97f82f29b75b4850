-- ===== src/Update/Markup.antt =====
-- The markup of an update in pt-update.c, and the cell of model.c that shows it. `escaped` is what
-- `g_markup_printf_escaped` writes for a string, which may be NULL, and `local_time` is a time as
-- GLib formats it.
use piiptyyt.Format.Fields.{as_string, as_time}
use piiptyyt.Update.Offset
use piiptyyt.Update.Table.{PtUpdate}
use piiptyyt.UserInfo.Table.{UserInfo}
use piiptyyt.UserInfo.Offset as UserOffset
use piiptyyt.Model.Rows.{times}
use piiptyyt.Prelude.{ℕ, ◌≡◌, Option, none, some, ◌++◌, Bytes, codes, ◌>>=◌}

unfoldable pub name_or_default : Option Bytes → Bytes
name_or_default none = codes "[tanasinn]"
name_or_default (some name) = name

-- The name of the user, whose object is found by its number.
unfoldable pub user_name : (ℕ → UserInfo) → Option ℕ → Option Bytes
user_name objects none = some (codes "[tanasinn]")
user_name objects (some a) =
    as_string ((objects a).fields UserOffset.screenname) >>= λ name. some (name_or_default name)

module _ (escaped : Option Bytes → Bytes) (local_time : Option ℕ → Option Bytes) where
  -- The format with its four strings.
  unfoldable pub markup_text : Bytes → Option Bytes → Option Bytes → Option Bytes → Bytes
  markup_text username text time_sent source =
      codes "<b>"
      ++ escaped (some username)
      ++ codes "</b> "
      ++ escaped text
      ++ codes "\n"
      ++ codes "<span size=\"smaller\" fgcolor=\"grey\">"
      ++ escaped time_sent
      ++ codes " from "
      ++ escaped source
      ++ codes "</span>"

  unfoldable pub pt_update_generate_markup : (ℕ → UserInfo) → PtUpdate → Option Bytes
  pt_update_generate_markup objects self = do
    username ← user_name objects self.user
    timestamp ← as_time (self.fields Offset.timestamp)
    text ← as_string (self.fields Offset.text)
    source ← as_string (self.fields Offset.source)
    some (markup_text username text (local_time timestamp) source)

  unfoldable pub cached_markup :
      (ℕ → UserInfo) → Option Bytes → PtUpdate → Option (Bytes × PtUpdate)
  cached_markup objects (some markup) self = some (markup, self)
  cached_markup objects none self = pt_update_generate_markup objects self >>= λ markup.
      some (markup, record self { markup_cache = some markup })

  -- The property "markup", the only one.
  unfoldable pub pt_update_get_property : (ℕ → UserInfo) → PtUpdate → Option (Bytes × PtUpdate)
  pt_update_get_property objects self = cached_markup objects self.markup_cache self

  -- The markup of the cell of a row, and the object of the row; NULL if it has none.
  unfoldable pub set_markup_column_from_pt_update :
      (ℕ → UserInfo) → Option PtUpdate → Option Bytes → Option (Option Bytes × Option PtUpdate)
  set_markup_column_from_pt_update objects none cell = some (cell, none)
  set_markup_column_from_pt_update objects (some update) cell =
      pt_update_get_property objects update >>= λ r. some (some r.0, some r.1)

  -- What `g_markup_printf_escaped` writes for a string begins no tag.
  pub record IsEscaping : Type 0 where
    pub no_tag : (s : Option Bytes) → times b'<' (escaped s) ≡ 0

  -- The markup without its tags.
  abbrev pub seen : Bytes → Option Bytes → Option Bytes → Option Bytes → Bytes
  seen username text time_sent source =
      escaped (some username)
      ++ codes " "
      ++ escaped text
      ++ codes "\n"
      ++ escaped time_sent
      ++ codes " from "
      ++ escaped source

  abbrev pub format_tags : Bytes
  format_tags = codes "<b></b><span size=\"smaller\" fgcolor=\"grey\"></span>"
