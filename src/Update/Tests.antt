-- ===== src/Update/Tests.antt =====
-- Reading the update of the example, and showing one.
use piiptyyt.Format.Fields.{time_value}
use piiptyyt.UserInfo.Table.{UserInfo, pt_user_info_new}
use piiptyyt.Prelude.{
  ℕ, ◌≡◌, refl, ◌≢◌, Option, none, some, [], ◌∷◌, Bytes, codes, All, ◌==◌, if◌then◌else◌,
}
use piiptyyt.Format.Fields.{string_value, Memory}
use piiptyyt.Format.Json.{IsRead, first_refused, refuses}
use piiptyyt.Update.Example.{a_link, link_sax, an_update, no_cache}
use piiptyyt.Update.Offset
use piiptyyt.Update.Parse.{pt_update_new_from_json}
use piiptyyt.Update.Parsed.{clean, without_cache, new_from_json-IsRead}
use piiptyyt.Update.Table.{update_fields, PtUpdate, pt_update_new}

new_from_json-IsRead_example :
    (u : PtUpdate) × (read : Memory) × (pt_update_new_from_json link_sax
        (λ s. some 1)
        no_cache
        an_update
        0
      ≡ some (u, 0))
    × All (IsRead (λ s. some 1) an_update.members pt_update_new.fields read) update_fields
    × ((o : ℕ) → o ≢ Offset.source → u.fields o ≡ read o)
    × (u.fields Offset.source ≡ string_value (some (clean link_sax a_link)))
    × (u.user ≡ none)
unfolding first_refused refuses
new_from_json-IsRead_example =
    new_from_json-IsRead link_sax (λ s. some 1) no_cache an_update 0 0 none a_link refl refl refl
      refl (without_cache refl)

-- Without the characters that begin a tag.
without_tags : Bytes → Bytes
without_tags [] = []
without_tags (c ∷ s) = let rest = without_tags s in if c == b'<' then rest else c ∷ rest

abbrev strip : Option Bytes → Bytes
strip none = codes "(null)"
strip (some s) = without_tags s

abbrev nobody : ℕ → UserInfo
nobody a = pt_user_info_new

abbrev shouting : PtUpdate
shouting = record {
  fields = λ o.
      if o == Offset.text
      then string_value (some (codes "<b>hi"))
      else if o == Offset.source
      then string_value none
      else time_value (some 3);
  user = none;
  markup_cache = none;
}
