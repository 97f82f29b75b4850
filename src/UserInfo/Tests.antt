-- ===== src/UserInfo/Tests.antt =====
-- A new user, an object with every member, and a small cache of pictures.
use piiptyyt.Prelude.{ℕ, ◌≡◌, refl, true, false, Option, none, some, List, [], arith, Bytes, codes}
use piiptyyt.Prelude.{bytes_discrete}
use piiptyyt.Format.Json.{JsonObject}
use piiptyyt.Format.Sqlite.{Bind, format_to_sqlite}
use piiptyyt.Glib.Assoc.{assoc}
use piiptyyt.Glib.HashTable.{HashTable}
use piiptyyt.PtCache.Fresh.{address_above, address_above_fresh}
use piiptyyt.PtCache.Invariant.{IsValid}
use piiptyyt.PtCache.Props.{pt_cache_init, init-IsValid}
use piiptyyt.PtCache.State.{Cache, Item, lookup_item}
use piiptyyt.UserInfo.Table.{
  UserInfo, new_fields, pt_user_info_new, pt_user_info_from_json, user_info_fields,
}
use piiptyyt.Format.Fields.{store_at, int_value, string_value}
use piiptyyt.UserInfo.Offset
use piiptyyt.UserInfo.Table.{get_string, get_id}
use piiptyyt.UserInfo.Userpic.{
  Session, went_away, img_fetch_callback, cached_userpic_name, decimal, decimal_onto, after_dot,
}
use piiptyyt.UserInfo.Arrives.{userpic_arrives}
use piiptyyt.Prelude.{bytes_eq, Bool, if◌then◌else◌}
use piiptyyt.UserInfo.Types.{AllBound, WellTyped, user_typing, user_info-WellTyped}
use piiptyyt.UserInfo.Userpic.{Loaded, picture, pt_user_info_get_userpic}

abbrev an_object : JsonObject
an_object = record {
  member = λ name. some false;
  int_member = λ name. 5;
  boolean_member = λ name. true;
  string_member = λ name. some name;
}

new_typed : WellTyped user_typing pt_user_info_new.fields
unfolding pt_user_info_new new_fields
new_typed o type h = ground arith

user_info-WellTyped_example :
    WellTyped user_typing pt_user_info_new.fields
    × ((u' : UserInfo) × (error : Option Bytes) × (binds : List Bind) × (pt_user_info_from_json
            (λ s. none)
            pt_user_info_new
            an_object
          ≡ some (u', error))
        × WellTyped user_typing u'.fields
        × (format_to_sqlite u'.fields user_info_fields ≡ some binds)
        × AllBound u'.fields 0 user_info_fields binds)
user_info-WellTyped_example = user_info-WellTyped (λ s. none) pt_user_info_new an_object new_typed

abbrev table : HashTable Bytes ℕ
table = assoc bytes_discrete

abbrev memory : ℕ → Item Bytes
memory a = record { ref = 0; key = []; key_size = 0; age = 0 }

abbrev no_pictures : Cache Bytes (List (Bytes × ℕ))
no_pictures = pt_cache_init memory

-- The user 5 with an image.
abbrev with_image : UserInfo
with_image = record pt_user_info_new {
  fields =
      store_at (store_at new_fields Offset.id (int_value 5)) Offset.profile_image_url
        (string_value (some (codes "http://a/b.png")));
}

-- A file system with one file.
abbrev write_file : Bytes → Bytes → Bytes → Bytes × Bool
write_file fs name body = (name, true)

abbrev move_file : Bytes → Bytes → Bytes → Bytes × Bool
move_file fs from to = (to, true)

abbrev read_file : Bytes → Bytes → Loaded
read_file fs name = if bytes_eq fs name then picture 9 else went_away

userpic_arrives_example :
    (waiting fetched : UserInfo) × (pt_user_info_get_userpic table address_above
        (λ n. read_file [] n)
        (some (some 3))
        (with_image, no_pictures)
      ≡ some (none, (waiting, no_pictures)))
    × ((session : Session)
        → pt_user_info_get_userpic table address_above
            (λ n. read_file [] n)
            session
            (waiting, no_pictures)
          ≡ some (none, (waiting, no_pictures)))
    × (img_fetch_callback (λ n. n) write_file move_file 3 true [] waiting []
        ≡ some (fetched, codes "u_5.png"))
    × ((session : Session)
        → (pics' : Cache Bytes (List (Bytes × ℕ))) × (pt_user_info_get_userpic table address_above
              (λ n. read_file (codes "u_5.png") n)
              session
              (fetched, no_pictures)
            ≡ some (some 9, (fetched, pics')))
          × IsValid table pics')
unfolding pt_cache_init lookup_item pt_user_info_new cached_userpic_name get_string get_id decimal
    decimal_onto after_dot
userpic_arrives_example =
    userpic_arrives (λ n. n) write_file move_file read_file table address_above with_image
      no_pictures [] (codes "u_5.png.tmp") (codes "u_5.png") 3 9 (codes "u_5.png") []
      address_above_fresh (init-IsValid table memory) (omega arith) refl refl refl refl refl refl
      refl
