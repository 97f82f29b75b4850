-- ===== src/Model/PictureTests.antt =====
-- The picture of a user that is in the directory of the pictures.
use piiptyyt.Format.Fields.{string_value, store_at}
use piiptyyt.Glib.Assoc.{assoc}
use piiptyyt.Glib.HashTable.{HashTable}
use piiptyyt.Model.Picture.{Shown, set_display_pic_column_from_pt_update, set_display_pic_again}
use piiptyyt.Prelude.{bytes_discrete}
use piiptyyt.PtCache.Fresh.{address_above, address_above_fresh}
use piiptyyt.PtCache.Invariant.{IsValid}
use piiptyyt.PtCache.Props.{pt_cache_init, init-IsValid}
use piiptyyt.PtCache.State.{Item, lookup_item}
use piiptyyt.Update.Table.{PtUpdate, pt_update_new}
use piiptyyt.UserInfo.Offset
use piiptyyt.UserInfo.Table.{UserInfo, pt_user_info_new, new_fields}
use piiptyyt.UserInfo.Userpic.{Loaded, picture, went_away}
use piiptyyt.Prelude.{ℕ, ◌≡◌, refl, none, some, [], arith, Bytes, codes}

abbrev table : HashTable Bytes ℕ
table = assoc bytes_discrete

abbrev memory : ℕ → Item Bytes
memory a = record { ref = 0; key = []; key_size = 0; age = 0 }

abbrev me : UserInfo
me = record pt_user_info_new {
  fields = store_at new_fields Offset.screenname (string_value (some (codes "me")));
  cached_img_name = some (codes "u_5.png");
}

abbrev mine : PtUpdate
mine = record pt_update_new { user = some 4 }

-- The cat on the table is the picture 1.
abbrev unshown : Shown table address_above 1
unshown = record { objects = λ a. me; pics = pt_cache_init memory; pixbuf = none }

abbrev readable : Bytes → Loaded
readable name = picture 9

abbrev removed : Bytes → Loaded
removed name = went_away

set_display_pic_again_example :
    (s' : Shown table address_above 1) × (set_display_pic_column_from_pt_update table address_above
        1 readable none
        (some mine)
        unshown
      ≡ some s')
    × (s'.pixbuf ≡ some 9)
    × IsValid table s'.pics
    × ((s'' : Shown table address_above 1) × (set_display_pic_column_from_pt_update table
            address_above 1 removed none
            (some mine)
            s'
          ≡ some s'')
        × (s''.pixbuf ≡ some 9)
        × IsValid table s''.pics)
unfolding pt_cache_init lookup_item
set_display_pic_again_example =
    set_display_pic_again table address_above 1 readable removed none none mine unshown 4
      (codes "me") (codes "u_5.png") 9 address_above_fresh (init-IsValid table memory) (omega arith)
      refl refl refl refl refl
