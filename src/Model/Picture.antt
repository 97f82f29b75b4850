-- ===== src/Model/Picture.antt =====
-- The cell of model.c with the picture of the user of an update.
use piiptyyt.Format.Fields.{string_value, as_string}
use piiptyyt.Glib.HashTable.{HashTable}
use piiptyyt.PtCache.Invariant.{is_node, IsValid}
use piiptyyt.PtCache.State.{Cache, lookup_item}
use piiptyyt.Update.Table.{PtUpdate}
use piiptyyt.UserCache.Users.{set_object}
use piiptyyt.UserInfo.Offset
use piiptyyt.UserInfo.Table.{UserInfo}
use piiptyyt.UserInfo.Userpic.{Loaded, picture, pt_user_info_get_userpic, get_userpic_again}
use piiptyyt.Prelude.{
  ℕ, ◌+◌, ◌^◌, ◌<◌, ◌≡◌, refl, ap, ◌∙◌, true, false, Option, none, some, arith, Bytes, ◌==◌,
  if◌then◌else◌, ◌>>=◌,
}

-- The user, if there is one whose name is known.
unfoldable pub named_user : (ℕ → UserInfo) → Option ℕ → Option (Option ℕ)
named_user objects none = some none
named_user objects (some a) = as_string ((objects a).fields Offset.screenname) >>= λ name.
    some (elim name [ none ↦ none | some _ ↦ some a ])

-- The picture that was found, or that of the cat on the table.
unfoldable pub or_default : ℕ → Option ℕ → ℕ
or_default default_userpic none = default_userpic
or_default default_userpic (some pixbuf) = pixbuf

module _ (H : HashTable Bytes ℕ) (alloc : Cache Bytes H.Table → ℕ) (default_userpic : ℕ) where
  open H use {Table}

  -- The heap of users, the cache of pictures, and what the cell shows.
  pub record Shown : Type 0 where
    pub objects : ℕ → UserInfo
    pub pics : Cache Bytes Table
    pub pixbuf : Option ℕ

  -- `new_msg` is the message that the session of the model makes next.
  unfoldable pub show_picture : (Bytes → Loaded) → Option ℕ → Shown → Option ℕ → Option Shown
  show_picture load new_msg s none = some (record s { pixbuf = some default_userpic })
  show_picture load new_msg s (some a) =
      pt_user_info_get_userpic H alloc load (some new_msg) (s.objects a, s.pics) >>= λ r.
      some (record {
        objects = set_object s.objects a r.1.0;
        pics = r.1.1;
        pixbuf = some (or_default default_userpic r.0);
      })

  -- The row has an update, or NULL.
  unfoldable pub set_display_pic_column_from_pt_update :
      (Bytes → Loaded) → Option ℕ → Option PtUpdate → Shown → Option Shown
  set_display_pic_column_from_pt_update load new_msg none s = some s
  set_display_pic_column_from_pt_update load new_msg (some update) s =
      named_user s.objects update.user >>= show_picture load new_msg s

  shown_lem :
      (load : Bytes → Loaded) (new_msg : Option ℕ) (update : PtUpdate) (s : Shown) (a : ℕ)
      (screenname : Bytes) (p : ℕ) (u : UserInfo) (pics' : Cache Bytes Table)
      → update.user ≡ some a
      → (s.objects a).fields Offset.screenname ≡ string_value (some screenname)
      → pt_user_info_get_userpic H alloc load (some new_msg) (s.objects a, s.pics)
        ≡ some (some p, (u, pics'))
      → set_display_pic_column_from_pt_update load new_msg (some update) s
        ≡ some (record { objects = set_object s.objects a u; pics = pics'; pixbuf = some p })
  unfolding set_display_pic_column_from_pt_update show_picture or_default named_user as_string
  shown_lem load new_msg update s a screenname p u pics' user named done =
      rw user (rw named (rw done refl))

  -- A row of a user whose picture is not in a valid cache with room but is readable: the cell
  -- shows it, and shows it again later whatever has become of the file.
  pub set_display_pic_again :
      (load load' : Bytes → Loaded) (new_msg new_msg' : Option ℕ) (update : PtUpdate) (s : Shown)
      (a : ℕ) (screenname name : Bytes) (p : ℕ)
      → ((c : Cache Bytes Table) → is_node (alloc c) c ≡ false)
      → IsValid H s.pics
      → s.pics.count + 1 < 2 ^ 31
      → update.user ≡ some a
      → (s.objects a).fields Offset.screenname ≡ string_value (some screenname)
      → (s.objects a).cached_img_name ≡ some name
      → lookup_item H s.pics.keys name ≡ none
      → load name ≡ picture p
      → (s' : Shown) × (set_display_pic_column_from_pt_update load new_msg (some update) s
          ≡ some s')
        × (s'.pixbuf ≡ some p)
        × IsValid H s'.pics
        × ((s'' : Shown) × (set_display_pic_column_from_pt_update load' new_msg' (some update) s'
              ≡ some s'')
            × (s''.pixbuf ≡ some p)
            × IsValid H s''.pics)
  set_display_pic_again load load' new_msg new_msg' update s a screenname name p fresh v small user
        named cached absent loaded =
      let u = s.objects a in
      let (pics', done, v', later) =
        get_userpic_again H alloc load (some new_msg) u s.pics name p fresh v small cached absent
          loaded in
      let (pics'', again, v'') = later load' (some new_msg') in
      let s' : Shown = record {
        objects = set_object s.objects a u;
        pics = pics';
        pixbuf = some p;
      } in
      let own : (a == a) ≡ true = ground arith in
      let same : s'.objects a ≡ u = ap (λ b. if b then u else s.objects a) own in
      (
        s',
        shown_lem load new_msg update s a screenname p u pics' user named done,
        refl,
        v',
        (
          record { objects = set_object s'.objects a u; pics = pics''; pixbuf = some p },
          shown_lem load' new_msg' update s' a screenname p u pics'' user
              (ap (λ x. x.fields Offset.screenname) same ∙ named)
              (ap (λ x. pt_user_info_get_userpic H alloc load' (some new_msg') (x, pics')) same
                ∙ again),
          refl,
          v'',
        ),
      )
