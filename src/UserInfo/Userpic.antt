-- ===== src/UserInfo/Userpic.antt =====
-- The pictures of users in pt-user-info.c. The file system and the cache directory are
-- parameters: `path` builds the name of a file, `load` is `gdk_pixbuf_new_from_file_at_scale`,
-- and `set_contents` and `rename` tell whether they succeed. A number stands for a `SoupMessage`
-- and for a `GdkPixbuf`.
use piiptyyt.Prelude.{
  ℕ, zero, suc, ◌+◌, ◌/◌, ◌%◌, ◌^◌, ◌<◌, ◌≡◌, ap, ◌∙◌, Bool, true, false, Option, none, some, [],
  ◌∷◌, ◌++◌, Bytes, codes, length, ltb, ◌==◌, if◌then◌else◌, ◌>>=◌,
}
use piiptyyt.Glib.HashTable.{HashTable}
use piiptyyt.PtCache.Insert.{put_new-IsStored}
use piiptyyt.PtCache.Invariant.{IsValid, is_node}
use piiptyyt.PtCache.Props.{get_found, hit-IsValid, get_missing}
use piiptyyt.PtCache.Put.{Insertion, pt_cache_put}
use piiptyyt.PtCache.State.{Cache, Item, hit, lookup_item, pt_cache_get}
use piiptyyt.UserInfo.Offset
use piiptyyt.UserInfo.Table.{UserInfo, get_id, get_string}

-- `%llu`, on fuel; a number has no more digits than units, and one digit at least.
unfoldable pub decimal_onto : ℕ → ℕ → Bytes → Bytes
decimal_onto zero n rest = rest
decimal_onto (suc fuel) n rest =
    let longer = decimal_onto fuel (n / 10) ((b'0' + n % 10) ∷ rest) in
    if ltb n 10 then (b'0' + n) ∷ rest else longer

unfoldable pub decimal : ℕ → Bytes
decimal n = decimal_onto (n + 1) n []

-- What `strrchr` finds for a dot, without the dot.
unfoldable pub after_dot : Bytes → Option Bytes
after_dot [] = none
after_dot (c ∷ s) = elim (after_dot s) [
  | some ext ↦ some ext
  | none ↦ if c == b'.' then some s else none
]

-- A user with no image URL is a bad access.
unfoldable pub cached_userpic_name : UserInfo → Option Bytes
cached_userpic_name self = do
  url ← get_string Offset.profile_image_url self
  some (
      codes "u_"
      ++ decimal (get_id self)
      ++ b'.' ∷ elim (after_dot url) [ none ↦ codes "dat" | some ext ↦ ext ])

-- The outcome of loading a picture.
pub data Loaded : Type 0 where
  picture : ℕ → Loaded
  went_away unreadable : Loaded

module _ {Fs : Type 0} (path : Bytes → Bytes) (set_contents : Fs → Bytes → Bytes → Fs × Bool)
    (rename : Fs → Bytes → Bytes → Fs × Bool) where
  -- The file is written under another name and moved; a failure only warns.
  unfoldable pub store_picture : Bytes → Bytes → Fs → Fs
  store_picture name body fs =
      let (fs', written) = set_contents fs (path name ++ codes ".tmp") body in
      if written then (rename fs' (path name ++ codes ".tmp") (path name)).0 else fs'

  -- A response to another message is left alone.
  unfoldable pub img_fetch_callback : ℕ → Bool → Bytes → UserInfo → Fs → Option (UserInfo × Fs)
  img_fetch_callback msg is_ok body self fs =
      if (elim self.img_fetch_msg [ none ↦ false | some m ↦ m == msg ])
      then (if is_ok
          then (cached_userpic_name self >>= λ name. some (
            record self { cached_img_name = some name; dirty = true; img_fetch_msg = none },
            store_picture name body fs,
          ))
          else some (record self { img_fetch_msg = none }, fs))
      else some (self, fs)

-- `new_msg` is what `soup_message_new` gives: a message, or NULL for a bad address.
unfoldable pub start_userpic_fetch : Option ℕ → UserInfo → UserInfo
start_userpic_fetch new_msg self = elim self.img_fetch_msg [
  | some m ↦ self
  | none ↦ record self { img_fetch_msg = new_msg }
]

-- A session, or NULL, with the next message that is made for it.
abbrev pub Session : Type 0
Session = Option (Option ℕ)

-- The branch for a user with no picture of their own.
unfoldable pub fetch_picture : Session → UserInfo → UserInfo
fetch_picture none self = self
fetch_picture (some new_msg) self = start_userpic_fetch new_msg self

-- `struct user_info` and the cache of pictures.
abbrev pub Pictures : Type 0 → Type 0
Pictures Table = UserInfo × Cache Bytes Table

module _ (H : HashTable Bytes ℕ) (alloc : Cache Bytes H.Table → ℕ) where
  open H use {Table}

  -- A copy of the name, with its terminator, is the key.
  abbrev pub picture_entry : Bytes → ℕ → Insertion Bytes
  picture_entry name pixbuf = record {
    key = name;
    key_size = length name + 1;
    object = pixbuf;
    floating = false;
  }

  unfoldable pub keep_picture :
      Session → Bytes → Loaded → Pictures Table → Option (Option ℕ × Pictures Table)
  keep_picture session name (picture p) (self, pics) =
      pt_cache_put H alloc (picture_entry name p) pics >>= λ pics'. some (some p, (self, pics'))
  keep_picture session name went_away (self, pics) =
      some
        (none, (fetch_picture session (record self { cached_img_name = none; dirty = true }), pics))
  keep_picture session name unreadable (self, pics) = some (none, (self, pics))

  unfoldable pub cached_or_loaded :
      (Bytes → Loaded)
      → Session
      → UserInfo
      → Bytes
      → Option ℕ × Cache Bytes Table
      → Option (Option ℕ × Pictures Table)
  cached_or_loaded load session self name (some p, pics) = some (some p, (self, pics))
  cached_or_loaded load session self name (none, pics) =
      keep_picture session name (load name) (self, pics)

  unfoldable pub named_userpic :
      (Bytes → Loaded)
      → Session
      → Pictures Table
      → Option Bytes
      → Option (Option ℕ × Pictures Table)
  named_userpic load session (self, pics) none = some (none, (fetch_picture session self, pics))
  named_userpic load session (self, pics) (some name) =
      cached_or_loaded load session self name (pt_cache_get H name pics)

  -- The picture, or NULL.
  unfoldable pub pt_user_info_get_userpic :
      (Bytes → Loaded) → Session → Pictures Table → Option (Option ℕ × Pictures Table)
  pt_user_info_get_userpic load session (self, pics) =
      named_userpic load session (self, pics) self.cached_img_name

  -- A picture that is not in the cache is read from its file and kept: the call fails no
  -- assertion and gives it, and the next call gives the same picture whatever has become of the
  -- file. The cache stays valid.
  pub get_userpic_again :
      (load : Bytes → Loaded) (session : Session) (self : UserInfo) (pics : Cache Bytes Table)
      (name : Bytes) (p : ℕ)
      → ((c : Cache Bytes Table) → is_node (alloc c) c ≡ false)
      → IsValid H pics
      → pics.count + 1 < 2 ^ 31
      → self.cached_img_name ≡ some name
      → lookup_item H pics.keys name ≡ none
      → load name ≡ picture p
      → (pics' : Cache Bytes Table) × (pt_user_info_get_userpic load session (self, pics)
          ≡ some (some p, (self, pics')))
        × IsValid H pics'
        × ((load' : Bytes → Loaded) (session' : Session)
            → (pics'' : Cache Bytes Table) × (pt_user_info_get_userpic load' session' (self, pics')
                ≡ some (some p, (self, pics'')))
              × IsValid H pics'')
  unfolding pt_user_info_get_userpic named_userpic cached_or_loaded keep_picture
  get_userpic_again load session self pics name p fresh v small named absent loaded =
      let (pics', a, done, s, _) =
        put_new-IsStored H alloc (picture_entry name p) pics fresh v absent small in
      let first : pt_user_info_get_userpic load session (self, pics)
          ≡ some (some p, (self, pics')) =
        ap (named_userpic load session (self, pics)) named
        ∙ ap (cached_or_loaded load session self name) (get_missing H name pics absent)
        ∙ ap (λ l. keep_picture session name l (self, pics)) loaded
        ∙ ap (λ r. r >>= λ c. some (some p, (self, c))) done in
      (
        pics',
        first,
        s.valid,
        λ load' session'.
            let second : pt_user_info_get_userpic load' session' (self, pics')
                ≡ some (some (pics'.items a).ref, (self, hit a pics')) =
              ap (named_userpic load' session' (self, pics')) named
              ∙ ap (cached_or_loaded load' session' self name) (get_found H name pics' a s.found) in
            let object : (pics'.items a).ref ≡ p = ap (λ (i : Item Bytes). i.ref) s.item in
            (
              hit a pics',
              second ∙ ap (λ q. some (some q, (self, hit a pics'))) object,
              hit-IsValid H a pics' s.valid,
            ),
      )
