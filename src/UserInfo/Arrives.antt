-- ===== src/UserInfo/Arrives.antt =====
-- A picture that is asked for arrives, through the request, its callback and the file. `load` gives
-- what a file is read as.
use piiptyyt.Prelude.{
  ℕ, ◌+◌, ◌^◌, ◌<◌, ◌≡◌, refl, ap, ◌∙◌, Bool, true, false, Option, none, some, ◌++◌, arith, Bytes,
  codes, ◌==◌,
}
use piiptyyt.Glib.HashTable.{HashTable}
use piiptyyt.PtCache.Invariant.{IsValid, is_node}
use piiptyyt.PtCache.State.{Cache, lookup_item}
use piiptyyt.UserInfo.Table.{UserInfo, get_id, get_string}
use piiptyyt.UserInfo.Userpic.{
  Loaded, picture, Session, cached_userpic_name, store_picture, img_fetch_callback,
  start_userpic_fetch, fetch_picture, named_userpic, pt_user_info_get_userpic, get_userpic_again,
}

module _ {Fs : Type 0} (path : Bytes → Bytes) (set_contents : Fs → Bytes → Bytes → Fs × Bool)
    (rename : Fs → Bytes → Bytes → Fs × Bool) (load : Fs → Bytes → Loaded) (H : HashTable Bytes ℕ)
    (alloc : Cache Bytes H.Table → ℕ) where
  open H use {Table}

  abbrev tmp : Bytes → Bytes
  tmp name = path name ++ codes ".tmp"

  -- The user while a request is on its way, and when its answer has come.
  abbrev asking : ℕ → UserInfo → UserInfo
  asking m self = record self { img_fetch_msg = some m }

  abbrev arrived : Bytes → UserInfo → UserInfo
  arrived name self = record self {
    cached_img_name = some name;
    dirty = true;
    img_fetch_msg = none;
  }

  -- What a callback with the picture does, if the file can be written and moved.
  callback_stores :
      (self : UserInfo) (fs fs₁ fs₂ : Fs) (m : ℕ) (name body : Bytes)
      → cached_userpic_name (asking m self) ≡ some name
      → set_contents fs (tmp name) body ≡ (fs₁, true)
      → rename fs₁ (tmp name) (path name) ≡ (fs₂, true)
      → img_fetch_callback path set_contents rename m true body (asking m self) fs
        ≡ some (arrived name self, fs₂)
  unfolding img_fetch_callback store_picture
  callback_stores self fs fs₁ fs₂ m name body named written moved =
      let same : (m == m) ≡ true = ground arith in rw same (rw named (rw (written, moved)))

  module _ (files : Bytes → Loaded) (self : UserInfo) (pics : Cache Bytes Table) (m : ℕ)
      (no_name : self.cached_img_name ≡ none) where
    asks :
        self.img_fetch_msg ≡ none
        → pt_user_info_get_userpic H alloc files (some (some m)) (self, pics)
          ≡ some (none, (asking m self, pics))
    unfolding pt_user_info_get_userpic named_userpic fetch_picture start_userpic_fetch
    asks no_msg =
        let started : start_userpic_fetch (some m) self ≡ asking m self =
          ap (λ (o : Option ℕ). elim o as (λ _. UserInfo) [ some n ↦ self | none ↦ asking m self ])
            no_msg in
        ap (named_userpic H alloc files (some (some m)) (self, pics)) no_name
        ∙ ap (λ (u : UserInfo). some (none, (u, pics))) started

    waits :
        (session : Session)
        → pt_user_info_get_userpic H alloc files session (asking m self, pics)
          ≡ some (none, (asking m self, pics))
    unfolding pt_user_info_get_userpic named_userpic fetch_picture start_userpic_fetch
    waits none = ap (named_userpic H alloc files none (asking m self, pics)) no_name
    waits (some n) = ap (named_userpic H alloc files (some n) (asking m self, pics)) no_name

  -- A user with no picture is asked for it in a session: nothing is given, and one request is
  -- made, which further calls do not repeat. If its answer comes, and the file that it is stored
  -- in can be written, moved and read as a picture, the next call gives that picture, and the
  -- cache stays valid.
  pub userpic_arrives :
      (self : UserInfo) (pics : Cache Bytes Table) (fs fs₁ fs₂ : Fs) (m p : ℕ) (name body : Bytes)
      → ((c : Cache Bytes Table) → is_node (alloc c) c ≡ false)
      → IsValid H pics
      → pics.count + 1 < 2 ^ 31
      → self.cached_img_name ≡ none
      → self.img_fetch_msg ≡ none
      → cached_userpic_name self ≡ some name
      → lookup_item H pics.keys name ≡ none
      → set_contents fs (tmp name) body ≡ (fs₁, true)
      → rename fs₁ (tmp name) (path name) ≡ (fs₂, true)
      → load fs₂ (path name) ≡ picture p
      → (waiting fetched : UserInfo) × (pt_user_info_get_userpic H alloc
            (λ n. load fs (path n))
            (some (some m))
            (self, pics)
          ≡ some (none, (waiting, pics)))
        × ((session : Session)
            → pt_user_info_get_userpic H alloc (λ n. load fs (path n)) session (waiting, pics)
              ≡ some (none, (waiting, pics)))
        × (img_fetch_callback path set_contents rename m true body waiting fs ≡ some (fetched, fs₂))
        × ((session : Session)
            → (pics' : Cache Bytes Table) × (pt_user_info_get_userpic H alloc
                  (λ n. load fs₂ (path n))
                  session
                  (fetched, pics)
                ≡ some (some p, (fetched, pics')))
              × IsValid H pics')
  unfolding cached_userpic_name get_string get_id
  userpic_arrives self pics fs fs₁ fs₂ m p name body fresh v small no_name no_msg named absent
        written moved readable =
      (
        asking m self,
        arrived name self,
        asks (λ n. load fs (path n)) self pics m no_name no_msg,
        waits (λ n. load fs (path n)) self pics m no_name,
        callback_stores self fs fs₁ fs₂ m name body named written moved,
        λ session.
            let (pics', got, v', _) =
              get_userpic_again H alloc (λ n. load fs₂ (path n)) session (arrived name self) pics
                name p fresh v small refl absent readable in
            (pics', got, v'),
      )
