-- ===== src/UserCache/Users.antt =====
-- The users that are known, in usercache.c. An object is a number, and `objects` is the heap;
-- `new_object` stands for `g_object_new`.
use piiptyyt.Prelude.{
  ℕ, Bool, true, false, ◌||◌, Option, none, some, [], map, Bytes, codes, ◌==◌, if◌then◌else◌, ◌>>=◌,
}
use piiptyyt.Format.Json.{JsonObject}
use piiptyyt.Glib.HashTable.{HashTable}
use piiptyyt.PtCache.Put.{Insertion, pt_cache_put}
use piiptyyt.PtCache.State.{Cache, lookup_item, pt_cache_get, toggle_last_ref_cb}
use piiptyyt.UserCache.Database.{Sqlite}
use piiptyyt.UserCache.Fetch.{new_or_fetch}
use piiptyyt.UserCache.Flush.{user_info_flush}
use piiptyyt.UserInfo.Offset
use piiptyyt.UserInfo.Table.{UserInfo, get_id, get_string, pt_user_info_from_json}

-- The cache, its `struct cache_db`, and the objects.
pub record Users (Table Db : Type 0) : Type 0 where
  pub cache : Cache ℕ Table
  pub db : Db
  pub objects : ℕ → UserInfo

abbrev pub set_object : (ℕ → UserInfo) → ℕ → UserInfo → ℕ → UserInfo
set_object objects p u q = if q == p then u else objects q

-- `changed` is always true.
unfoldable pub mark_read : UserInfo → UserInfo → UserInfo
mark_read before u =
    let bare : Bool = elim (get_string Offset.screenname before) [ none ↦ true | some s ↦ false ] in
    record u { dirty = u.dirty || (bare || true) }

-- The key is the id inside the object, and is not copied.
abbrev pub user_entry : ℕ → UserInfo → Insertion ℕ
user_entry p u = record { key = get_id u; key_size = 0; object = p; floating = false }

module _ (sqlite : Sqlite) (H : HashTable ℕ ℕ) (alloc : Cache ℕ H.Table → ℕ)
    (new_object : Users H.Table sqlite.Db → ℕ) where
  open sqlite use {Db}
  open H use {Table}

  -- The calls of the flush function, which nothing in the cache waits for.
  unfoldable pub flush_pending : Users Table Db → Option (Users Table Db)
  flush_pending w = user_info_flush sqlite (map w.objects w.cache.flushed) w.db >>= λ db.
      some (record w { db = db; cache = record w.cache { flushed = [] } })

  -- The put, and the end of the caller's reference, which leaves the cache with the last one.
  unfoldable pub put_user : ℕ → Users Table Db → Option (Users Table Db)
  put_user p w = do
    let u = w.objects p
    c ← pt_cache_put H alloc (user_entry p u) w.cache
    a ← lookup_item H c.keys (get_id u)
    c' ← toggle_last_ref_cb H a true c
    flush_pending (record w { cache = c' })

  -- What the routine does with the result of `pt_cache_get`.
  unfoldable pub found_or_new :
      ℕ → Users Table Db → Option ℕ × Cache ℕ Table → Option (ℕ × Users Table Db)
  found_or_new uid w (some p, c) = some (p, record w { cache = c })
  found_or_new uid w (none, c) = do
    u ← new_or_fetch sqlite w.db uid
    let p = new_object w
    w' ← put_user p (record w { cache = c; objects = set_object w.objects p u })
    some (p, w')

  unfoldable pub get_user_info : ℕ → Users Table Db → Option (ℕ × Users Table Db)
  get_user_info uid w = found_or_new uid w (pt_cache_get H uid w.cache)

  -- The user is known, or `get_user_info` is asked.
  unfoldable pub known_user :
      ℕ → Users Table Db → Option ℕ × Cache ℕ Table → Option (ℕ × Users Table Db)
  known_user uid w (some p, c) = some (p, record w { cache = c })
  known_user uid w (none, c) = get_user_info uid (record w { cache = c })

  unfoldable pub read_user :
      ℕ → Users Table Db → UserInfo × Option Bytes → Option ℕ × Users Table Db
  read_user p w (u, some name) = (none, record w { objects = set_object w.objects p u })
  read_user p w (u, none) =
      (some p, record w { objects = set_object w.objects p (mark_read (w.objects p) u) })

  -- The user, or NULL.
  unfoldable pub get_user_info_from_json :
      (Option Bytes → Option ℕ) → JsonObject → Users Table Db → Option (Option ℕ × Users Table Db)
  get_user_info_from_json date obj w =
      let uid = obj.int_member (codes "id") in
      if uid == 0
      then some (none, w)
      else (known_user uid w (pt_cache_get H uid w.cache) >>= λ r.
          pt_user_info_from_json date (r.1.objects r.0) obj >>= λ s. some (read_user r.0 r.1 s))
