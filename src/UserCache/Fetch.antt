-- ===== src/UserCache/Fetch.antt =====
-- Reading a user from the database in usercache.c.
use piiptyyt.Prelude.{
  ℕ, false, Option, some, List, [], ◌∷◌, ◌++◌, Bytes, codes, if◌then◌else◌, ◌>>=◌,
}
use piiptyyt.Format.Sqlite.{Bind, sql_int, Row, format_from_sqlite}
use piiptyyt.UserCache.Database.{Stepped, a_row, no_row, failed, Sqlite}
use piiptyyt.UserInfo.Table.{UserInfo, user_info_fields, pt_user_info_new, set_id}

abbrev pub select_sql : Bytes
select_sql =
    codes "SELECT longname,screenname,profile_image_url,protected,verified,following"
    ++ codes " FROM cached_user_info WHERE id = ?"

-- The call that binds the id; SQLite numbers parameters from 1, and refuses it.
abbrev pub id_bind : ℕ → List Bind
id_bind uid = record { index = 0; value = sql_int uid } ∷ []

-- The user, NULL, or NULL with an error.
pub data Fetched : Type 0 where
  found : UserInfo → Fetched
  not_found : Fetched
  fetch_error : Bytes → Fetched

unfoldable pub user_from_row : ℕ → Row → Option Fetched
user_from_row userid row =
    let u = set_id userid pt_user_info_new in
    format_from_sqlite u.fields row user_info_fields >>= λ m. some (found (record u { fields = m }))

module _ (sqlite : Sqlite) where
  open sqlite use {Db, prepare, query, errmsg}

  unfoldable pub fetched : Db → ℕ → Stepped → Option Fetched
  fetched db userid (a_row row) = user_from_row userid row
  fetched db userid no_row = some not_found
  fetched db userid failed = some (fetch_error (errmsg db))

  unfoldable pub fetch_user_info : Db → ℕ → Option Fetched
  fetch_user_info db userid =
      if prepare db select_sql
      then fetched db userid (query db select_sql (id_bind userid))
      else some (fetch_error (errmsg db))

  unfoldable pub or_empty : ℕ → Fetched → UserInfo
  or_empty key (found u) = u
  or_empty key not_found = record (set_id key pt_user_info_new) { dirty = false }
  or_empty key (fetch_error msg) = record (set_id key pt_user_info_new) { dirty = false }

  unfoldable pub new_or_fetch : Db → ℕ → Option UserInfo
  new_or_fetch db key = fetch_user_info db key >>= λ r. some (or_empty key r)
