-- ===== src/UserCache/Flush.antt =====
-- Storing users that leave the cache in usercache.c.
use piiptyyt.Prelude.{Bool, true, false, Option, none, some, List, [], ◌∷◌, Bytes, codes, ◌>>=◌}
use piiptyyt.Format.Store.{store_to_sqlite}
use piiptyyt.UserCache.Database.{Sqlite}
use piiptyyt.UserInfo.Table.{UserInfo, user_info_fields, get_id}

module _ (sqlite : Sqlite) where
  open sqlite use {Db, prepare, step, exec, total_changes}

  unfoldable pub do_sql : Db → Bytes → Db × Bool
  do_sql db sql = exec db sql

  -- One operand of the condition, if those before it went well.
  unfoldable pub and_then : (Db → Option (Db × Bool)) → Db × Bool → Option (Db × Bool)
  and_then f (db, true) = f db
  and_then f (db, false) = some (db, false)

  abbrev pub store_user : UserInfo → Db → Option (Db × Bool)
  store_user ui db =
      store_to_sqlite prepare step total_changes (codes "cached_user_info") (codes "id") (get_id ui)
        none ui.fields user_info_fields db

  unfoldable pub or_rollback : Db × Bool → Db × Bool
  or_rollback (db, true) = (db, true)
  or_rollback (db, false) = ((do_sql db (codes "ROLLBACK")).0, false)

  unfoldable pub flush_user_info : UserInfo → Db → Option (Db × Bool)
  flush_user_info ui db = do
    stored ← and_then (store_user ui) (do_sql db (codes "BEGIN"))
    committed ← and_then (λ d. some (do_sql d (codes "COMMIT"))) stored
    some (or_rollback committed)

  -- A failure only warns.
  unfoldable pub user_info_flush : List UserInfo → Db → Option Db
  user_info_flush [] db = some db
  user_info_flush (ui ∷ objects) db = flush_user_info ui db >>= λ r. user_info_flush objects r.0
