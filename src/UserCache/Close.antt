-- ===== src/UserCache/Close.antt =====
-- `user_cache_close` of usercache.c.
use mathlib.Core.Path.{subst}
use piiptyyt.Glib.HashTable.{HashTable}
use piiptyyt.PtCache.Dispose.{FlushData, is_unset, pt_cache_dispose}
use piiptyyt.PtCache.Disposed.{dispose-IsDisposed}
use piiptyyt.PtCache.Invariant.{is_node}
use piiptyyt.PtCache.Nodes.{mem, Nodup}
use piiptyyt.PtCache.State.{Cache}
use piiptyyt.UserCache.Again.{IsKept, All-typed}
use piiptyyt.UserCache.Atomic.{Flushed, user_info_flush-Flushed}
use piiptyyt.UserCache.Database.{Sqlite, Transactions}
use piiptyyt.UserCache.Users.{Users, flush_pending}
use piiptyyt.UserInfo.Table.{UserInfo}
use piiptyyt.Prelude.{
  ℕ, ◌≡◌, refl, ap, ◌∙◌, Bool, true, false, Option, none, some, List, [], ◌++◌, map, if◌then◌else◌,
  ◌>>=◌, ◌>>◌, assert,
}

module _ (sqlite : Sqlite) (H : HashTable ℕ ℕ) (alloc : Cache ℕ H.Table → ℕ)
    (new_object : Users H.Table sqlite.Db → ℕ) (same_key : ℕ → Bool) where
  open sqlite use {Db}
  open H use {Table}

  -- The last reference is gone: the cache is disposed of, which flushes its users, and finalized.
  unfoldable pub drop_cache : Users Table Db → Option (Users Table Db)
  drop_cache w = do
    c ← pt_cache_dispose H same_key w.cache
    w' ← flush_pending sqlite H alloc new_object (record w { cache = c })
    assert (is_unset w'.cache.keys)
    some w'

  -- `last` tells whether the caller has the last reference; the result tells whether the database
  -- was closed.
  unfoldable pub user_cache_close : Bool → Users Table Db → Option (Users Table Db × Bool)
  user_cache_close true w = drop_cache w >>= λ w'. some (w', true)
  user_cache_close false w = some (w, false)

logged_first :
    (on : Bool) (log l : List ℕ) → on ≡ true → log ≡ [] → (if on then log ++ l else log) ≡ l
logged_first on log l flushes nothing =
    ap (λ b. if b then log ++ l else log) flushes ∙ ap (λ x. x ++ l) nothing

module _ (sqlite : Sqlite) (trans : Transactions sqlite) (H : HashTable ℕ ℕ)
    (alloc : Cache ℕ H.Table → ℕ) (new_object : Users H.Table sqlite.Db → ℕ)
    (same_key : ℕ → Bool) where
  open sqlite use {Db}
  open trans use {Outside}
  open H use {Table}

  -- The objects of the items.
  abbrev pub users_of : List ℕ → Users Table Db → List UserInfo
  users_of items w = map w.objects (map (λ a. (w.cache.items a).ref) items)

  -- Given the transactions of SQLite, none of them open: the last reference to a valid cache of
  -- users whose members have their types, with nothing left to flush from before and no item whose
  -- key has changed its place. Closing it fails no assertion, empties the cache and closes the
  -- database with no open transaction; each user of the cache, once, has a committed transaction in
  -- which `store_to_sqlite` reported success, or leaves the contents of the tables as they were.
  pub user_cache_close-Flushed :
      (w : Users Table Db)
      → IsKept sqlite trans H alloc new_object w
      → w.cache.flush_fn ≡ true
      → w.cache.flushed ≡ []
      → ((a : ℕ) → is_node a w.cache ≡ true → same_key a ≡ true)
      → (w' : Users Table Db) × (user_cache_close sqlite H alloc new_object same_key true w
          ≡ some (w', true))
        × (w'.cache.count ≡ 0)
        × Outside w'.db
        × ((items : List ℕ) × Nodup items
            × ((a : ℕ) → mem a items ≡ is_node a w.cache)
            × Flushed sqlite trans (users_of items w) w.db w'.db)
  unfolding user_cache_close drop_cache flush_pending
  user_cache_close-Flushed w kept flushes nothing unmoved =
      let no_data : FlushData = record {
        flush_data = none;
        flush_data_destroy_fn = false;
        destroyed = [];
      } in
      let (c, disposed, f, _, _) =
        dispose-IsDisposed H same_key w.cache no_data kept.valid unmoved in
      let (items, once, nodes, log) = f.flushed in
      let refs : c.flushed ≡ map (λ a. (w.cache.items a).ref) items =
        log ∙ logged_first w.cache.flush_fn w.cache.flushed _ flushes nothing in
      let (db, done, outside, history) =
        user_info_flush-Flushed sqlite trans (map w.objects c.flushed) w.db
          (All-typed sqlite trans H alloc new_object w.objects c.flushed kept.typed) kept.outside in
      let keys = f.keys in
      (
        record w { db = db; cache = record c { flushed = [] } },
        rw disposed (rw done (rw keys refl)),
        f.count,
        outside,
        (
          items,
          once,
          nodes,
          subst (λ l. Flushed sqlite trans (map w.objects l) w.db db) refs history,
        ),
      )
