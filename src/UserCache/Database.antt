-- ===== src/UserCache/Database.antt =====
-- What usercache.c asks of SQLite. `prepare` tells whether a statement can be prepared, `step` runs
-- one that gives no rows, `query` is the first step of a SELECT, and `exec` is `sqlite3_exec`.
use piiptyyt.Prelude.{take, ℕ, ◌≡◌, ◌⊎◌, Bool, true, false, List, Bytes, codes}
use piiptyyt.Format.Sqlite.{Bind, Row}

pub data Stepped : Type 0 where
  a_row : Row → Stepped
  no_row failed : Stepped

pub record Sqlite : Type 1 where
  pub Db : Type 0
  pub prepare : Db → Bytes → Bool
  pub step : Db → Bytes → List Bind → Db × Bool
  pub query : Db → Bytes → List Bind → Stepped
  pub exec : Db → Bytes → Db × Bool
  pub total_changes : Db → ℕ
  pub errmsg : Db → Bytes

-- A statement that changes rows and neither begins nor ends a transaction.
abbrev pub IsChange : Bytes → Type 0
IsChange sql = (take 7 sql ≡ codes "UPDATE ") ⊎ (take 7 sql ≡ codes "INSERT ")

module _ (sqlite : Sqlite) where
  open sqlite use {Db, step, exec}

  -- Transactions, as the manual of SQLite has them. `Inside d e`: a transaction is open that was
  -- begun at `d` and has led to `e`. `contents` is what the tables have: ROLLBACK gives it back, but
  -- not the number of changes of the connection. Some errors roll the transaction back at once. No
  -- other connection writes to the database.
  pub record Transactions : Type 1 where
    pub Content : Type 0
    pub contents : Db → Content
    pub Outside : Db → Type 0
    pub Inside : Db → Db → Type 0
    pub begun : (d e : Db) → Outside d → exec d (codes "BEGIN") ≡ (e, true) → Inside d e
    pub not_begun :
        (d e : Db)
        → Outside d
        → exec d (codes "BEGIN") ≡ (e, false)
        → Outside e × (contents e ≡ contents d)
    pub step_done :
        (d e f : Db) (sql : Bytes) (binds : List Bind)
        → IsChange sql
        → Inside d e
        → step e sql binds ≡ (f, true)
        → Inside d f
    pub step_failed :
        (d e f : Db) (sql : Bytes) (binds : List Bind)
        → IsChange sql
        → Inside d e
        → step e sql binds ≡ (f, false)
        → Inside d f ⊎ (Outside f × (contents f ≡ contents d))
    pub committed : (d e f : Db) → Inside d e → exec e (codes "COMMIT") ≡ (f, true) → Outside f
    pub not_committed :
        (d e f : Db)
        → Inside d e
        → exec e (codes "COMMIT") ≡ (f, false)
        → Inside d f ⊎ (Outside f × (contents f ≡ contents d))
    pub rolled_back :
        (d e : Db)
        → Inside d e
        → Outside (exec e (codes "ROLLBACK")).0
          × (contents (exec e (codes "ROLLBACK")).0 ≡ contents d)
    pub no_transaction :
        (d : Db)
        → Outside d
        → Outside (exec d (codes "ROLLBACK")).0
          × (contents (exec d (codes "ROLLBACK")).0 ≡ contents d)
