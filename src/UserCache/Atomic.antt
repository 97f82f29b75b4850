-- ===== src/UserCache/Atomic.antt =====
-- The flush of users refines a history of transactions, given the transactions of SQLite.
use piiptyyt.Prelude.{
  ℕ, ◌≡◌, refl, ap, ◌∙◌, inl, inr, ◌⊎◌, Bool, true, false, Option, none, some, List, [], ◌∷◌, ◌++◌,
  Bytes, codes, length, All, ltb, if◌then◌else◌, Bool-cases,
}
use mathlib.Core.Path.{subst}
use piiptyyt.Format.Fields.{Field, Memory}
use piiptyyt.Format.Sqlite.{Bind, format_to_sqlite}
use piiptyyt.Format.Store.{
  store_to_sqlite, after_update, insert_row, update_sql, insert_sql, is_separate, bind_idvalue,
}
use piiptyyt.UserCache.Database.{Sqlite, IsChange, Transactions}
use piiptyyt.UserCache.Flush.{
  do_sql, and_then, store_user, or_rollback, flush_user_info, user_info_flush,
}
use piiptyyt.UserInfo.Table.{UserInfo, user_info_fields, get_id}
use piiptyyt.UserInfo.Types.{WellTyped, user_typing, user_stored}

update_sql-IsChange :
    (tablename idcolumn : Bytes) (fields : List Field)
    → IsChange (update_sql tablename idcolumn fields)
unfolding update_sql
update_sql-IsChange tablename idcolumn fields = inl refl

insert_sql-IsChange :
    (tablename idcolumn : Bytes) (fields : List Field)
    → IsChange (insert_sql tablename idcolumn fields)
unfolding insert_sql
insert_sql-IsChange tablename idcolumn fields = inr refl

module _ (sqlite : Sqlite) (trans : Transactions sqlite) where
  open sqlite use {Db, prepare, step, exec, total_changes}
  open trans use {contents, Outside, Inside}

  -- The tables have what they had, and no transaction is open.
  abbrev Kept : Db → Db → Type 0
  Kept d e = Outside e × (contents e ≡ contents d)

  -- A transaction was begun, the code reported in it that the user is stored, and it was committed.
  pub record IsCommitted (ui : UserInfo) (before after : Db) : Type 0 where
    pub open_db : Db
    pub full_db : Db
    pub inside : Inside before open_db
    pub stores : store_user sqlite ui open_db ≡ some (full_db, true)
    pub ends : exec full_db (codes "COMMIT") ≡ (after, true)

  -- The abstract view of a flush: one after the other, each user has a committed transaction of its
  -- own, or leaves the tables as they were.
  pub data Flushed : List UserInfo → Db → Db → Type 0 where
    all_done : (d : Db) → Flushed [] d d
    kept :
        {objects : List UserInfo} {d e f : Db} (ui : UserInfo)
        → contents e ≡ contents d
        → Flushed objects e f
        → Flushed (ui ∷ objects) d f
    stored :
        {objects : List UserInfo} {d e f : Db} (ui : UserInfo)
        → IsCommitted ui d e
        → Flushed objects e f
        → Flushed (ui ∷ objects) d f

  -- The state behind a statement: inside the transaction, unless an error has rolled it back.
  abbrev After : Db → Db × Bool → Type 0
  After d (e, true) = Inside d e
  After d (e, false) = Inside d e ⊎ Kept d e

  step-After :
      (d e : Db) (sql : Bytes) (binds : List Bind) (r : Db × Bool)
      → IsChange sql
      → Inside d e
      → step e sql binds ≡ r
      → After d r
  step-After d e sql binds (f, true) change inside ran =
      trans.step_done d e f sql binds change inside ran
  step-After d e sql binds (f, false) change inside ran =
      trans.step_failed d e f sql binds change inside ran

  -- A store inside a transaction runs to an end.
  module _ (tablename idcolumn : Bytes) (idvalue : ℕ) (idvalue_str : Option Bytes) (src : Memory)
      (fields : List Field) (binds : List Bind) where
    insert_inside :
        (d e : Db)
        → format_to_sqlite src fields ≡ some binds
        → Inside d e
        → (r : Db × Bool) × (insert_row prepare step total_changes tablename idcolumn idvalue
              idvalue_str src fields e
            ≡ some r)
          × After d r
    unfolding insert_row
    insert_inside d e bound inside =
        elim (Bool-cases (prepare e (insert_sql tablename idcolumn fields))) [
          | inl ready ↦
              let all =
                if is_separate idcolumn fields
                then binds ++ bind_idvalue (length fields) idvalue idvalue_str ∷ []
                else binds in
              let sql = insert_sql tablename idcolumn fields in
              let r = step e sql all in
              (
                r,
                rw (ready, bound),
                step-After d e sql all r (insert_sql-IsChange tablename idcolumn fields) inside
                    refl,
              )
          | inr bad ↦ ((e, false), rw bad, inl inside)
        ]

    store_inside :
        (d e : Db)
        → format_to_sqlite src fields ≡ some binds
        → Inside d e
        → (r : Db × Bool) × (store_to_sqlite prepare step total_changes tablename idcolumn idvalue
              idvalue_str src fields e
            ≡ some r)
          × After d r
    unfolding store_to_sqlite after_update
    store_inside d e bound inside =
        elim (Bool-cases (prepare e (update_sql tablename idcolumn fields))) [
          | inl ready ↦
              let all = binds ++ bind_idvalue (length fields) idvalue idvalue_str ∷ [] in
              let sql = update_sql tablename idcolumn fields in
              let r = step e sql all in
              elim (Bool-cases r.1) [
                | inl done ↦
                    let inside' =
                      trans.step_done d e r.0 sql all
                        (update_sql-IsChange tablename idcolumn fields) inside
                        (ap (λ x. (r.0, x)) done) in
                    elim (Bool-cases (ltb (total_changes r.0) 1)) [
                      | inl none_seen ↦
                          let (q, inserted, after) = insert_inside d r.0 bound inside' in
                          (q, rw (ready, bound) (rw (done, none_seen) inserted), after)
                      | inr seen ↦ ((r.0, true), rw (ready, bound) (rw (done, seen)), inside')
                    ]
                | inr bad ↦ (
                  (r.0, false),
                  rw (ready, bound) (rw bad),
                  trans.step_failed d e r.0 sql all (update_sql-IsChange tablename idcolumn fields)
                      inside (ap (λ x. (r.0, x)) bad),
                )
              ]
          | inr bad ↦ ((e, false), rw bad, inl inside)
        ]

  -- What a call ends with: a committed transaction, or the tables as they were.
  abbrev IsWhole : UserInfo → Db → Db × Bool → Type 0
  IsWhole ui d (e, ok) = Outside e × (if ok then IsCommitted ui d e else contents e ≡ contents d)

  undone :
      (ui : UserInfo) (d e : Db)
      → Inside d e ⊎ Kept d e
      → IsWhole ui d (or_rollback sqlite (e, false))
  unfolding or_rollback do_sql
  undone ui d e (inl inside) = trans.rolled_back d e inside
  undone ui d e (inr (outside, same)) =
      let (outside', back) = trans.no_transaction e outside in (outside', back ∙ same)

  -- The routine by the results of its two stages.
  flush_stages :
      (ui : UserInfo) (d : Db) (r c : Db × Bool)
      → and_then sqlite (store_user sqlite ui) (exec d (codes "BEGIN")) ≡ some r
      → and_then sqlite (λ e. some (do_sql sqlite e (codes "COMMIT"))) r ≡ some c
      → flush_user_info sqlite ui d ≡ some (or_rollback sqlite c)
  unfolding flush_user_info do_sql
  flush_stages ui d r c first second = rw (first, second)

  -- The end of a transaction that reported success.
  commit-IsWhole :
      (ui : UserInfo) (d b f : Db) (c : Db × Bool)
      → Inside d b
      → store_user sqlite ui b ≡ some (f, true)
      → Inside d f
      → exec f (codes "COMMIT") ≡ c
      → IsWhole ui d (or_rollback sqlite c)
  unfolding or_rollback
  commit-IsWhole ui d b f (e, true) inside stores inside' ends = (
    trans.committed d f e inside' ends,
    record { open_db = b; full_db = f; inside = inside; stores = stores; ends = ends },
  )
  commit-IsWhole ui d b f (e, false) inside stores inside' fails =
      undone ui d e (trans.not_committed d f e inside' fails)

  -- A call whose transaction was begun.
  begun-IsWhole :
      (ui : UserInfo) (d b : Db) (r : Db × Bool)
      → Inside d b
      → exec d (codes "BEGIN") ≡ (b, true)
      → store_user sqlite ui b ≡ some r
      → After d r
      → (r' : Db × Bool) × (flush_user_info sqlite ui d ≡ some r') × IsWhole ui d r'
  unfolding and_then do_sql
  begun-IsWhole ui d b (f, true) inside begin stores after =
      let c = exec f (codes "COMMIT") in
      (
        or_rollback sqlite c,
        flush_stages ui d (f, true) c (ap (and_then sqlite (store_user sqlite ui)) begin ∙ stores)
            refl,
        commit-IsWhole ui d b f c inside stores after refl,
      )
  begun-IsWhole ui d b (f, false) inside begin stores after = (
    or_rollback sqlite (f, false),
    flush_stages ui d (f, false) (f, false)
        (ap (and_then sqlite (store_user sqlite ui)) begin ∙ stores) refl,
    undone ui d f after,
  )

  flush_user_info-IsWhole :
      (ui : UserInfo) (d : Db)
      → WellTyped user_typing ui.fields
      → Outside d
      → (r : Db × Bool) × (flush_user_info sqlite ui d ≡ some r) × IsWhole ui d r
  unfolding and_then do_sql store_user
  flush_user_info-IsWhole ui d typed outside =
      let (binds, bound) = user_stored ui.fields typed in
      let b = exec d (codes "BEGIN") in
      elim (Bool-cases b.1) [
        | inl ready ↦
            let begin : exec d (codes "BEGIN") ≡ (b.0, true) = ap (λ x. (b.0, x)) ready in
            let inside = trans.begun d b.0 outside begin in
            let (r, stores, after) =
              store_inside (codes "cached_user_info") (codes "id") (get_id ui) none ui.fields
                user_info_fields binds d b.0 bound inside in
            begun-IsWhole ui d b.0 r inside begin stores after
        | inr bad ↦
            let fails : exec d (codes "BEGIN") ≡ (b.0, false) = ap (λ x. (b.0, x)) bad in
            (
              or_rollback sqlite (b.0, false),
              flush_stages ui d (b.0, false) (b.0, false)
                  (ap (and_then sqlite (store_user sqlite ui)) fails) refl,
              undone ui d b.0 (inr (trans.not_begun d b.0 outside fails)),
            )
      ]

  -- Given the transactions of SQLite, none of them open, users whose members have their types are
  -- flushed to the end, with no failed assertion: one after the other, each of them either has a
  -- transaction of its own that was begun, in which `store_to_sqlite` reported success, and that was
  -- committed, or leaves the contents of the tables as they were. No transaction stays open.
  pub user_info_flush-Flushed :
      (objects : List UserInfo) (d : Db)
      → All (λ (ui : UserInfo). WellTyped user_typing ui.fields) objects
      → Outside d
      → (e : Db) × (user_info_flush sqlite objects d ≡ some e) × Outside e × Flushed objects d e
  unfolding user_info_flush
  user_info_flush-Flushed [] d typed outside = (d, refl, outside, all_done d)
  user_info_flush-Flushed (ui ∷ objects) d (here, typed) outside =
      let (r, done, (outside', whole)) = flush_user_info-IsWhole ui d here outside in
      let (e, rest, outside'', history) = user_info_flush-Flushed objects r.0 typed outside' in
      (
        e,
        rw done rest,
        outside'',
        elim (Bool-cases r.1) [
          | inl ok ↦
              stored ui
                (subst (λ x. if x then IsCommitted ui d r.0 else contents r.0 ≡ contents d) ok
                  whole)
                history
          | inr bad ↦
              kept ui
                (subst (λ x. if x then IsCommitted ui d r.0 else contents r.0 ≡ contents d) bad
                  whole)
                history
        ],
      )
