-- ===== src/UserCache/Open.antt =====
-- Opening the cache of users in usercache.c. `mkdir` tells whether the directory is there, and
-- `opened` is what `sqlite3_open_v2` gives.
use piiptyyt.Prelude.{
  ℕ, ◌+◌, ◌≡◌, refl, ap, ◌∙◌, inl, inr, Bool, true, false, ◌||◌, Option, none, some, List, [], ◌∷◌,
  arith, Bytes, codes, All, ◌==◌, if◌then◌else◌, Bool-cases, Option-cases, ◌>>=◌, some-injective,
  sym,
}
use mathlib.Core.Path.{subst}
use piiptyyt.Format.Chars.{tolower}
use piiptyyt.Format.Fields.{Field, Memory, store_at}
use piiptyyt.Format.Sqlite.{Row, row_value, read_from, format_from_sqlite}
use piiptyyt.Glib.HashTable.{HashTable}
use piiptyyt.PtCache.Invariant.{IsValid}
use piiptyyt.PtCache.Props.{
  pt_cache_init, pt_cache_set_property, high_wm, low_wm, flush_fn, store_property, repair_marks,
  init-IsValid, set_property-IsValid,
}
use piiptyyt.PtCache.State.{Cache, Item}
use piiptyyt.UserCache.Database.{Sqlite, Stepped, a_row, no_row, failed}
use piiptyyt.UserCache.Fetch.{
  Fetched, found, not_found, fetch_error, fetched, select_sql, id_bind, user_from_row,
  fetch_user_info,
}
use piiptyyt.UserInfo.Table.{UserInfo, user_info_fields, set_id, pt_user_info_new}

abbrev pub starts_with : Bytes → Bytes → Bool
starts_with [] s = true
starts_with (c ∷ t) [] = false
starts_with (c ∷ t) (d ∷ s) = if c == d then starts_with t s else false

-- `strstr` finds something.
abbrev pub strstr : Bytes → Bytes → Bool
strstr [] t = starts_with t []
strstr (c ∷ s) t = if starts_with t (c ∷ s) then true else strstr s t

unfoldable pub schema_missing : Fetched → Bool
schema_missing (found u) = false
schema_missing not_found = false
schema_missing (fetch_error msg) = strstr msg (codes "no such table")

module _ {Table : Type 0} where
  -- The settings of the new object, in the order in which they are given.
  unfoldable pub user_cache : (ℕ → Item ℕ) → Cache ℕ Table
  user_cache items = pt_cache_set_property (flush_fn true) (
      pt_cache_set_property (low_wm 600)
        (pt_cache_set_property (high_wm 1000) (pt_cache_init items)))

module _ (sqlite : Sqlite) (Table : Type 0) where
  open sqlite use {Db}

  unfoldable pub checked_cache : (ℕ → Item ℕ) → Db → Fetched → Option (Cache ℕ Table × Db)
  checked_cache items db r = if schema_missing r then none else some (user_cache items, db)

  -- NULL, or the cache with its database. A missing schema cannot be loaded.
  unfoldable pub user_cache_open :
      (ℕ → Item ℕ) → Bool → Option Db → Option (Option (Cache ℕ Table × Db))
  user_cache_open items false opened = some none
  user_cache_open items true none = some none
  user_cache_open items true (some db) =
      fetch_user_info sqlite db 1 >>= λ r. some (checked_cache items db r)

then_none : {A : Type 0} (b : Bool) (x : A) → (if b then none else some x) ≡ none → b ≡ true
then_none true x e = refl
then_none false x e = ground arith

-- The types of the columns.
abbrev has_value : Field → Bool
has_value f = tolower f.type == b'i' || (tolower f.type == b'b' || tolower f.type == b's')

read_from_ends :
    (i : ℕ) (m : Memory) (row : Row) (fields : List Field)
    → All (λ f. has_value f ≡ true) fields
    → (after : Memory) × (read_from i m row fields ≡ some after)
unfolding read_from row_value
read_from_ends i m row [] typed = (m, refl)
read_from_ends i m row (f ∷ fields) (t, typed) =
    elim (Option-cases (row_value row (i + 1) (tolower f.type))) [
      | inl bad ↦ ground arith
      | inr (v, e) ↦
          let (after, done) = read_from_ends (i + 1) (store_at m f.offset v) row fields typed in
          (after, rw e done)
    ]

user_from_row_ends :
    (uid : ℕ) (row : Row) → (u : UserInfo) × (user_from_row uid row ≡ some (found u))
unfolding user_from_row format_from_sqlite
user_from_row_ends uid row =
    let (m, done) =
      read_from_ends 0 (set_id uid pt_user_info_new).fields row user_info_fields
        (refl, (refl, (refl, (refl, (refl, (refl, (refl, tt))))))) in
    (record (set_id uid pt_user_info_new) { fields = m }, rw done)

module _ (sqlite : Sqlite) where
  open sqlite use {Db, prepare, query}

  fetched_ends :
      (db : Db) (uid : ℕ) (s : Stepped) → (r : Fetched) × (fetched sqlite db uid s ≡ some r)
  unfolding fetched
  fetched_ends db uid (a_row row) = let (u, done) = user_from_row_ends uid row in (found u, done)
  fetched_ends db uid no_row = (not_found, refl)
  fetched_ends db uid failed = (fetch_error (sqlite.errmsg db), refl)

  pub fetch_user_info_ends :
      (db : Db) (uid : ℕ) → (r : Fetched) × (fetch_user_info sqlite db uid ≡ some r)
  unfolding fetch_user_info
  fetch_user_info_ends db uid = elim (Bool-cases (prepare db select_sql)) [
    | inl ready ↦
        let (r, done) = fetched_ends db uid (query db select_sql (id_bind uid)) in
        (r, rw ready done)
    | inr bad ↦ (fetch_error (sqlite.errmsg db), rw bad)
  ]

module _ (sqlite : Sqlite) (H : HashTable ℕ ℕ) where
  open sqlite use {Db}
  open H use {Table}

  user_cache-IsValid : (items : ℕ → Item ℕ) → IsValid H (user_cache items)
  unfolding user_cache
  user_cache-IsValid items = set_property-IsValid H (flush_fn true) _ (
      set_property-IsValid H (low_wm 600) _
        (set_property-IsValid H (high_wm 1000) _ (init-IsValid H items)))

  -- What is asked of the new cache.
  pub record IsOpened (c : Cache ℕ Table) : Type 0 where
    pub valid : IsValid H c
    pub low : c.wm_low ≡ 600
    pub high : c.wm_high ≡ 1000
    pub flushes : c.flush_fn ≡ true
    pub empty : c.count ≡ 0

  user_cache-IsOpened : (items : ℕ → Item ℕ) → IsOpened (user_cache items)
  unfolding user_cache pt_cache_set_property store_property repair_marks pt_cache_init
  user_cache-IsOpened items = record {
    valid = user_cache-IsValid items;
    low = refl;
    high = refl;
    flushes = refl;
    empty = refl;
  }

  checked_cache-IsOpened :
      (items : ℕ → Item ℕ) (db : Db) (r : Fetched) (c : Cache ℕ Table) (db' : Db)
      → checked_cache sqlite Table items db r ≡ some (c, db')
      → IsOpened c × (some db ≡ some db')
  unfolding checked_cache
  checked_cache-IsOpened items db r c db' e = elim (Bool-cases (schema_missing r)) [
    | inl missing ↦ ground arith
    | inr there ↦
        let same : user_cache items ≡ c = ground arith in
        (subst IsOpened same (user_cache-IsOpened items), ground arith)
  ]

  checked_cache-missing :
      (items : ℕ → Item ℕ) (db : Db) (r : Fetched)
      → checked_cache sqlite Table items db r ≡ none
      → (msg : Bytes) × (r ≡ fetch_error msg) × (strstr msg (codes "no such table") ≡ true)
  unfolding checked_cache schema_missing
  checked_cache-missing items db (found u) e = ground arith
  checked_cache-missing items db not_found e = ground arith
  checked_cache-missing items db (fetch_error msg) e =
      (msg, refl, then_none (strstr msg (codes "no such table")) (user_cache items, db) e)

  checked_cache_schema :
      (items : ℕ → Item ℕ) (db : Db) (msg : Bytes)
      → strstr msg (codes "no such table") ≡ true
      → checked_cache sqlite Table items db (fetch_error msg) ≡ none
  unfolding checked_cache schema_missing
  checked_cache_schema items db msg missing = rw missing refl

  -- What keeps the cache from being opened: there is no directory, the database cannot be opened,
  -- or the first lookup has an error about a missing table.
  pub data IsHindered : Bool → Option Db → Type 0 where
    no_directory : (opened : Option Db) → IsHindered false opened
    no_database : (mkdir : Bool) → IsHindered mkdir none
    no_schema :
        (mkdir : Bool) (db : Db) (msg : Bytes)
        → fetch_user_info sqlite db 1 ≡ some (fetch_error msg)
        → strstr msg (codes "no such table") ≡ true
        → IsHindered mkdir (some db)

  hindered_none :
      (items : ℕ → Item ℕ) (mkdir : Bool) (opened : Option Db)
      → IsHindered mkdir opened
      → user_cache_open sqlite Table items mkdir opened ≡ some none
  unfolding user_cache_open
  hindered_none items _ _ (no_directory opened) = refl
  hindered_none items _ _ (no_database true) = refl
  hindered_none items _ _ (no_database false) = refl
  hindered_none items _ _ (no_schema true db msg bad missing) =
      rw bad (ap some (checked_cache_schema items db msg missing))
  hindered_none items _ _ (no_schema false db msg bad missing) = refl

  user_cache_open_ends :
      (items : ℕ → Item ℕ) (mkdir : Bool) (opened : Option Db)
      → (r : Option (Cache ℕ Table × Db)) × (user_cache_open sqlite Table items mkdir opened
          ≡ some r)
        × ((c : Cache ℕ Table) (db : Db) → r ≡ some (c, db) → IsOpened c × (opened ≡ some db))
        × (r ≡ none → IsHindered mkdir opened)
  unfolding user_cache_open
  user_cache_open_ends items false opened =
      (none, refl, λ c db bad. ground arith, λ _. no_directory opened)
  user_cache_open_ends items true none =
      (none, refl, λ c db bad. ground arith, λ _. no_database true)
  user_cache_open_ends items true (some db) =
      let (r, done) = fetch_user_info_ends sqlite db 1 in
      (
        checked_cache sqlite Table items db r,
        rw done,
        checked_cache-IsOpened items db r,
        λ e.
            let (msg, bad, there) = checked_cache-missing items db r e in
            no_schema true db msg (done ∙ ap some bad) there,
      )

  -- Opening the cache ends. It gives NULL just where there is no directory, where the database
  -- cannot be opened, or where the first lookup has an error about a missing table, and otherwise a
  -- valid cache with the two watermarks and the flush function that are asked for.
  pub user_cache_open-IsValid :
      (items : ℕ → Item ℕ) (mkdir : Bool) (opened : Option Db)
      → (r : Option (Cache ℕ Table × Db)) × (user_cache_open sqlite Table items mkdir opened
          ≡ some r)
        × ((c : Cache ℕ Table) (db : Db) → r ≡ some (c, db) → IsOpened c × (opened ≡ some db))
        × (r ≡ none → IsHindered mkdir opened)
        × (IsHindered mkdir opened → r ≡ none)
  user_cache_open-IsValid items mkdir opened =
      let (r, done, valid, why) = user_cache_open_ends items mkdir opened in
      (r, done, valid, why, λ bad. some-injective (sym done ∙ hindered_none items mkdir opened bad))
