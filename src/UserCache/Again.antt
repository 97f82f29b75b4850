-- ===== src/UserCache/Again.antt =====
-- A user that is not known is made, put into the cache, and found again.
use piiptyyt.Prelude.{
  ℕ, ◌+◌, ◌^◌, ◌<◌, ◌≡◌, refl, sym, ap, ◌∙◌, ◌≢◌, inl, inr, false, none, some, List, [], ◌∷◌, map,
  arith, All, ◌==◌, Bool-cases, ◌>>=◌,
}
use piiptyyt.Format.Sqlite.{Row}
use piiptyyt.Glib.HashTable.{HashTable}
use piiptyyt.PtCache.Insert.{put_new-IsStored}
use piiptyyt.PtCache.Invariant.{IsValid, is_node}
use piiptyyt.PtCache.Props.{get_found, get_missing, hit-IsValid, reported-IsValid}
use piiptyyt.PtCache.State.{Cache, Item, hit, lookup_item}
use piiptyyt.PtCache.Toggle.{toggle-retired, retired}
use piiptyyt.UserCache.Atomic.{user_info_flush-Flushed}
use piiptyyt.UserCache.Database.{Sqlite, Transactions, Stepped, a_row, no_row, failed}
use piiptyyt.UserCache.Fetch.{select_sql, id_bind, fetched, fetch_user_info, or_empty, new_or_fetch}
use piiptyyt.UserCache.Users.{
  Users, set_object, flush_pending, user_entry, put_user, found_or_new, get_user_info,
}
use piiptyyt.UserInfo.Table.{UserInfo, pt_user_info_new, get_id, set_id}
use piiptyyt.UserInfo.Types.{WellTyped, user_typing, new-WellTyped, set_id-WellTyped}

abbrev pub empty_user : ℕ → UserInfo
empty_user uid = record (set_id uid pt_user_info_new) { dirty = false }

pub empty_user-get_id : (uid : ℕ) → get_id (empty_user uid) ≡ uid
unfolding get_id set_id
empty_user-get_id uid = refl

empty_user-WellTyped : (uid : ℕ) → WellTyped user_typing (empty_user uid).fields
empty_user-WellTyped uid = set_id-WellTyped uid pt_user_info_new new-WellTyped

module _ (sqlite : Sqlite) where
  open sqlite use {Db, prepare, query}

  fetched_empty :
      (db : Db) (uid : ℕ) (s : Stepped)
      → ((row : Row) → s ≢ a_row row)
      → (fetched sqlite db uid s >>= λ r. some (or_empty sqlite uid r)) ≡ some (empty_user uid)
  unfolding fetched or_empty
  fetched_empty db uid (a_row row) no_rows = absurd (no_rows row refl)
  fetched_empty db uid no_row no_rows = refl
  fetched_empty db uid failed no_rows = refl

  new_or_fetch_empty :
      (db : Db) (uid : ℕ)
      → ((row : Row) → query db select_sql (id_bind uid) ≢ a_row row)
      → new_or_fetch sqlite db uid ≡ some (empty_user uid)
  unfolding new_or_fetch fetch_user_info or_empty
  new_or_fetch_empty db uid no_rows = elim (Bool-cases (prepare db select_sql)) [
    | inl ready ↦ rw ready (fetched_empty db uid (query db select_sql (id_bind uid)) no_rows)
    | inr bad ↦ rw bad
  ]

module _ (sqlite : Sqlite) (trans : Transactions sqlite) (H : HashTable ℕ ℕ)
    (alloc : Cache ℕ H.Table → ℕ) (new_object : Users H.Table sqlite.Db → ℕ) where
  open sqlite use {Db, query}
  open trans use {Outside}
  open H use {Table}

  pub record IsKept (w : Users Table Db) : Type 0 where
    pub valid : IsValid H w.cache
    pub typed : (p : ℕ) → WellTyped user_typing (w.objects p).fields
    pub outside : Outside w.db

  -- The members of the objects that are flushed.
  pub All-typed :
      (objects : ℕ → UserInfo) (ps : List ℕ)
      → ((p : ℕ) → WellTyped user_typing (objects p).fields)
      → All (λ (ui : UserInfo). WellTyped user_typing ui.fields) (map objects ps)
  All-typed objects [] typed = tt
  All-typed objects (p ∷ ps) typed = (typed p, All-typed objects ps typed)

  flush_pending-IsKept :
      (w : Users Table Db)
      → IsKept w
      → (db : Db) × (flush_pending sqlite H alloc new_object w
          ≡ some (record w { db = db; cache = record w.cache { flushed = [] } }))
        × IsKept (record w { db = db; cache = record w.cache { flushed = [] } })
  unfolding flush_pending
  flush_pending-IsKept w k =
      let (db, done, outside, history) =
        user_info_flush-Flushed sqlite trans (map w.objects w.cache.flushed) w.db
          (All-typed w.objects w.cache.flushed k.typed) k.outside in
      (
        db,
        rw done,
        record { valid = reported-IsValid H w.cache k.valid; typed = k.typed; outside = outside },
      )

  pub set_object-typed :
      (objects : ℕ → UserInfo) (p : ℕ) (u : UserInfo)
      → ((q : ℕ) → WellTyped user_typing (objects q).fields)
      → WellTyped user_typing u.fields
      → (q : ℕ) → WellTyped user_typing (set_object objects p u q).fields
  set_object-typed objects p u typed new q = elim (Bool-cases (q == p)) [
    | inl same ↦ rw same new
    | inr other ↦ rw other (typed q)
  ]

  -- A user whose id is no key of the cache is put into it.
  put_user_new :
      (w : Users Table Db) (p : ℕ)
      → ((c : Cache ℕ Table) → is_node (alloc c) c ≡ false)
      → IsKept w
      → w.cache.count + 1 < 2 ^ 31
      → lookup_item H w.cache.keys (get_id (w.objects p)) ≡ none
      → (w' : Users Table Db) × (a : ℕ) × (put_user sqlite H alloc new_object p w ≡ some w')
        × IsKept w'
        × (w'.objects ≡ w.objects)
        × (lookup_item H w'.cache.keys (get_id (w.objects p)) ≡ some a)
        × ((w'.cache.items a).ref ≡ p)
  unfolding put_user
  put_user_new w p fresh k small absent =
      let (c, a, done, s, _) =
        put_new-IsStored H alloc (user_entry p (w.objects p)) w.cache fresh k.valid absent small in
      let (toggled, valid) = toggle-retired H a c s.valid s.place (ground (arith, s.item)) in
      let (db, flushed, k') =
        flush_pending-IsKept (record w { cache = retired a c })
          (record { valid = valid; typed = k.typed; outside = k.outside }) in
      (
        record w { db = db; cache = record (retired a c) { flushed = [] } },
        a,
        rw done (rw s.found (rw toggled flushed)),
        k',
        refl,
        s.found,
        ap (λ (i : Item ℕ). i.ref) s.item,
      )

  -- An id that is no key, with no row in the database.
  pub unknown_user :
      (w : Users Table Db) (uid : ℕ)
      → ((c : Cache ℕ Table) → is_node (alloc c) c ≡ false)
      → IsKept w
      → w.cache.count + 1 < 2 ^ 31
      → lookup_item H w.cache.keys uid ≡ none
      → ((row : Row) → query w.db select_sql (id_bind uid) ≢ a_row row)
      → (w' : Users Table Db) × (a : ℕ) × (get_user_info sqlite H alloc new_object uid w
          ≡ some (new_object w, w'))
        × IsKept w'
        × (w'.objects (new_object w) ≡ empty_user uid)
        × (lookup_item H w'.cache.keys uid ≡ some a)
        × ((w'.cache.items a).ref ≡ new_object w)
  unfolding get_user_info found_or_new
  unknown_user w uid fresh k small absent no_rows =
      let p = new_object w in
      let u = empty_user uid in
      let objects = set_object w.objects p u in
      let made : objects p ≡ u = ground arith in
      let w₁ : Users Table Db = record w { objects = objects } in
      let id : get_id (objects p) ≡ uid = ap get_id made ∙ empty_user-get_id uid in
      let k₁ : IsKept w₁ = record {
        valid = k.valid;
        typed = set_object-typed w.objects p u k.typed (empty_user-WellTyped uid);
        outside = k.outside;
      } in
      let (w', a, done, k', same, found, object) =
        put_user_new w₁ p fresh k₁ small (ap (lookup_item H w.cache.keys) id ∙ absent) in
      (
        w',
        a,
        ap (found_or_new sqlite H alloc new_object uid w) (get_missing H uid w.cache absent)
            ∙ rw (new_or_fetch_empty sqlite w.db uid no_rows) (rw done),
        k',
        ap (λ o. o p) same ∙ made,
        ap (lookup_item H w'.cache.keys) (sym id) ∙ found,
        object,
      )

  -- A key of the cache.
  pub found_user :
      (w : Users Table Db) (uid a : ℕ)
      → IsKept w
      → lookup_item H w.cache.keys uid ≡ some a
      → (get_user_info sqlite H alloc new_object uid w
          ≡ some ((w.cache.items a).ref, record w { cache = hit a w.cache }))
        × IsKept (record w { cache = hit a w.cache })
  unfolding get_user_info found_or_new
  found_user w uid a k found = (
    ap (found_or_new sqlite H alloc new_object uid w) (get_found H uid w.cache a found),
    record { valid = hit-IsValid H a w.cache k.valid; typed = k.typed; outside = k.outside },
  )

  -- Given the transactions of SQLite, none of them open, fresh addresses for new items, users that
  -- all have the types of their members, and room in the cache: for a user that is not known, with
  -- no row in the database, the call fails no assertion, makes an empty user of the id and leaves
  -- the cache valid; the next call for the id gives the same object.
  pub get_user_info_again :
      (w : Users Table Db) (uid : ℕ)
      → ((c : Cache ℕ Table) → is_node (alloc c) c ≡ false)
      → IsKept w
      → w.cache.count + 1 < 2 ^ 31
      → lookup_item H w.cache.keys uid ≡ none
      → ((row : Row) → query w.db select_sql (id_bind uid) ≢ a_row row)
      → (p : ℕ) × (w' : Users Table Db) × (get_user_info sqlite H alloc new_object uid w
          ≡ some (p, w'))
        × IsKept w'
        × (w'.objects p ≡ empty_user uid)
        × ((w'' : Users Table Db) × (get_user_info sqlite H alloc new_object uid w' ≡ some (p, w''))
            × IsKept w''
            × (w''.objects p ≡ empty_user uid))
  get_user_info_again w uid fresh k small absent no_rows =
      let (w', a, done, k', user, found, object) =
        unknown_user w uid fresh k small absent no_rows in
      let (again, k'') = found_user w' uid a k' found in
      let w'' : Users Table Db = record w' { cache = hit a w'.cache } in
      (new_object w, w', done, k', user, (w'', again ∙ ap (λ q. some (q, w'')) object, k'', user))
