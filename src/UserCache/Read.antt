-- ===== src/UserCache/Read.antt =====
-- A user that comes as a JSON object.
use piiptyyt.Prelude.{
  ℕ, ◌+◌, ◌^◌, ◌<◌, ◌≡◌, refl, sym, ap, ◌∙◌, ◌≢◌, inl, inr, true, false, Option, none, some, arith,
  Bytes, codes, All, ◌==◌, Option-cases,
}
use mathlib.Core.Path.{subst}
use piiptyyt.Format.Fields.{
  Value, int_value, bool_value, string_value, time_value, Memory, DistinctOffsets,
}
use piiptyyt.Format.Json.{JsonObject, field_value, is_refused, first_refused, from_json-IsRead}
use piiptyyt.Format.Kept.{Keeps, from_json_kept, All-Keeps-both}
use piiptyyt.UserInfo.Offset
use piiptyyt.UserInfo.Table.{user_info_fields, pt_user_info_from_json}
use piiptyyt.UserInfo.Types.{table_known, user_read-WellTyped}
use piiptyyt.UserCache.Again.{IsKept, unknown_user, found_user, set_object-typed, empty_user-get_id}
use piiptyyt.UserCache.Users.{known_user, read_user, mark_read, get_user_info_from_json}
use piiptyyt.Format.Sqlite.{Row}
use piiptyyt.Glib.HashTable.{HashTable}
use piiptyyt.PtCache.Invariant.{is_node}
use piiptyyt.PtCache.Props.{get_found, get_missing}
use piiptyyt.PtCache.State.{Cache, hit, lookup_item, pt_cache_get}
use piiptyyt.UserCache.Database.{Sqlite, Transactions, a_row}
use piiptyyt.UserCache.Fetch.{select_sql, id_bind}
use piiptyyt.UserCache.Users.{Users, set_object}
use piiptyyt.UserInfo.Table.{UserInfo, get_id}
use piiptyyt.UserInfo.Types.{WellTyped, user_typing}

abbrev id_json : Bytes
id_json = codes "id"

-- The id is kept by what is read for it.
abbrev HasId : ℕ → Memory → Type 0
HasId uid m = m Offset.id ≡ int_value uid

table-Keeps :
    (date : Option Bytes → Option ℕ) (obj : JsonObject)
    → All (Keeps date obj (HasId (obj.int_member id_json))) user_info_fields
unfolding field_value is_refused
table-Keeps date obj = (
  λ m is_null v fine made h. h,
  (
    λ m is_null v fine made h. h,
    (
      λ m is_null v fine made h. h,
      (
        λ m is_null v fine made h. h,
        (
          λ m is_null v fine made h. h,
          (λ m is_null v fine made h. h, (λ m is_null v fine made h. ground arith, tt)),
        ),
      ),
    ),
  ),
)

table-DistinctOffsets : DistinctOffsets user_info_fields
table-DistinctOffsets = (refl, (refl, (refl, (refl, (refl, (refl, (refl, tt)))))))

HasId-value :
    (v : Value) (uid : ℕ)
    → uid ≢ 0
    → elim v as (λ _. ℕ) [ int_value n ↦ n | _ ↦ 0 ] ≡ uid
    → v ≡ int_value uid
HasId-value (int_value n) uid some_id h = ap int_value h
HasId-value (bool_value b) uid some_id h = absurd (some_id (sym h))
HasId-value (string_value b) uid some_id h = absurd (some_id (sym h))
HasId-value (time_value b) uid some_id h = absurd (some_id (sym h))

get_id-HasId : (u : UserInfo) (uid : ℕ) → uid ≢ 0 → get_id u ≡ uid → HasId uid u.fields
unfolding get_id
get_id-HasId u uid some_id e = HasId-value (u.fields Offset.id) uid some_id e

HasId-get_id : (u : UserInfo) (uid : ℕ) → HasId uid u.fields → get_id u ≡ uid
unfolding get_id
HasId-get_id u uid e = rw (e, get_id)

-- A user is read: the routine ends, keeps the id that is in the object, and tells of the first
-- null that it refuses.
user_read :
    (date : Option Bytes → Option ℕ) (obj : JsonObject) (u : UserInfo)
    → WellTyped user_typing u.fields
    → obj.int_member id_json ≢ 0
    → get_id u ≡ obj.int_member id_json
    → (u' : UserInfo) × (pt_user_info_from_json date u obj
        ≡ some (u', first_refused obj user_info_fields))
      × WellTyped user_typing u'.fields
      × (get_id u' ≡ obj.int_member id_json)
unfolding pt_user_info_from_json get_id
user_read date obj u typed some_id id =
    let (after, done, _, _) =
      from_json-IsRead date user_info_fields u.fields obj table_known table-DistinctOffsets in
    let (m, error, done', (typed', has)) =
      from_json_kept date obj (λ m. WellTyped user_typing m × HasId (obj.int_member id_json) m)
        user_info_fields u.fields table_known
        (All-Keeps-both date obj (WellTyped user_typing) (HasId (obj.int_member id_json))
          user_info_fields (user_read-WellTyped date obj) (table-Keeps date obj))
        (typed, get_id-HasId u (obj.int_member id_json) some_id id) in
    let same : m ≡ after = ground (arith, done, done') in
    (
      record u { fields = after },
      rw done,
      subst (WellTyped user_typing) same typed',
      HasId-get_id (record u { fields = after }) (obj.int_member id_json)
          (subst (HasId (obj.int_member id_json)) same has),
    )

mark_read-dirty : (before u : UserInfo) → (mark_read before u).dirty ≡ true
unfolding mark_read
mark_read-dirty before u = ground arith

module _ (sqlite : Sqlite) (trans : Transactions sqlite) (H : HashTable ℕ ℕ)
    (alloc : Cache ℕ H.Table → ℕ) (new_object : Users H.Table sqlite.Db → ℕ) where
  open sqlite use {Db, query}
  open H use {Table}

  -- The id is a key whose item has the object, and stands in the object.
  pub record IsKnown (uid p : ℕ) (w : Users Table Db) : Type 0 where
    pub item : ℕ
    pub kept : IsKept sqlite trans H alloc new_object w
    pub found : lookup_item H w.cache.keys uid ≡ some item
    pub object : (w.cache.items item).ref ≡ p
    pub id : get_id (w.objects p) ≡ uid

  abbrev pub KnowsId : Users Table Db → ℕ → Type 0
  KnowsId w uid =
      (a : ℕ)
      → lookup_item H w.cache.keys uid ≡ some a
      → get_id (w.objects (w.cache.items a).ref) ≡ uid

  known_user-IsKnown :
      (w : Users Table Db) (uid : ℕ)
      → ((c : Cache ℕ Table) → is_node (alloc c) c ≡ false)
      → IsKept sqlite trans H alloc new_object w
      → w.cache.count + 1 < 2 ^ 31
      → ((row : Row) → query w.db select_sql (id_bind uid) ≢ a_row row)
      → KnowsId w uid
      → (p : ℕ) × (w' : Users Table Db) × (known_user sqlite H alloc new_object uid w
            (pt_cache_get H uid w.cache)
          ≡ some (p, w'))
        × IsKnown uid p w'
  unfolding known_user hit
  known_user-IsKnown w uid fresh k small no_rows knows =
      elim (Option-cases (lookup_item H w.cache.keys uid)) [
        | inl absent ↦
            let (w', a, done, k', user, found, object) =
              unknown_user sqlite trans H alloc new_object w uid fresh k small absent no_rows in
            (
              new_object w,
              w',
              ap (known_user sqlite H alloc new_object uid w) (get_missing H uid w.cache absent)
                  ∙ done,
              record {
                item = a;
                kept = k';
                found = found;
                object = object;
                id = ap get_id user ∙ empty_user-get_id uid;
              },
            )
        | inr (a, found) ↦
            let (_, k') = found_user sqlite trans H alloc new_object w uid a k found in
            (
              (w.cache.items a).ref,
              record w { cache = hit a w.cache },
              ap (known_user sqlite H alloc new_object uid w) (get_found H uid w.cache a found),
              record {
                item = a;
                kept = k';
                found = found;
                object = ground arith;
                id = knows a found;
              },
            )
      ]

  -- The object is replaced by one with the same id.
  set_object-IsKnown :
      (uid p : ℕ) (w : Users Table Db) (u : UserInfo)
      → IsKnown uid p w
      → WellTyped user_typing u.fields
      → get_id u ≡ uid
      → IsKnown uid p (record w { objects = set_object w.objects p u })
  set_object-IsKnown uid p w u known typed id =
      let here : set_object w.objects p u p ≡ u = ground arith in
      record {
        item = known.item;
        kept = record {
          valid = known.kept.valid;
          typed =
              set_object-typed sqlite trans H alloc new_object w.objects p u known.kept.typed typed;
          outside = known.kept.outside;
        };
        found = known.found;
        object = known.object;
        id = ap get_id here ∙ id;
      }

  read_user-IsKnown :
      (uid p : ℕ) (w : Users Table Db) (u : UserInfo) (error : Option Bytes)
      → IsKnown uid p w
      → WellTyped user_typing u.fields
      → get_id u ≡ uid
      → (w' : Users Table Db) × (read_user sqlite H alloc new_object p w (u, error)
          ≡ (elim error as (λ _. Option ℕ) [ none ↦ some p | some name ↦ none ], w'))
        × IsKnown uid p w'
        × (error ≡ none → (w'.objects p).dirty ≡ true)
  unfolding read_user mark_read get_id
  read_user-IsKnown uid p w u none known typed id = (
    record w { objects = set_object w.objects p (mark_read (w.objects p) u) },
    refl,
    set_object-IsKnown uid p w (mark_read (w.objects p) u) known typed id,
    λ _.
        let here : set_object w.objects p (mark_read (w.objects p) u) p
            ≡ mark_read (w.objects p) u =
          ground arith in
        ap (λ (v : UserInfo). v.dirty) here ∙ mark_read-dirty (w.objects p) u,
  )
  read_user-IsKnown uid p w u (some name) known typed id = (
    record w { objects = set_object w.objects p u },
    refl,
    set_object-IsKnown uid p w u known typed id,
    λ bad. ground arith,
  )

  -- Given the transactions of SQLite, none of them open, fresh addresses for new items, users that
  -- all have the types of their members, and room in the cache: for an object with an id that is
  -- not 0, of a user that is known by that id or has no row in the database, the routine ends: it
  -- gives the user, marked as changed, or NULL if the object has a null that is refused. Either way the id is a key of the cache, which is valid, it leads
  -- to that user, and it still stands in the user, where the cache keeps its key.
  pub from_json-IsKnown :
      (date : Option Bytes → Option ℕ) (obj : JsonObject) (w : Users Table Db) (uid : ℕ)
      → ((c : Cache ℕ Table) → is_node (alloc c) c ≡ false)
      → IsKept sqlite trans H alloc new_object w
      → w.cache.count + 1 < 2 ^ 31
      → ((row : Row) → query w.db select_sql (id_bind uid) ≢ a_row row)
      → KnowsId w uid
      → obj.int_member (codes "id") ≡ uid
      → uid ≢ 0
      → (p : ℕ) × (w' : Users Table Db) × (get_user_info_from_json sqlite H alloc new_object date
            obj w
          ≡ some (
            elim (first_refused obj user_info_fields) as (λ _. Option ℕ) [
              | none ↦ some p
              | some name ↦ none
            ],
            w',
          ))
        × IsKnown uid p w'
        × (first_refused obj user_info_fields ≡ none → (w'.objects p).dirty ≡ true)
  unfolding get_user_info_from_json
  from_json-IsKnown date obj w uid fresh k small no_rows knows json some_id =
      let (p, w₁, got, known) = known_user-IsKnown w uid fresh k small no_rows knows in
      let (u, read, typed, id) =
        user_read date obj (w₁.objects p) (known.kept.typed p) (λ z. some_id (sym json ∙ z))
          (known.id ∙ sym json) in
      let (w', done, known', dirty) =
        read_user-IsKnown uid p w₁ u (first_refused obj user_info_fields) known typed (id ∙ json) in
      let other : (uid == 0) ≡ false = ground arith in
      (p, w', rw json (rw other (rw got (rw read (ap some done)))), known', dirty)
