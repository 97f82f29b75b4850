-- ===== src/UserInfo/Types.antt =====
-- The members of a user keep their types, so that every user can be stored.
use piiptyyt.Prelude.{
  ℕ, ◌+◌, ◌≡◌, refl, sym, ap, ◌∙◌, inl, inr, Bool, true, false, ◌||◌, Option, none, some, List, [],
  ◌∷◌, arith, Bytes, All, ◌==◌, if◌then◌else◌, Bool-cases,
}
use mathlib.Core.Path.{subst}
use piiptyyt.Format.Chars.{tolower, islower}
use piiptyyt.Format.Fields.{
  Value, int_value, bool_value, string_value, time_value, Field, Memory, store_at, as_int, as_bool,
  as_string,
}
use piiptyyt.Format.Kept.{Keeps, from_json_kept}
use piiptyyt.Format.Json.{JsonObject, field_value, is_known}
use piiptyyt.Format.Sqlite.{
  SqlValue, sql_int, sql_text, sql_null, Bind, sql_of, sql_string, sql_value, bind_from,
  format_to_sqlite,
}
use piiptyyt.UserInfo.Offset
use piiptyyt.UserInfo.Table.{
  user_info_fields, UserInfo, new_fields, pt_user_info_new, set_id, pt_user_info_from_json,
}

-- The value is of the type that the table gives.
abbrev pub fits : ℕ → Value → Bool
fits type (int_value n) = tolower type == b'i'
fits type (bool_value b) = tolower type == b'b'
fits type (string_value s) = tolower type == b's'
fits type (time_value t) = tolower type == b't'

field_value-fits :
    (date : Option Bytes → Option ℕ) (obj : JsonObject) (is_null : Bool) (f : Field) (v : Value)
    → field_value date obj is_null f ≡ some v
    → fits f.type v ≡ true
unfolding field_value
field_value-fits date obj is_null f (int_value n) made = ground arith
field_value-fits date obj is_null f (bool_value b) made = ground arith
field_value-fits date obj is_null f (string_value s) made = ground arith
field_value-fits date obj is_null f (time_value t) made = ground arith

-- `typing` gives the types of the members by their offsets.
abbrev pub WellTyped : (ℕ → Option ℕ) → Memory → Type 0
WellTyped typing m = (o type : ℕ) → typing o ≡ some type → fits type (m o) ≡ true

abbrev pub Agrees : (ℕ → Option ℕ) → List Field → Type 0
Agrees typing fields = All (λ f. typing f.offset ≡ some f.type) fields

store_at-WellTyped :
    (typing : ℕ → Option ℕ) (m : Memory) (f : Field) (v : Value)
    → typing f.offset ≡ some f.type
    → fits f.type v ≡ true
    → WellTyped typing m
    → WellTyped typing (store_at m f.offset v)
store_at-WellTyped typing m f v known ok all o type h = elim (Bool-cases (o == f.offset)) [
  | inl here ↦
      let same : f.offset ≡ o = ground arith in
      let e : f.type ≡ type = cc (sym known ∙ ap typing same ∙ h) in
      rw here (sym (ap (λ t. fits t v) e) ∙ ok)
  | inr there ↦ rw there (all o type h)
]

read-WellTyped :
    (date : Option Bytes → Option ℕ) (obj : JsonObject) (typing : ℕ → Option ℕ)
    (fields : List Field)
    → Agrees typing fields
    → All (Keeps date obj (WellTyped typing)) fields
read-WellTyped date obj typing [] agrees = tt
read-WellTyped date obj typing (f ∷ fields) (a, agrees) = (
  λ m is_null v fine made.
      store_at-WellTyped typing m f v a (field_value-fits date obj is_null f v made),
  read-WellTyped date obj typing fields agrees,
)

-- A type of which every value can be stored.
abbrev pub can_store : ℕ → Bool
can_store type = tolower type == b'i' || (tolower type == b'b' || type == b's')

sql_of-fits :
    (type : ℕ) (x : Value)
    → can_store type ≡ true
    → fits type x ≡ true
    → (v : SqlValue) × (sql_of (tolower type) (islower type) x ≡ some v)
unfolding sql_of sql_string as_int as_bool as_string
sql_of-fits type (int_value n) can ok = (sql_int n, ground arith)
sql_of-fits type (bool_value b) can ok = (sql_int (if b then 1 else 0), ground arith)
sql_of-fits type (string_value none) can ok = (sql_null, ground arith)
sql_of-fits type (string_value (some s)) can ok = (sql_text s, ground arith)
sql_of-fits type (time_value t) can ok = ground arith

-- How the values of C are bound: a Boolean as 1 or 0, and a NULL string as NULL.
pub data IsBound : Value → SqlValue → Type 0 where
  an_int : (n : ℕ) → IsBound (int_value n) (sql_int n)
  a_true : IsBound (bool_value true) (sql_int 1)
  a_false : IsBound (bool_value false) (sql_int 0)
  a_text : (s : Bytes) → IsBound (string_value (some s)) (sql_text s)
  no_text : IsBound (string_value none) sql_null

-- The members of the fields are bound in their order, with numbers that go on behind `i`.
pub data AllBound (m : Memory) : ℕ → List Field → List Bind → Type 0 where
  no_more : (i : ℕ) → AllBound m i [] []
  one_more :
      {i : ℕ} {fields : List Field} {binds : List Bind} (f : Field) (v : SqlValue)
      → IsBound (m f.offset) v
      → AllBound m (i + 1) fields binds
      → AllBound m i (f ∷ fields) (record { index = i + 1; value = v } ∷ binds)

sql_of-IsBound :
    (type : ℕ) (x : Value) (v : SqlValue)
    → can_store type ≡ true
    → fits type x ≡ true
    → sql_of (tolower type) (islower type) x ≡ some v
    → IsBound x v
unfolding sql_of sql_string as_int as_bool as_string
sql_of-IsBound type (int_value n) v can ok made =
    let e : sql_int n ≡ v = ground arith in subst (IsBound (int_value n)) e (an_int n)
sql_of-IsBound type (bool_value true) v can ok made =
    let e : sql_int 1 ≡ v = ground arith in subst (IsBound (bool_value true)) e a_true
sql_of-IsBound type (bool_value false) v can ok made =
    let e : sql_int 0 ≡ v = ground arith in subst (IsBound (bool_value false)) e a_false
sql_of-IsBound type (string_value none) v can ok made =
    let e : sql_null ≡ v = ground arith in subst (IsBound (string_value none)) e no_text
sql_of-IsBound type (string_value (some s)) v can ok made =
    let e : sql_text s ≡ v = ground arith in subst (IsBound (string_value (some s))) e (a_text s)
sql_of-IsBound type (time_value t) v can ok made = ground arith

bind_from-fits :
    (typing : ℕ → Option ℕ) (i : ℕ) (fields : List Field) (m : Memory)
    → Agrees typing fields
    → All (λ f. can_store f.type ≡ true) fields
    → WellTyped typing m
    → (binds : List Bind) × (bind_from i m fields ≡ some binds) × AllBound m i fields binds
unfolding bind_from sql_value
bind_from-fits typing i [] m agrees can all = ([], refl, no_more i)
bind_from-fits typing i (f ∷ fields) m (a, agrees) (c, can) all =
    let (v, made) = sql_of-fits f.type (m f.offset) c (all f.offset f.type a) in
    let (binds, done, bound) = bind_from-fits typing (i + 1) fields m agrees can all in
    (
      record { index = i + 1; value = v } ∷ binds,
      rw (made, done),
      one_more f v (sql_of-IsBound f.type (m f.offset) v c (all f.offset f.type a) made) bound,
    )

-- The types of the members in `struct user_info`.
abbrev pub user_typing : ℕ → Option ℕ
user_typing o =
    if o == Offset.id
    then some b'I'
    else if o == Offset.longname || (o == Offset.screenname || o == Offset.profile_image_url)
    then some b's'
    else if o == Offset.protected || (o == Offset.verified || o == Offset.following)
    then some b'b'
    else none

table-Agrees : Agrees user_typing user_info_fields
table-Agrees = (refl, (refl, (refl, (refl, (refl, (refl, (refl, tt)))))))

pub table_known : All (λ f. is_known f ≡ true) user_info_fields
unfolding is_known
table_known = (refl, (refl, (refl, (refl, (refl, (refl, (refl, tt)))))))

table_storable : All (λ f. can_store f.type ≡ true) user_info_fields
table_storable = (refl, (refl, (refl, (refl, (refl, (refl, (refl, tt)))))))

-- A user can be stored: the program does not end over a NULL string.
pub user_stored :
    (m : Memory)
    → WellTyped user_typing m
    → (binds : List Bind) × (format_to_sqlite m user_info_fields ≡ some binds)
unfolding format_to_sqlite
user_stored m typed =
    let (binds, done, _) =
      bind_from-fits user_typing 0 user_info_fields m table-Agrees table_storable typed in
    (binds, done)

pub new-WellTyped : WellTyped user_typing pt_user_info_new.fields
unfolding pt_user_info_new new_fields
new-WellTyped o type h = ground arith

pub set_id-WellTyped :
    (n : ℕ) (u : UserInfo)
    → WellTyped user_typing u.fields
    → WellTyped user_typing (set_id n u).fields
unfolding set_id
set_id-WellTyped n u typed o type h = ground (arith, typed o type)

pub user_read-WellTyped :
    (date : Option Bytes → Option ℕ) (obj : JsonObject)
    → All (Keeps date obj (WellTyped user_typing)) user_info_fields
user_read-WellTyped date obj = read-WellTyped date obj user_typing user_info_fields table-Agrees

-- The members of a new user have the types of the structure, and reading any JSON object keeps
-- that, whether or not it is refused; no assertion on a type fails. Such a user can be stored:
-- the program does not end over a NULL string, and the parameters from 1 on are bound to the
-- members in the order of the table, each to its value.
pub user_info-WellTyped :
    (date : Option Bytes → Option ℕ) (u : UserInfo) (obj : JsonObject)
    → WellTyped user_typing u.fields
    → WellTyped user_typing pt_user_info_new.fields
      × ((u' : UserInfo) × (error : Option Bytes) × (binds : List Bind) × (pt_user_info_from_json
              date u obj
            ≡ some (u', error))
          × WellTyped user_typing u'.fields
          × (format_to_sqlite u'.fields user_info_fields ≡ some binds)
          × AllBound u'.fields 0 user_info_fields binds)
unfolding pt_user_info_from_json format_to_sqlite
user_info-WellTyped date u obj typed =
    let (after, error, done, typed') =
      from_json_kept date obj (WellTyped user_typing) user_info_fields u.fields table_known
        (user_read-WellTyped date obj) typed in
    let (binds, stored, bound) =
      bind_from-fits user_typing 0 user_info_fields after table-Agrees table_storable typed' in
    (new-WellTyped, (record u { fields = after }, error, binds, rw done, typed', stored, bound))
