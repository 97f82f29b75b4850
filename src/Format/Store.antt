-- ===== src/Format/Store.antt =====
-- `store_to_sqlite` of format.c. SQLite is a parameter: `prepare` tells whether a statement
-- compiles, `step` runs one with its bound parameters and tells whether it is done, and
-- `total_changes` is `sqlite3_total_changes`.
use piiptyyt.Prelude.{
  ℕ, Bool, true, false, Option, none, some, List, [], ◌∷◌, ◌++◌, Bytes, codes, bytes_eq, length,
  ltb, if◌then◌else◌, ◌>>=◌,
}
use piiptyyt.Format.Fields.{Field, Memory}
use piiptyyt.Format.Sqlite.{sql_int, sql_text, Bind, format_to_sqlite}

-- `bind_idvalue`: a string comes first.
unfoldable pub bind_idvalue : ℕ → ℕ → Option Bytes → Bind
bind_idvalue ix idvalue none = record { index = ix; value = sql_int idvalue }
bind_idvalue ix idvalue (some s) = record { index = ix; value = sql_text s }

-- `%s`, and a comma before all but the first.
unfoldable pub comma : Bool → Bytes
comma true = codes ", "
comma false = []

unfoldable pub assignments : Bool → List Field → Bytes
assignments later [] = []
assignments later (f ∷ fields) = comma later ++ f.column ++ codes " = ?" ++ assignments true fields

unfoldable pub update_sql : Bytes → Bytes → List Field → Bytes
update_sql tablename idcolumn fields =
    codes "UPDATE "
    ++ tablename
    ++ codes " SET "
    ++ assignments false fields
    ++ codes " WHERE "
    ++ idcolumn
    ++ codes " = ?"

-- No field is stored in the column of the id.
unfoldable pub is_separate : Bytes → List Field → Bool
is_separate idcolumn [] = true
is_separate idcolumn (f ∷ fields) =
    if bytes_eq f.column idcolumn then false else is_separate idcolumn fields

unfoldable pub column_names : Bool → List Field → Bytes
column_names later [] = []
column_names later (f ∷ fields) = comma later ++ f.column ++ column_names true fields

unfoldable pub question_marks : Bool → List Field → Bytes
question_marks later [] = []
question_marks later (f ∷ fields) = comma later ++ b'?' ∷ question_marks true fields

abbrev pub any : List Field → Bool
any [] = false
any (f ∷ fields) = true

unfoldable pub insert_sql : Bytes → Bytes → List Field → Bytes
insert_sql tablename idcolumn fields =
    codes "INSERT INTO "
    ++ tablename
    ++ codes " ("
    ++ column_names false fields
    ++ (if is_separate idcolumn fields then comma (any fields) ++ idcolumn else [])
    ++ codes ") VALUES ("
    ++ question_marks false fields
    ++ (if is_separate idcolumn fields then comma (any fields) ++ codes "?" else [])
    ++ codes ")"

module _ {Db : Type 0} (prepare : Db → Bytes → Bool) (step : Db → Bytes → List Bind → Db × Bool)
    (total_changes : Db → ℕ) where
  -- The second statement.
  unfoldable pub insert_row :
      Bytes → Bytes → ℕ → Option Bytes → Memory → List Field → Db → Option (Db × Bool)
  insert_row tablename idcolumn idvalue idvalue_str src fields db =
      let sql = insert_sql tablename idcolumn fields in
      if prepare db sql
      then (format_to_sqlite src fields >>= λ binds. some (
          step db sql (
            if is_separate idcolumn fields
            then binds ++ bind_idvalue (length fields) idvalue idvalue_str ∷ []
            else binds)))
      else some (db, false)

  unfoldable pub after_update : (Db → Option (Db × Bool)) → Db × Bool → Option (Db × Bool)
  after_update insert (db, done) =
      if done
      then (if ltb (total_changes db) 1 then insert db else some (db, true))
      else some (db, false)

  -- The database, and whether all went well; `none` is the end of the program.
  unfoldable pub store_to_sqlite :
      Bytes → Bytes → ℕ → Option Bytes → Memory → List Field → Db → Option (Db × Bool)
  store_to_sqlite tablename idcolumn idvalue idvalue_str src fields db =
      let sql = update_sql tablename idcolumn fields in
      if prepare db sql
      then (format_to_sqlite src fields >>= λ binds.
          after_update (insert_row tablename idcolumn idvalue idvalue_str src fields)
            (step db sql (binds ++ bind_idvalue (length fields) idvalue idvalue_str ∷ [])))
      else some (db, false)
