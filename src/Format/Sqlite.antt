-- ===== src/Format/Sqlite.antt =====
-- `format_to_sqlite` and `format_from_sqlite` of format.c.
use piiptyyt.Prelude.{
  ℕ, ◌+◌, Bool, not, Option, none, some, List, [], ◌∷◌, Bytes, ◌==◌, if◌then◌else◌, ◌>>=◌,
}
use piiptyyt.Format.Chars.{islower, tolower}
use piiptyyt.Format.Fields.{
  Value, int_value, bool_value, string_value, Field, Memory, store_at, as_int, as_bool, as_string,
}

pub data SqlValue : Type 0 where
  sql_int : ℕ → SqlValue
  sql_text : Bytes → SqlValue
  sql_null : SqlValue

-- A call of `sqlite3_bind_…`: the number of the parameter and its value.
pub record Bind : Type 0 where
  pub index : ℕ
  pub value : SqlValue

-- A NULL string; where it is not allowed, `g_error` ends the program.
unfoldable pub sql_string : Bool → Option Bytes → Option SqlValue
sql_string null_ok (some str) = some (sql_text str)
sql_string null_ok none = if null_ok then some sql_null else none

-- The `switch`, by the type in lower case; the types that it does not have are asserted not to
-- be there.
unfoldable pub sql_of : ℕ → Bool → Value → Option SqlValue
sql_of type null_ok x =
    if type == b'i'
    then (as_int x >>= λ n. some (sql_int n))
    else if type == b'b'
    then (as_bool x >>= λ b. some (sql_int (if b then 1 else 0)))
    else if type == b's'
    then (as_string x >>= sql_string null_ok)
    else none

unfoldable pub sql_value : Memory → Field → Option SqlValue
sql_value src f = sql_of (tolower f.type) (islower f.type) (src f.offset)

-- The calls for the fields from the one of number `i` on.
unfoldable pub bind_from : ℕ → Memory → List Field → Option (List Bind)
bind_from i src [] = some []
bind_from i src (f ∷ fields) = do
  v ← sql_value src f
  binds ← bind_from (i + 1) src fields
  some (record { index = i + 1; value = v } ∷ binds)

unfoldable pub format_to_sqlite : Memory → List Field → Option (List Bind)
format_to_sqlite src fields = bind_from 0 src fields

-- What the accessors of SQLite give of a row.
pub record Row : Type 0 where
  pub column_int64 : ℕ → ℕ
  pub column_int : ℕ → ℕ
  pub column_text : ℕ → Option Bytes

unfoldable pub row_value : Row → ℕ → ℕ → Option Value
row_value row ix type =
    if type == b'i'
    then some (int_value (row.column_int64 ix))
    else if type == b'b'
    then some (bool_value (not (row.column_int ix == 0)))
    else if type == b's'
    then some (string_value (row.column_text ix))
    else none

unfoldable pub read_from : ℕ → Memory → Row → List Field → Option Memory
read_from i dest row [] = some dest
read_from i dest row (f ∷ fields) = row_value row (i + 1) (tolower f.type) >>= λ v.
    read_from (i + 1) (store_at dest f.offset v) row fields

unfoldable pub format_from_sqlite : Memory → Row → List Field → Option Memory
format_from_sqlite dest row fields = read_from 0 dest row fields
