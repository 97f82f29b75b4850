-- ===== src/Format/Tests.antt =====
-- A date of the service, an object with two members and a row, and a database that numbers its
-- statements.
use piiptyyt.Prelude.{
  ℕ, ◌+◌, ◌*◌, ◌<◌, ◌≡◌, refl, Bool, true, false, Option, none, some, List, [], ◌∷◌, arith, Bytes,
  codes, bytes_eq, All, ◌==◌, if◌then◌else◌, ◌>>=◌,
}
use piiptyyt.Prelude.Int.{ℤ, pos}
use piiptyyt.Format.Dates.{parse_datetime}
use piiptyyt.Format.Printed.{two_digits, four_digits, printed_time, parse_datetime-printed}
use piiptyyt.Format.Fields.{int_value, string_value, Field, Memory, is_apart, as_int, as_string}
use piiptyyt.Format.Json.{
  JsonObject, format_from_json, first_refused, accepted, IsRead, from_json-IsRead, is_known,
}
use piiptyyt.Format.Sqlite.{
  sql_int, sql_text, Bind, bind_from, format_to_sqlite, Row, sql_value, sql_of, sql_string,
}
use piiptyyt.Format.Store.{assignments, comma, update_sql, insert_row, store_to_sqlite}
use piiptyyt.Format.Unbound.{store_to_sqlite-unbound}

-- Pieces between spaces.
split_space : Bytes → List Bytes
split_space [] = [] ∷ []
split_space (c ∷ s) =
    let pieces = split_space s in
    if c == b' ' then [] ∷ pieces else elim pieces [ [] ↦ (c ∷ []) ∷ [] | p ∷ ps ↦ (c ∷ p) ∷ ps ]

utc : Bytes → Option ℕ
utc zone = if bytes_eq zone (codes "+0000") then some 0 else none

-- A number for a date after the year 0.
date_number : ℕ → ℤ → ℕ → ℤ → ℤ → ℤ → ℤ → Option ℕ
date_number tz (pos year) month (pos day) (pos hour) (pos min) (pos sec) =
    some (((((year * 12 + month) * 31 + day) * 24 + hour) * 60 + min) * 60 + sec)
date_number tz year month day hour min sec = none

abbrev a_date : Bytes
a_date = codes "Sun Mar 18 13:14:15 +0000 2012"

parse_datetime-printed_example : parse_datetime split_space utc date_number (some a_date) ≡ (
    if 18 == 0
    then none
    else utc (codes "+0000") >>= λ tz.
        date_number tz (pos 2012) (2 + 1) (pos 18) (pos 13) (pos 14) (pos 15))
unfolding two_digits four_digits printed_time split_space
parse_datetime-printed_example =
    parse_datetime-printed split_space utc date_number a_date (codes "Sun") (codes "Mar")
      (codes "+0000") [] 2 18 13 14 15 2012 refl refl (omega arith) (omega arith) (omega arith)
      (omega arith) (omega arith)

abbrev a_table : List Field
a_table =
    record { name = codes "name"; column = codes "name"; offset = 8; type = b's' }
    ∷ record { name = codes "id"; column = codes "id"; offset = 0; type = b'I' }
    ∷ []

abbrev a_memory : Memory
a_memory o = if o == 8 then string_value (some (codes "me")) else int_value 7

-- The name is null and the id is 5.
abbrev an_object : JsonObject
an_object = record {
  member = λ name. if bytes_eq name (codes "name") then some true else some false;
  int_member = λ name. 5;
  boolean_member = λ name. false;
  string_member = λ name. none;
}

from_json-IsRead_example :
    (after : Memory) × (format_from_json (λ s. none) a_memory an_object a_table
      ≡ some (after, first_refused an_object a_table))
    × All (IsRead (λ s. none) an_object a_memory after) (accepted an_object a_table)
    × ((o : ℕ) → is_apart o (accepted an_object a_table) ≡ true → after o ≡ a_memory o)
unfolding is_known
from_json-IsRead_example =
    from_json-IsRead (λ s. none) a_table a_memory an_object (refl, (refl, tt)) (refl, (refl, tt))

abbrev a_row : Row
a_row = record { column_int64 = λ i. 7; column_int = λ i. 7; column_text = λ i. some (codes "me") }

abbrev two_binds : List Bind
two_binds =
    record { index = 1; value = sql_text (codes "me") }
    ∷ record { index = 2; value = sql_int 7 }
    ∷ []

-- A database is the number of its rows; a statement that is not the INSERT changes nothing, if its
-- last parameter is not bound.
abbrev a_step : ℕ → Bytes → List Bind → ℕ × Bool
a_step rows sql binds =
    if bytes_eq sql (update_sql (codes "t") (codes "id") a_table)
    then (rows, true)
    else (rows + 1, true)

abbrev three_rows : ℕ
three_rows = 3

store_to_sqlite-unbound_example :
    (0 < three_rows
      → store_to_sqlite
          (λ db sql. true)
          a_step
          (λ db. db)
          (codes "t")
          (codes "id")
          7
          none
          a_memory
          a_table
          three_rows
        ≡ some (3, true))
    × (three_rows ≡ 0
        → store_to_sqlite
            (λ db sql. true)
            a_step
            (λ db. db)
            (codes "t")
            (codes "id")
            7
            none
            a_memory
            a_table
            three_rows
          ≡ insert_row
              (λ db sql. true)
              a_step
              (λ db. db)
              (codes "t")
              (codes "id")
              7
              none
              a_memory
              a_table
              three_rows)
unfolding bind_from format_to_sqlite sql_value sql_of sql_string as_int as_string update_sql
    assignments comma
store_to_sqlite-unbound_example =
    store_to_sqlite-unbound (λ db sql. true) a_step (λ db. db) (codes "t") (codes "id") 7 none
      a_memory a_table two_binds three_rows (λ binds low. refl) refl refl (refl, (refl, tt)) refl
      refl
