-- ===== src/Format/Unbound.antt =====
-- What `store_to_sqlite` does with its UPDATE.
use piiptyyt.Prelude.{
  ℕ, ◌+◌, ◌≤◌, ◌<◌, ◌≡◌, refl, sym, Bool, true, false, Option, none, some, List, [], ◌∷◌, ◌++◌,
  arith, Bytes, codes, length, All, All-append, ltb, ◌==◌, if◌then◌else◌, >>=-eq-some,
}
use mathlib.Core.Path.{subst}
use piiptyyt.Format.Fields.{Field, Memory}
use piiptyyt.Format.Sqlite.{Bind, sql_value, bind_from, format_to_sqlite}
use piiptyyt.Format.Store.{
  comma, assignments, update_sql, bind_idvalue, insert_row, after_update, store_to_sqlite,
}

-- How many parameters a statement has, if the names have none.
abbrev pub parameters : Bytes → ℕ
parameters [] = 0
parameters (c ∷ s) = if c == b'?' then parameters s + 1 else parameters s

parameters-append : (s t : Bytes) → parameters (s ++ t) ≡ parameters s + parameters t
parameters-append [] t = omega arith
parameters-append (c ∷ s) t = ground (arith, parameters-append s t)

parameters-comma : (later : Bool) → parameters (comma later) ≡ 0
unfolding comma
parameters-comma true = refl
parameters-comma false = refl

parameters-assignments :
    (later : Bool) (fields : List Field)
    → All (λ f. parameters f.column ≡ 0) fields
    → parameters (assignments later fields) ≡ length fields
unfolding assignments
parameters-assignments later [] plain = refl
parameters-assignments later (f ∷ fields) (none_here, plain) = omega (
  arith,
  parameters-append (comma later ++ f.column ++ codes " = ?") (assignments true fields),
  parameters-append (comma later ++ f.column) (codes " = ?"),
  parameters-append (comma later) f.column,
  parameters-comma later,
  parameters-assignments true fields plain,
)

parameters-update_sql :
    (tablename idcolumn : Bytes) (fields : List Field)
    → parameters tablename ≡ 0
    → parameters idcolumn ≡ 0
    → All (λ f. parameters f.column ≡ 0) fields
    → parameters (update_sql tablename idcolumn fields) ≡ length fields + 1
unfolding update_sql
parameters-update_sql tablename idcolumn fields t d plain =
    let a = codes "UPDATE " ++ tablename in
    let b = a ++ codes " SET " in
    let c = b ++ assignments false fields in
    let e = c ++ codes " WHERE " in
    omega (
      arith,
      parameters-append (e ++ idcolumn) (codes " = ?"),
      parameters-append e idcolumn,
      parameters-append c (codes " WHERE "),
      parameters-append b (assignments false fields),
      parameters-append a (codes " SET "),
      parameters-append (codes "UPDATE ") tablename,
      parameters-assignments false fields plain,
    )

-- The calls number the parameters on from `i + 1`.
bind_from-index :
    (i : ℕ) (src : Memory) (fields : List Field) (binds : List Bind)
    → bind_from i src fields ≡ some binds
    → All (λ (b : Bind). b.index ≤ i + length fields) binds
unfolding bind_from
bind_from-index i src [] [] bound = tt
bind_from-index i src [] (b ∷ binds) bound = ground arith
bind_from-index i src (f ∷ fields) binds bound =
    let (v, stored, rest) = >>=-eq-some (sql_value src f) _ bound in
    let (more, bound', all) = >>=-eq-some (bind_from (i + 1) src fields) _ rest in
    let listed : record { index = i + 1; value = v } ∷ more ≡ binds = ground arith in
    let moved : i + 1 + length fields ≡ i + length (f ∷ fields) = omega arith in
    let later = bind_from-index (i + 1) src fields more bound' in
    subst (λ l. All (λ (b : Bind). b.index ≤ i + length (f ∷ fields)) l) listed
      (omega arith, subst (λ k. All (λ (b : Bind). b.index ≤ k) more) moved later)

bind_idvalue-index :
    (ix idvalue : ℕ) (idvalue_str : Option Bytes) → (bind_idvalue ix idvalue idvalue_str).index ≡ ix
unfolding bind_idvalue
bind_idvalue-index ix idvalue none = refl
bind_idvalue-index ix idvalue (some s) = refl

under :
    (n : ℕ) (binds : List Bind)
    → All (λ (b : Bind). b.index ≤ 0 + n) binds
    → All (λ (b : Bind). b.index < n + 1) binds
under n [] all = tt
under n (b ∷ binds) (here, all) = (omega arith, under n binds all)

-- Nothing is bound to the last parameter of the UPDATE, the one that its WHERE compares the id
-- with. SQLite takes it for NULL, which no id equals, so such a statement changes nothing. For
-- names without question marks and a structure that can be stored: where the connection has
-- already seen a change, the routine thus reports success and has stored nothing; where it has
-- seen none, the routine does what the INSERT does.
pub store_to_sqlite-unbound :
    {Db : Type 0} (prepare : Db → Bytes → Bool) (step : Db → Bytes → List Bind → Db × Bool)
    (total_changes : Db → ℕ) (tablename idcolumn : Bytes) (idvalue : ℕ) (idvalue_str : Option Bytes)
    (src : Memory) (fields : List Field) (binds : List Bind) (db : Db)
    → ((binds' : List Bind)
        → All (λ (b : Bind). b.index < parameters (update_sql tablename idcolumn fields)) binds'
        → step db (update_sql tablename idcolumn fields) binds' ≡ (db, true))
    → parameters tablename ≡ 0
    → parameters idcolumn ≡ 0
    → All (λ f. parameters f.column ≡ 0) fields
    → prepare db (update_sql tablename idcolumn fields) ≡ true
    → format_to_sqlite src fields ≡ some binds
    → (0 < total_changes db
        → store_to_sqlite prepare step total_changes tablename idcolumn idvalue idvalue_str src
            fields db
          ≡ some (db, true))
      × (total_changes db ≡ 0
          → store_to_sqlite prepare step total_changes tablename idcolumn idvalue idvalue_str src
              fields db
            ≡ insert_row prepare step total_changes tablename idcolumn idvalue idvalue_str src
                fields db)
unfolding store_to_sqlite after_update
store_to_sqlite-unbound prepare step total_changes tablename idcolumn idvalue idvalue_str src fields
      binds db no_match t d plain ready stored =
    let n = parameters-update_sql tablename idcolumn fields t d plain in
    let all = binds ++ bind_idvalue (length fields) idvalue idvalue_str ∷ [] in
    let low : All (λ (b : Bind). b.index < length fields + 1) all =
      All-append (λ (b : Bind). b.index < length fields + 1) binds
        (bind_idvalue (length fields) idvalue idvalue_str ∷ [])
        (under (length fields) binds
          (bind_from-index 0 src fields binds (unfold format_to_sqlite in stored)))
        (omega (arith, bind_idvalue-index (length fields) idvalue idvalue_str), tt) in
    let nothing = no_match all (subst (λ k. All (λ (b : Bind). b.index < k) all) (sym n) low) in
    (
      λ seen.
          let some_change : ltb (total_changes db) 1 ≡ false = ground arith in
          rw (ready, stored, nothing, some_change),
      λ none_seen.
          let no_change : ltb (total_changes db) 1 ≡ true = ground arith in
          rw (ready, stored, nothing, no_change),
    )
