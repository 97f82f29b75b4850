-- ===== src/UserCache/Tests.antt =====
-- A database that counts its changes and its rows, and holds, while a transaction is open, the
-- number of the rows before it: a rollback gives the rows back but not the count of the changes.
use piiptyyt.Prelude.{
  ℕ, ◌+◌, ◌≡◌, refl, ◌⊎◌, Bool, true, false, Option, none, some, List, [], ◌∷◌, arith, Bytes, codes,
  bytes_eq, if◌then◌else◌,
}
use native.Mathlib.Decide.{ℕ_discrete}
use piiptyyt.Format.Json.{JsonObject, first_refused}
use piiptyyt.Glib.Assoc.{assoc}
use piiptyyt.Glib.HashTable.{HashTable}
use piiptyyt.PtCache.Example.{three, three-IsValid}
use piiptyyt.PtCache.Invariant.{is_node}
use piiptyyt.PtCache.Nodes.{mem, Nodup}
use piiptyyt.UserCache.Close.{user_cache_close, users_of, user_cache_close-Flushed}
use piiptyyt.PtCache.Fresh.{address_above, address_above_fresh}
use piiptyyt.PtCache.Props.{pt_cache_init, init-IsValid}
use piiptyyt.PtCache.State.{Cache, Item, lookup_item}
use piiptyyt.UserCache.Again.{IsKept, empty_user, get_user_info_again}
use piiptyyt.UserCache.Atomic.{Flushed, user_info_flush-Flushed}
use piiptyyt.UserCache.Database.{Sqlite, Transactions, no_row}
use piiptyyt.UserCache.Flush.{user_info_flush}
use piiptyyt.UserCache.Open.{user_cache_open, IsOpened, IsHindered, user_cache_open-IsValid}
use piiptyyt.UserCache.Read.{IsKnown, from_json-IsKnown}
use piiptyyt.UserCache.Users.{Users, get_user_info, get_user_info_from_json}
use piiptyyt.UserInfo.Table.{pt_user_info_new, user_info_fields}
use piiptyyt.UserInfo.Types.{new-WellTyped}

-- The changes, the rows, and the rows to go back to.
abbrev pub Counted : Type 0
Counted = ℕ × ℕ × Option ℕ

begin : Counted → Counted × Bool
begin (n, r, none) = ((n, r, some r), true)
begin (n, r, some m) = ((n, r, some m), false)

commit : Counted → Counted × Bool
commit (n, r, none) = ((n, r, none), false)
commit (n, r, some m) = ((n, r, none), true)

rollback : Counted → Counted × Bool
rollback (n, r, none) = ((n, r, none), false)
rollback (n, r, some m) = ((n, m, none), true)

pub counted_exec : Counted → Bytes → Counted × Bool
counted_exec d sql =
    if bytes_eq sql (codes "BEGIN")
    then begin d
    else if bytes_eq sql (codes "COMMIT")
    then commit d
    else if bytes_eq sql (codes "ROLLBACK")
    then rollback d
    else (d, false)

abbrev pub counted : Sqlite
counted = record {
  Db = Counted;
  prepare = λ d sql. true;
  step = λ d sql binds. ((d.0 + 1, d.1 + 1, d.2), true);
  query = λ d sql binds. no_row;
  exec = counted_exec;
  total_changes = λ d. d.0;
  errmsg = λ d. [];
}

abbrev pub rows : Counted → ℕ
rows d = d.1

abbrev pub IsOutside : Counted → Type 0
IsOutside d = d.2 ≡ none

abbrev pub IsInside : Counted → Counted → Type 0
IsInside d e = e.2 ≡ some (rows d)

pub begun :
    (d e : Counted) → IsOutside d → counted_exec d (codes "BEGIN") ≡ (e, true) → IsInside d e
unfolding counted_exec begin
begun (n, r, none) e outside ran = ground arith
begun (n, r, some m) e outside ran = ground arith

pub not_begun :
    (d e : Counted)
    → IsOutside d
    → counted_exec d (codes "BEGIN") ≡ (e, false)
    → IsOutside e × (rows e ≡ rows d)
unfolding counted_exec begin
not_begun (n, r, none) e outside ran = ground arith
not_begun (n, r, some m) e outside ran = ground arith

pub committed :
    (d e f : Counted) → IsInside d e → counted_exec e (codes "COMMIT") ≡ (f, true) → IsOutside f
unfolding counted_exec commit
committed d (n, r, none) f inside ran = ground arith
committed d (n, r, some m) f inside ran = ground arith

pub not_committed :
    (d e f : Counted)
    → IsInside d e
    → counted_exec e (codes "COMMIT") ≡ (f, false)
    → IsInside d f ⊎ (IsOutside f × (rows f ≡ rows d))
unfolding counted_exec commit
not_committed d (n, r, none) f began ran = ground arith
not_committed d (n, r, some m) f inside ran = ground arith

pub rolled_back :
    (d e : Counted)
    → IsInside d e
    → IsOutside (counted_exec e (codes "ROLLBACK")).0
      × (rows (counted_exec e (codes "ROLLBACK")).0 ≡ rows d)
unfolding counted_exec rollback
rolled_back d (n, r, none) began = ground arith
rolled_back d (n, r, some m) began = (refl, ground arith)

pub no_transaction :
    (d : Counted)
    → IsOutside d
    → IsOutside (counted_exec d (codes "ROLLBACK")).0
      × (rows (counted_exec d (codes "ROLLBACK")).0 ≡ rows d)
unfolding counted_exec rollback
no_transaction (n, r, none) outside = (refl, refl)
no_transaction (n, r, some m) outside = ground arith

abbrev pub counted_transactions : Transactions counted
counted_transactions = record {
  Content = ℕ;
  contents = rows;
  Outside = IsOutside;
  Inside = IsInside;
  begun = begun;
  not_begun = not_begun;
  step_done = λ d e f sql binds change inside ran. ground arith;
  step_failed = λ d e f sql binds change inside ran. ground arith;
  committed = committed;
  not_committed = not_committed;
  rolled_back = rolled_back;
  no_transaction = no_transaction;
}

user_info_flush-Flushed_example :
    (e : Counted) × (user_info_flush counted (pt_user_info_new ∷ []) (0, 0, none) ≡ some e)
    × (e.2 ≡ none)
    × Flushed counted counted_transactions (pt_user_info_new ∷ []) (0, 0, none) e
user_info_flush-Flushed_example =
    user_info_flush-Flushed counted counted_transactions (pt_user_info_new ∷ []) (0, 0, none)
      (new-WellTyped, tt) refl

abbrev pub table : HashTable ℕ ℕ
table = assoc ℕ_discrete

abbrev memory : ℕ → Item ℕ
memory a = record { ref = 0; key = 0; key_size = 0; age = 0 }

abbrev pub no_users : Users (List (ℕ × ℕ)) Counted
no_users = record {
  cache = pt_cache_init memory;
  db = (0, 0, none);
  objects = λ p. pt_user_info_new;
}

abbrev pub next_object : Users (List (ℕ × ℕ)) Counted → ℕ
next_object w = w.cache.count + 1

pub no_users-IsKept : IsKept counted counted_transactions table address_above next_object no_users
no_users-IsKept = record {
  valid = init-IsValid table memory;
  typed = λ p. new-WellTyped;
  outside = refl;
}

get_user_info_again_example :
    (p : ℕ) × (w' : Users (List (ℕ × ℕ)) Counted) × (get_user_info counted table address_above
        next_object 5 no_users
      ≡ some (p, w'))
    × IsKept counted counted_transactions table address_above next_object w'
    × (w'.objects p ≡ empty_user 5)
    × ((w'' : Users (List (ℕ × ℕ)) Counted) × (get_user_info counted table address_above next_object
            5 w'
          ≡ some (p, w''))
        × IsKept counted counted_transactions table address_above next_object w''
        × (w''.objects p ≡ empty_user 5))
unfolding pt_cache_init lookup_item
get_user_info_again_example =
    get_user_info_again counted counted_transactions table address_above next_object no_users 5
      address_above_fresh no_users-IsKept (omega arith) refl (λ row bad. ground arith)

abbrev pub a_user : JsonObject
a_user = record {
  member = λ name. some false;
  int_member = λ name. 5;
  boolean_member = λ name. true;
  string_member = λ name. some name;
}

from_json-IsKnown_example :
    (p : ℕ) × (w' : Users (List (ℕ × ℕ)) Counted) × (get_user_info_from_json counted table
        address_above next_object
        (λ s. none)
        a_user
        no_users
      ≡ some (
        elim (first_refused a_user user_info_fields) as (λ _. Option ℕ) [
          | none ↦ some p
          | some name ↦ none
        ],
        w',
      ))
    × IsKnown counted counted_transactions table address_above next_object 5 p w'
    × (first_refused a_user user_info_fields ≡ none → (w'.objects p).dirty ≡ true)
unfolding pt_cache_init lookup_item
from_json-IsKnown_example =
    from_json-IsKnown counted counted_transactions table address_above next_object (λ s. none)
      a_user no_users 5 address_above_fresh no_users-IsKept (omega arith) (λ row bad. ground arith)
      (λ a found. ground arith) refl (λ z. ground arith)

abbrev new_db : Counted
new_db = (0, 0, none)

user_cache_open-IsValid_example :
    (r : Option (Cache ℕ (List (ℕ × ℕ)) × Counted)) × (user_cache_open counted
        (List (ℕ × ℕ))
        memory
        true
        (some new_db)
      ≡ some r)
    × ((c : Cache ℕ (List (ℕ × ℕ))) (db : Counted)
        → r ≡ some (c, db)
        → IsOpened counted table c × (some new_db ≡ some db))
    × (r ≡ none → IsHindered counted table true (some new_db))
    × (IsHindered counted table true (some new_db) → r ≡ none)
user_cache_open-IsValid_example = user_cache_open-IsValid counted table memory true (some new_db)

abbrev three_users : Users (List (ℕ × ℕ)) Counted
three_users = record { cache = three; db = (0, 0, none); objects = λ p. pt_user_info_new }

abbrev unmoved : ℕ → Bool
unmoved a = true

user_cache_close-Flushed_example :
    (w' : Users (List (ℕ × ℕ)) Counted) × (user_cache_close counted table address_above next_object
        unmoved true three_users
      ≡ some (w', true))
    × (w'.cache.count ≡ 0)
    × counted_transactions.Outside w'.db
    × ((items : List ℕ) × Nodup items
        × ((a : ℕ) → mem a items ≡ is_node a three)
        × Flushed counted counted_transactions
            (users_of counted counted_transactions table address_above next_object unmoved items
              three_users)
            three_users.db
            w'.db)
user_cache_close-Flushed_example =
    user_cache_close-Flushed counted counted_transactions table address_above next_object unmoved
      three_users (record { valid = three-IsValid; typed = λ p. new-WellTyped; outside = refl })
      refl refl (λ a node. refl)
