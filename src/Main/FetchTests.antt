-- ===== src/Main/FetchTests.antt =====
-- A fetch of an answer with one update, whose user a new cache of users takes.
use piiptyyt.Format.Json.{JsonObject, first_refused, refuses}
use piiptyyt.Login.Example.{zeros, clock, table, unsorted}
use piiptyyt.Login.Flow.{soup_status_ok}
use piiptyyt.Main.Fetch.{fetch_more_updates}
use piiptyyt.Main.Fetched.{
  IsFine, no_more, one_more, an_array, answer_ids, IsFetched, fetch_more_updates-IsFetched,
}
use piiptyyt.Main.Tests.{known, no_rows, first_query, answer, no_date, place}
use piiptyyt.Model.Sorts.{
  sort_updates, sort_ids, index_of, sorts, searches, insert_at, permutes, insertion,
}
use piiptyyt.Model.Updates.{UpdateModel}
use piiptyyt.PtCache.Fresh.{address_above, address_above_fresh}
use piiptyyt.PtCache.Props.{pt_cache_init}
use piiptyyt.PtCache.State.{lookup_item}
use piiptyyt.Update.Example.{link_sax, an_update}
use piiptyyt.Update.Parse.{UpdateJson}
use piiptyyt.Update.Parsed.{taken}
use piiptyyt.UserCache.Read.{IsKnown, from_json-IsKnown}
use piiptyyt.UserCache.Tests as Cached
use piiptyyt.UserCache.Users.{Users, get_user_info_from_json}
use piiptyyt.Prelude.{ℕ, ◌≡◌, refl, Option, some, List, [], ◌∷◌, arith, Bytes, codes}

abbrev State : Type 0
State = Users (List (ℕ × ℕ)) Cached.Counted

abbrev get_user : JsonObject → State → Option (Option ℕ × State)
get_user =
    get_user_info_from_json Cached.counted Cached.table address_above Cached.next_object no_date

-- The user of id 5.
new_user :
    (p : ℕ) × (w' : State) × (get_user Cached.a_user Cached.no_users ≡ some (some p, w'))
    × IsKnown Cached.counted Cached.counted_transactions Cached.table address_above
        Cached.next_object 5 p w'
unfolding pt_cache_init lookup_item first_refused refuses
new_user =
    let (p, w', done, known', _) =
      from_json-IsKnown Cached.counted Cached.counted_transactions Cached.table address_above
        Cached.next_object no_date Cached.a_user Cached.no_users 5 address_above_fresh
        Cached.no_users-IsKept (omega arith) (λ row bad. ground arith) (λ a found. ground arith)
        refl (λ z. ground arith) in
    (p, w', done, known')

abbrev with_user : UpdateJson
with_user = record an_update { user = some Cached.a_user }

abbrev one_element : Bytes → Option (List UpdateJson)
one_element text = some (with_user ∷ [])

with_user-IsFine : IsFine link_sax no_date (some get_user) with_user
unfolding first_refused refuses
with_user-IsFine = record {
  accepted = refl;
  has_id = refl;
  has_source = refl;
  source = (_, refl, refl);
}

fetch_more_updates-IsFetched_example :
    (m : UpdateModel) × (fetch_more_updates place sort_updates sort_ids index_of insert_at link_sax
        no_date
        (some get_user)
        one_element
        table
        zeros
        unsorted
        clock
        clock
        (codes "k")
        (codes "s")
        answer
        known
        Cached.no_users
        no_rows
      ≡ some (m, new_user.1))
    × IsFetched (answer_ids soup_status_ok (one_element (codes "[]"))) no_rows m
fetch_more_updates-IsFetched_example =
    fetch_more_updates-IsFetched place sort_updates sort_ids index_of insert_at insertion searches
      sorts permutes link_sax no_date (some get_user) one_element table zeros unsorted clock clock
      (codes "k") (codes "s") answer known Cached.no_users new_user.1 no_rows first_query.0
      soup_status_ok (codes "[]") (record { counted = refl; descending = tt })
      (record { rows = λ x. refl; sized = refl }) first_query.1 refl
      (an_array (with_user ∷ []) Cached.no_users new_user.1 refl (
        one_more with_user (some new_user.0) with_user-IsFine
          (taken get_user Cached.a_user (some new_user.0) new_user.1 refl (λ e. ground arith) refl
            new_user.2)
          (no_more new_user.1)))
