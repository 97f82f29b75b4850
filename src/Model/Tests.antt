-- ===== src/Model/Tests.antt =====
-- Two updates for a model of two ids, with insertion sorts and a linear search.
use piiptyyt.Model.Rows.{IsShown}
use piiptyyt.Model.InOrder.{InOrder, add_updates-InOrder}
use piiptyyt.Model.Shown.{add_updates-IsShown}
use piiptyyt.Model.Sorts.{
  insert_update, sort_updates, insert_id, sort_ids, index_of, sorts, searches, insert_at, permutes,
  finds, insertion,
}
use piiptyyt.Model.Updates.{
  Update, UpdateModel, add_updates_to_model, add_sorted, interleave_updates, prepend_updates,
  store_rows, insert_rows, interleaved_rows, found_rows, dedup_updates, id_in_model,
  add_to_current_ids, head, ids_backwards,
}
use piiptyyt.Model.Ordered.{IsOrdered, IsAdded}
use piiptyyt.Prelude.{ℕ, ◌≡◌, refl, inl, some, List, [], ◌∷◌, arith}

abbrev update_at : ℕ → Update
update_at n = record { id = n; object = n }

abbrev two_rows : UpdateModel
two_rows = record { count = 2; current_ids = 10 ∷ 5 ∷ []; store = update_at 10 ∷ update_at 5 ∷ [] }

two_rows-IsOrdered : IsOrdered two_rows
two_rows-IsOrdered = record { counted = refl; descending = ((omega arith, tt), (tt, tt)) }

abbrev between : List Update
between = update_at 7 ∷ update_at 6 ∷ []

-- The row of 6 comes behind that of 5.
two_rows_misplaced :
    add_updates_to_model sort_updates sort_ids index_of insert_at two_rows between
    ≡ some (record {
      count = 4;
      current_ids = 10 ∷ 7 ∷ 6 ∷ 5 ∷ [];
      store = update_at 10 ∷ update_at 7 ∷ update_at 5 ∷ update_at 6 ∷ [];
    })
unfolding add_updates_to_model add_sorted interleave_updates prepend_updates store_rows insert_rows
    interleaved_rows found_rows dedup_updates id_in_model add_to_current_ids head ids_backwards
    sort_updates insert_update sort_ids insert_id index_of insert_at
two_rows_misplaced = refl

two_rows-IsShown : IsShown two_rows
two_rows-IsShown = record { rows = λ x. refl; sized = refl }

add_updates-IsShown_example :
    (m : UpdateModel) × (add_updates_to_model sort_updates sort_ids index_of insert_at two_rows
        between
      ≡ some m)
    × IsAdded two_rows between m
    × IsShown m
add_updates-IsShown_example =
    add_updates-IsShown index_of sort_updates sort_ids insert_at insertion searches sorts permutes
      two_rows between two_rows-IsOrdered two_rows-IsShown

add_updates-InOrder_example :
    (m : UpdateModel) × (add_updates_to_model sort_updates sort_ids index_of insert_at two_rows
        (update_at 7 ∷ [])
      ≡ some m)
    × IsOrdered m
    × InOrder m
add_updates-InOrder_example =
    add_updates-InOrder index_of sort_updates sort_ids insert_at insertion sorts permutes searches
      finds two_rows (update_at 7 ∷ []) two_rows-IsOrdered refl (inl (omega arith))
