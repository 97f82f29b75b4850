-- ===== src/Model/Updates.antt =====
-- `add_updates_to_model` of model.c. `qsort` and `bsearch` are parameters, and so is the
-- insertion of a row into the list store.
use piiptyyt.Prelude.{
  ℕ, ◌+◌, Bool, true, false, not, ◌&&◌, ◌||◌, Option, none, some, List, [], ◌∷◌, ◌++◌, length, ltb,
  leb, ◌==◌, if◌then◌else◌, ◌>>=◌, ◌>>◌, assert,
}

-- `struct update`, of which `object` stands for the rest.
pub record Update : Type 0 where
  pub id : ℕ
  pub object : ℕ

-- `struct update_model`; `current_ids` has `count` elements, and `store` has a row for each update.
-- `count` is an `int` of the code, which a model of fewer than 2 ^ 31 updates does not leave.
pub record UpdateModel : Type 0 where
  pub count : ℕ
  pub current_ids : List ℕ
  pub store : List Update

-- The ids from the last update to the first.
unfoldable pub ids_backwards : List Update → List ℕ
ids_backwards [] = []
ids_backwards (u ∷ src) = ids_backwards src ++ u.id ∷ []

-- The assertion of the loop over neighbours.
unfoldable pub is_descending : List ℕ → Bool
is_descending [] = true
is_descending (a ∷ []) = true
is_descending (a ∷ b ∷ l) = leb b a && is_descending (b ∷ l)

unfoldable pub head : List ℕ → Option ℕ
head [] = none
head (a ∷ l) = some a

-- `row_pos` of the prepended updates.
unfoldable pub row_zeros : List Update → List ℕ
row_zeros [] = []
row_zeros (u ∷ src) = 0 ∷ row_zeros src

module _ (qsort_ids : List ℕ → List ℕ) where
  -- The new ids.
  unfoldable pub add_to_current_ids : UpdateModel → List Update → Bool → Option (List ℕ)
  add_to_current_ids model src do_sort =
      let dst = ids_backwards src ++ model.current_ids in
      if do_sort then some (qsort_ids dst) else assert (is_descending dst) >> some dst

module _ (bsearch : ℕ → List ℕ → Option ℕ) where
  unfoldable pub id_in_model : UpdateModel → ℕ → Bool
  id_in_model model x = elim (bsearch x model.current_ids) [ none ↦ false | some i ↦ true ]

  -- The updates that are not in the model yet.
  unfoldable pub dedup_updates : UpdateModel → List Update → List Update
  dedup_updates model [] = []
  dedup_updates model (u ∷ updates) =
      let rest = dedup_updates model updates in
      if model.count == 0 || not (id_in_model model u.id) then u ∷ rest else rest

  -- The second loop over `k`.
  unfoldable pub found_rows : List ℕ → List Update → Option (List ℕ)
  found_rows ids [] = some []
  found_rows ids (u ∷ rest) = do
    row ← bsearch u.id ids
    rows ← found_rows ids rest
    some (row ∷ rows)

  -- The first loop over `k`.
  unfoldable pub interleaved_rows : ℕ → ℕ → List ℕ → List Update → Option (List ℕ)
  interleaved_rows k old_head ids [] = some []
  interleaved_rows k old_head ids (u ∷ rest) =
      let later = interleaved_rows (k + 1) old_head ids rest in
      if ltb old_head u.id then (later >>= λ rows. some (k ∷ rows)) else found_rows ids (u ∷ rest)

module _ (insert_row : ℕ → Update → List Update → List Update) where
  unfoldable pub insert_rows : List ℕ → List Update → List Update → List Update
  insert_rows [] dedup store = store
  insert_rows (row ∷ rows) [] store = store
  insert_rows (row ∷ rows) (u ∷ dedup) store = insert_rows rows dedup (insert_row row u store)

module _ (qsort_updates : List Update → List Update) (qsort_ids : List ℕ → List ℕ)
    (bsearch : ℕ → List ℕ → Option ℕ) (insert_row : ℕ → Update → List Update → List Update) where
  -- `count` and the ids as `add_to_current_ids` leaves them, and the loop over the rows.
  unfoldable pub store_rows : UpdateModel → ℕ → List ℕ → List ℕ → List Update → UpdateModel
  store_rows model added ids rows dedup = record {
    count = model.count + added;
    current_ids = ids;
    store = insert_rows insert_row rows dedup model.store;
  }

  -- All updates are newer than the model.
  unfoldable pub prepend_updates : UpdateModel → List Update → Option UpdateModel
  prepend_updates model updates = do
    ids ← add_to_current_ids qsort_ids model updates false
    some (
        store_rows model (length updates) ids (row_zeros updates)
          (dedup_updates bsearch model updates))

  unfoldable pub interleave_updates : ℕ → UpdateModel → List Update → Option UpdateModel
  interleave_updates old_head model updates = do
    let dedup = dedup_updates bsearch model updates
    ids ← add_to_current_ids qsort_ids model dedup true
    rows ← interleaved_rows bsearch 0 old_head ids dedup
    some (store_rows model (length dedup) ids rows dedup)

  -- With `updates` sorted.
  unfoldable pub add_sorted : UpdateModel → List Update → Option UpdateModel
  add_sorted model [] = none
  add_sorted model (u ∷ updates) =
      if model.count == 0
      then prepend_updates model (u ∷ updates)
      else (head model.current_ids >>= λ old_head.
          if ltb old_head u.id
          then prepend_updates model (u ∷ updates)
          else interleave_updates old_head model (u ∷ updates))

  unfoldable pub add_updates_to_model : UpdateModel → List Update → Option UpdateModel
  add_updates_to_model model [] = some model
  add_updates_to_model model (u ∷ updates) = add_sorted model (qsort_updates (u ∷ updates))
