-- ===== src/Model/Rows.antt =====
-- The rows of the list store: each id of the model is shown in as many rows as it has places
-- among the ids.
use piiptyyt.Model.Updates.{Update, UpdateModel, ids_backwards, row_zeros, insert_rows}
use piiptyyt.Prelude.{
  ℕ, suc, ◌+◌, ◌≡◌, refl, sym, ap, ◌∙◌, List, [], ◌∷◌, ◌++◌, map, arith, length, length-append,
  take, drop, take-drop, map-append, ◌==◌, if◌then◌else◌,
}

-- How often an id stands in a list.
abbrev pub times : ℕ → List ℕ → ℕ
times x [] = 0
times x (a ∷ l) = if x == a then times x l + 1 else times x l

pub times-append : (x : ℕ) (l m : List ℕ) → times x (l ++ m) ≡ times x l + times x m
times-append x [] m = omega arith
times-append x (a ∷ l) m = ground (arith, times-append x l m)

abbrev pub row_ids : List Update → List ℕ
row_ids store = map (λ (u : Update). u.id) store

-- Every id of the model has its rows.
pub record IsShown (model : UpdateModel) : Type 0 where
  pub rows : (x : ℕ) → times x (row_ids model.store) ≡ times x model.current_ids
  pub sized : length model.store ≡ model.count

-- `qsort` only moves the elements.
pub record IsPermuting (qsort_updates : List Update → List Update) (qsort_ids : List ℕ → List ℕ)
    : Type 0 where
  pub updates :
      (l : List Update) (x : ℕ) → times x (row_ids (qsort_updates l)) ≡ times x (row_ids l)
  pub ids : (l : List ℕ) (x : ℕ) → times x (qsort_ids l) ≡ times x l

-- `gtk_list_store_insert_with_values`: the row stands at its position, or behind the last row.
pub record IsInsertion (insert_row : ℕ → Update → List Update → List Update) : Type 0 where
  pub placed :
      (k : ℕ) (u : Update) (store : List Update)
      → insert_row k u store ≡ take k store ++ u ∷ drop k store

pub times-ids_backwards :
    (x : ℕ) (l : List Update) → times x (ids_backwards l) ≡ times x (row_ids l)
unfolding ids_backwards
times-ids_backwards x [] = refl
times-ids_backwards x (u ∷ l) =
    ground (arith, times-append x (ids_backwards l) (u.id ∷ []), times-ids_backwards x l)

pub length-row_zeros : (l : List Update) → length (row_zeros l) ≡ length l
unfolding row_zeros
length-row_zeros [] = refl
length-row_zeros (u ∷ l) = ap suc (length-row_zeros l)

module _ (insert_row : ℕ → Update → List Update → List Update)
    (insertion : IsInsertion insert_row) where
  insert_row_lem :
      (k : ℕ) (u : Update) (store : List Update)
      → ((x : ℕ) → times x (row_ids (insert_row k u store)) ≡ times x (u.id ∷ row_ids store))
        × (length (insert_row k u store) ≡ length store + 1)
  insert_row_lem k u store =
      let f : Update → ℕ = λ v. v.id in
      let before : List Update = take k store in
      let behind : List Update = drop k store in
      let whole : before ++ behind ≡ store = take-drop k store in
      (
        λ x.
            ap (λ l. times x (row_ids l)) (insertion.placed k u store)
            ∙ ap (times x) (map-append f before (u ∷ behind))
            ∙ ground (
              arith,
              times-append x (map f before) (u.id ∷ map f behind),
              times-append x (map f before) (map f behind),
              ap (times x) (sym (map-append f before behind)),
              ap (λ l. times x (map f l)) whole,
            ),
        omega (
          arith,
          ap length (insertion.placed k u store),
          length-append before (u ∷ behind),
          length-append before behind,
          ap length whole,
        ),
      )

  -- All updates that have a position come into the store.
  pub insert_rows_lem :
      (rows : List ℕ) (l store : List Update)
      → length rows ≡ length l
      → ((x : ℕ)
          → times x (row_ids (insert_rows insert_row rows l store))
            ≡ times x (row_ids l) + times x (row_ids store))
        × (length (insert_rows insert_row rows l store) ≡ length l + length store)
  unfolding insert_rows
  insert_rows_lem [] [] store h = (λ x. omega arith, omega arith)
  insert_rows_lem [] (u ∷ l) store h = absurd (omega (arith, h))
  insert_rows_lem (k ∷ rows) [] store h = absurd (omega (arith, h))
  insert_rows_lem (k ∷ rows) (u ∷ l) store h =
      let (more, size) = insert_row_lem k u store in
      let (rest, sum) = insert_rows_lem rows l (insert_row k u store) (omega (arith, h)) in
      (λ x. ground (arith, more x, rest x), omega (arith, size, sum))
