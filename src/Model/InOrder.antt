-- ===== src/Model/InOrder.antt =====
-- Where `add_updates_to_model` keeps the rows in the order of the ids.
use mathlib.Core.Path.{subst}
use piiptyyt.Model.Updates.{
  Update, UpdateModel, ids_backwards, head, add_to_current_ids, id_in_model, dedup_updates,
  found_rows, interleaved_rows, row_zeros, insert_rows, store_rows, prepend_updates,
  interleave_updates, add_sorted, add_updates_to_model,
}
use piiptyyt.Model.Ordered.{Descending, Ascending, has_id, IsOrdered, IsSort, IsSearch}
use piiptyyt.Model.Added.{add_updates-IsAdded}
use piiptyyt.Model.Rows.{row_ids, IsPermuting, IsInsertion}
use piiptyyt.Model.Shown.{
  dedup_updates-empty, dedup_updates-new, prepend_updates-store_rows, head_below, newer_absent,
}
use piiptyyt.Model.Sorted.{Descending-unique, placed-Descending}
use piiptyyt.Prelude.{
  ℕ, zero, suc, ◌+◌, ◌≤◌, ◌<◌, ◌≡◌, refl, sym, ap, ◌∙◌, ◌⊎◌, inl, inr, true, false, not, ◌||◌,
  Option, some, List, [], ◌∷◌, ◌++◌, append_assoc, arith, length, get_elem?, take, drop, All, ltb,
  ◌==◌, Bool-cases, >>=-eq-some, some-injective,
}

-- The rows show the ids in their order.
abbrev pub InOrder : UpdateModel → Type 0
InOrder model = row_ids model.store ≡ model.current_ids

-- `bsearch` gives a place at which the id stands.
pub record IsFinding (bsearch : ℕ → List ℕ → Option ℕ) : Type 0 where
  pub found_at : (x : ℕ) (l : List ℕ) (i : ℕ) → bsearch x l ≡ some i → get_elem? l i ≡ some x

module _ (insert_row : ℕ → Update → List Update → List Update)
    (insertion : IsInsertion insert_row) where
  row_ids-placed :
      (k : ℕ) (u : Update) (store : List Update)
      → row_ids (insert_row k u store) ≡ take k (row_ids store) ++ u.id ∷ drop k (row_ids store)
  row_ids-placed k u store = ap row_ids (insertion.placed k u store) ∙ mapped k store
    where
      mapped :
          (k : ℕ) (store : List Update)
          → row_ids (take k store ++ u ∷ drop k store)
            ≡ take k (row_ids store) ++ u.id ∷ drop k (row_ids store)
      mapped zero store = refl
      mapped (suc k) [] = refl
      mapped (suc k) (v ∷ store) = ap (λ t. v.id ∷ t) (mapped k store)

  row_ids-prepended :
      (l store : List Update)
      → row_ids (insert_rows insert_row (row_zeros l) l store) ≡ ids_backwards l ++ row_ids store
  unfolding insert_rows row_zeros ids_backwards
  row_ids-prepended [] store = refl
  row_ids-prepended (u ∷ l) store =
      row_ids-prepended l (insert_row 0 u store)
      ∙ ap (λ t. ids_backwards l ++ t) (row_ids-placed 0 u store)
      ∙ sym (append_assoc (ids_backwards l) (u.id ∷ []) (row_ids store))

-- Few enough updates, or all above the ids of the model.
abbrev pub IsOneOrNewer : UpdateModel → List Update → Type 0
IsOneOrNewer model l =
    (length l ≤ 1) ⊎ ((x : ℕ) → has_id x l ≡ true → All (λ b. b < x) model.current_ids)

newer_head : (ids : List ℕ) (a x : ℕ) → head ids ≡ some a → All (λ b. b < x) ids → ltb a x ≡ true
unfolding head
newer_head [] a x top all = ground arith
newer_head (b ∷ ids) a x top (less, all) = ground arith

module _ (bsearch : ℕ → List ℕ → Option ℕ) (qsort_updates : List Update → List Update)
    (qsort_ids : List ℕ → List ℕ) (insert_row : ℕ → Update → List Update → List Update)
    (insertion : IsInsertion insert_row) where
  prepend_updates-InOrder :
      (model m : UpdateModel) (l : List Update)
      → dedup_updates bsearch model l ≡ l
      → InOrder model
      → prepend_updates qsort_updates qsort_ids bsearch insert_row model l ≡ some m
      → InOrder m
  unfolding store_rows
  prepend_updates-InOrder model m l new in_order h =
      let made =
        rw new at
          (prepend_updates-store_rows bsearch qsort_updates qsort_ids insert_row model m l h) in
      subst InOrder made (
        row_ids-prepended insert_row insertion l model.store
        ∙ ap (λ t. ids_backwards l ++ t) in_order)

  module _ (sort : IsSort qsort_updates qsort_ids)
      (moves : IsPermuting qsort_updates qsort_ids) where
    -- Sorted ids stay as they are.
    qsort_ids-sorted : (ids : List ℕ) → Descending ids → qsort_ids ids ≡ ids
    qsort_ids-sorted ids d =
        Descending-unique (qsort_ids ids) ids (sort.descending ids) d (moves.ids ids)

    -- An update that is not newer than the model.
    interleave_updates-InOrder :
        (finding : IsFinding bsearch) (a : ℕ) (model m : UpdateModel) (u : Update)
        → ltb a u.id ≡ false
        → IsOrdered model
        → InOrder model
        → interleave_updates qsort_updates qsort_ids bsearch insert_row a model (u ∷ []) ≡ some m
        → InOrder m
    unfolding interleave_updates add_to_current_ids dedup_updates ids_backwards interleaved_rows
        found_rows store_rows insert_rows
    interleave_updates-InOrder finding a model m u older o in_order h =
        elim (Bool-cases (model.count == 0 || not (id_in_model bsearch model u.id))) [
          | inl new ↦
              let ids = qsort_ids (u.id ∷ model.current_ids) in
              let (rows, placed, made) =
                >>=-eq-some (found_rows bsearch ids (u ∷ [])) _ (rw (new, older) at h) in
              let (row, found, one) = >>=-eq-some (bsearch u.id ids) _ placed in
              let rows_one : row ∷ [] ≡ rows = ground (arith, one) in
              let stored : some (record {
                count = model.count + 1;
                current_ids = ids;
                store = insert_row row u model.store;
              })
                  ≡ some m =
                ap
                  (λ r. some (record {
                    count = model.count + 1;
                    current_ids = ids;
                    store = insert_rows insert_row r (u ∷ []) model.store;
                  }))
                  rows_one
                ∙ made in
              subst InOrder (some-injective stored) (
                row_ids-placed insert_row insertion row u model.store
                ∙ ap (λ t. take row t ++ u.id ∷ drop row t) in_order
                ∙ placed-Descending row u.id ids model.current_ids
                    (sort.descending (u.id ∷ model.current_ids)) o.descending
                    (moves.ids (u.id ∷ model.current_ids)) (finding.found_at u.id ids row found))
          | inr old ↦
              let stored = rw old at h in
              subst InOrder (some-injective stored)
                (in_order ∙ sym (qsort_ids-sorted model.current_ids o.descending))
        ]

    add_sorted-InOrder :
        (search : IsSearch bsearch) (finding : IsFinding bsearch) (model m : UpdateModel)
        (l : List Update)
        → IsOrdered model
        → Ascending l
        → IsOneOrNewer model l
        → InOrder model
        → add_sorted qsort_updates qsort_ids bsearch insert_row model l ≡ some m
        → InOrder m
    unfolding add_sorted
    add_sorted-InOrder search finding model m [] o asc few in_order h = ground arith
    add_sorted-InOrder search finding model m (u ∷ l) o asc few in_order h =
        elim (Bool-cases (model.count == 0)) [
          | inl empty ↦
              prepend_updates-InOrder model m (u ∷ l)
                (dedup_updates-empty bsearch model (u ∷ l) empty) in_order (rw empty at h)
          | inr filled ↦
              let (a, top, h₁) = >>=-eq-some (head model.current_ids) _ (rw filled at h) in
              elim (Bool-cases (ltb a u.id)) [
                | inl newer ↦
                    let below = head_below model.current_ids a o.descending top in
                    let new =
                      newer_absent a u.id model.current_ids (u ∷ l) below (ground arith)
                        (omega arith, asc.0) in
                    prepend_updates-InOrder model m (u ∷ l)
                      (dedup_updates-new bsearch search model (u ∷ l) o new) in_order
                      (rw newer at h₁)
                | inr older ↦ older_one a l top older few (rw older at h₁)
              ]
        ]
      where
        older_one :
            (a : ℕ) (l : List Update)
            → head model.current_ids ≡ some a
            → ltb a u.id ≡ false
            → (length (u ∷ l) ≤ 1)
              ⊎ ((x : ℕ) → has_id x (u ∷ l) ≡ true → All (λ b. b < x) model.current_ids)
            → interleave_updates qsort_updates qsort_ids bsearch insert_row a model (u ∷ l) ≡ some m
            → InOrder m
        older_one a [] top older few h =
            interleave_updates-InOrder finding a model m u older o in_order h
        older_one a (v ∷ l) top older (inl one) h = absurd (omega (arith, one))
        older_one a (v ∷ l) top older (inr newer) h =
            let above = newer u.id (ground arith) in
            absurd (ground (arith, older, newer_head model.current_ids a u.id top above))

    -- A call on a model whose ids are in descending order and are shown in that order, with one
    -- update at most or with updates that are all above the ids of the model: no assertion fails,
    -- and the rows show the ids in their order again. `qsort`, `bsearch` and the list store are
    -- only asked to do what their manuals say.
    pub add_updates-InOrder :
        (search : IsSearch bsearch) (finding : IsFinding bsearch) (model : UpdateModel)
        (updates : List Update)
        → IsOrdered model
        → InOrder model
        → IsOneOrNewer model updates
        → (m : UpdateModel) × (add_updates_to_model qsort_updates qsort_ids bsearch insert_row model
              updates
            ≡ some m)
          × IsOrdered m
          × InOrder m
    unfolding add_updates_to_model
    add_updates-InOrder search finding model [] o in_order few = (model, refl, o, in_order)
    add_updates-InOrder search finding model (u ∷ l) o in_order few =
        let (m, done, added) =
          add_updates-IsAdded bsearch search qsort_updates qsort_ids insert_row sort model (u ∷ l)
            o in
        (
          m,
          done,
          added.ordered,
          add_sorted-InOrder search finding model m (qsort_updates (u ∷ l)) o
              (sort.ascending (u ∷ l)) (few_sorted few) in_order done,
        )
      where
        few_sorted : IsOneOrNewer model (u ∷ l) → IsOneOrNewer model (qsort_updates (u ∷ l))
        few_sorted (inl one) = inl (omega (arith, one, sort.same_size (u ∷ l)))
        few_sorted (inr newer) = inr (λ x here. newer x (sym (sort.same_updates (u ∷ l) x) ∙ here))
