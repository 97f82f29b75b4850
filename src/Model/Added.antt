-- ===== src/Model/Added.antt =====
-- `add_updates_to_model` on each branch.
use piiptyyt.Prelude.{
  ℕ, ◌+◌, ◌≤◌, ◌≡◌, refl, sym, ap, ◌⊎◌, inl, inr, true, ◌||◌, Option, some, List, [], ◌∷◌, ◌++◌,
  arith, length, length-append, All, ltb, ◌==◌, Bool-cases,
}
use mathlib.Core.Path.{subst}
use piiptyyt.PtCache.Nodes.{mem, mem-append}
use piiptyyt.Model.Updates.{
  Update, UpdateModel, ids_backwards, head, add_to_current_ids, id_in_model, dedup_updates,
  found_rows, interleaved_rows, row_zeros, store_rows, prepend_updates, interleave_updates,
  add_sorted, add_updates_to_model,
}
use piiptyyt.Model.Ordered.{
  Descending, Ascending, has_id, IsOrdered, is_descending_lem, All-le, prepended-Descending,
  ids_above, mem-ids_backwards, length-ids_backwards, IsAdded, IsSort, IsSearch,
}

each_id :
    (P : ℕ → Type 0) (l : List Update)
    → ((x : ℕ) → has_id x l ≡ true → P x)
    → All (λ (v : Update). P v.id) l
each_id P [] h = tt
each_id P (u ∷ l) h = (h u.id (ground arith), each_id P l (λ x here. h x (ground arith)))

none_above :
    (old : List ℕ) (l : List Update)
    → length old ≡ 0
    → All (λ (v : Update). All (λ b. b ≤ v.id) old) l
none_above (a ∷ old) l h = ground arith
none_above [] [] h = tt
none_above [] (v ∷ l) h = (tt, none_above [] l h)

pub head_cases : (l : List ℕ) → (l ≡ []) ⊎ ((a : ℕ) × (old : List ℕ) × (l ≡ a ∷ old))
head_cases [] = inl refl
head_cases (a ∷ old) = inr (a, old, refl)

module _ (bsearch : ℕ → List ℕ → Option ℕ) (search : IsSearch bsearch) where
  pub id_in_model-mem :
      (model : UpdateModel) (x : ℕ)
      → IsOrdered model
      → id_in_model bsearch model x ≡ mem x model.current_ids
  unfolding id_in_model
  id_in_model-mem model x o = elim (Bool-cases (mem x model.current_ids)) [
    | inl here ↦
        let (i, found) = search.hit x model.current_ids o.descending here in
        rw (found, here, id_in_model)
    | inr gone ↦ rw (search.miss x model.current_ids o.descending gone, gone, id_in_model)
  ]

  -- What is left out is in the model.
  has_id-dedup_updates :
      (model : UpdateModel) (l : List Update) (x : ℕ)
      → IsOrdered model
      → (mem x model.current_ids || has_id x (dedup_updates bsearch model l))
        ≡ (mem x model.current_ids || has_id x l)
  unfolding dedup_updates
  has_id-dedup_updates model [] x o = refl
  has_id-dedup_updates model (u ∷ l) x o =
      ground (arith, has_id-dedup_updates model l x o, id_in_model-mem model u.id o)

  found_rows_lem :
      (ids : List ℕ) (l : List Update)
      → Descending ids
      → All (λ (v : Update). mem v.id ids ≡ true) l
      → (rows : List ℕ) × (found_rows bsearch ids l ≡ some rows)
  unfolding found_rows
  found_rows_lem ids [] d all = ([], refl)
  found_rows_lem ids (u ∷ l) d (here, all) =
      let (row, found) = search.hit u.id ids d here in
      let (rows, rest) = found_rows_lem ids l d all in (row ∷ rows, rw (found, rest))

  interleaved_rows_lem :
      (k a : ℕ) (ids : List ℕ) (l : List Update)
      → Descending ids
      → All (λ (v : Update). mem v.id ids ≡ true) l
      → (rows : List ℕ) × (interleaved_rows bsearch k a ids l ≡ some rows)
  unfolding interleaved_rows
  interleaved_rows_lem k a ids [] d all = ([], refl)
  interleaved_rows_lem k a ids (u ∷ l) d (here, all) = elim (Bool-cases (ltb a u.id)) [
    | inl newer ↦
        let (rows, rest) = interleaved_rows_lem (k + 1) a ids l d all in
        (k ∷ rows, rw (newer, rest))
    | inr older ↦
        let (rows, found) = found_rows_lem ids (u ∷ l) d (here, all) in (rows, rw older found)
  ]

  module _ (qsort_updates : List Update → List Update) (qsort_ids : List ℕ → List ℕ)
      (insert_row : ℕ → Update → List Update → List Update)
      (sort : IsSort qsort_updates qsort_ids) where
    prepend_updates-IsAdded :
        (model : UpdateModel) (l : List Update)
        → IsOrdered model
        → Ascending l
        → All (λ (v : Update). All (λ b. b ≤ v.id) model.current_ids) l
        → (model' : UpdateModel) × (prepend_updates qsort_updates qsort_ids bsearch insert_row model
              l
            ≡ some model')
          × IsAdded model l model'
    unfolding prepend_updates add_to_current_ids store_rows
    prepend_updates-IsAdded model l o asc above =
        let d = prepended-Descending l model.current_ids asc o.descending above in
        let ok = is_descending_lem (ids_backwards l ++ model.current_ids) d in
        (
          store_rows qsort_updates qsort_ids bsearch insert_row model (length l)
              (ids_backwards l ++ model.current_ids) (row_zeros l) (dedup_updates bsearch model l),
          rw ok refl,
          record {
            ordered = record {
              counted = omega (
                arith,
                o.counted,
                length-append (ids_backwards l) model.current_ids,
                length-ids_backwards l,
              );
              descending = d;
            };
            all_ids = λ x.
                ground
                  (arith, mem-append x (ids_backwards l) model.current_ids, mem-ids_backwards x l);
          },
        )

    interleave_updates-IsAdded :
        (a : ℕ) (model : UpdateModel) (l : List Update)
        → IsOrdered model
        → (model' : UpdateModel) × (interleave_updates qsort_updates qsort_ids bsearch insert_row a
              model l
            ≡ some model')
          × IsAdded model l model'
    unfolding interleave_updates add_to_current_ids store_rows
    interleave_updates-IsAdded a model l o =
        let dedup = dedup_updates bsearch model l in
        let dst = ids_backwards dedup ++ model.current_ids in
        let members : (x : ℕ) → mem x (qsort_ids dst) ≡ (mem x model.current_ids || has_id x l) =
          λ x. ground (
            arith,
            sort.same_ids dst x,
            mem-append x (ids_backwards dedup) model.current_ids,
            mem-ids_backwards x dedup,
            has_id-dedup_updates model l x o,
          ) in
        let inside : (x : ℕ) → has_id x dedup ≡ true → mem x (qsort_ids dst) ≡ true = λ x here.
          ground (
            arith,
            sort.same_ids dst x,
            mem-append x (ids_backwards dedup) model.current_ids,
            mem-ids_backwards x dedup,
          ) in
        let (rows, placed) =
          interleaved_rows_lem 0 a (qsort_ids dst) dedup (sort.descending dst)
            (each_id (λ x. mem x (qsort_ids dst) ≡ true) dedup inside) in
        (
          store_rows qsort_updates qsort_ids bsearch insert_row model (length dedup) (qsort_ids dst)
              rows dedup,
          rw placed refl,
          record {
            ordered = record {
              counted = omega (
                arith,
                o.counted,
                sort.same_count dst,
                length-append (ids_backwards dedup) model.current_ids,
                length-ids_backwards dedup,
              );
              descending = sort.descending dst;
            };
            all_ids = members;
          },
        )

    add_sorted-IsAdded :
        (model : UpdateModel) (u : Update) (l : List Update)
        → IsOrdered model
        → Ascending (u ∷ l)
        → (model' : UpdateModel) × (add_sorted qsort_updates qsort_ids bsearch insert_row model
              (u ∷ l)
            ≡ some model')
          × IsAdded model (u ∷ l) model'
    unfolding add_sorted
    add_sorted-IsAdded model u l o asc = elim (Bool-cases (model.count == 0)) [
      | inl empty ↦
          let (m, done, added) =
            prepend_updates-IsAdded model (u ∷ l) o asc
              (none_above model.current_ids (u ∷ l) (ground (arith, o.counted))) in
          (m, rw empty done, added)
      | inr filled ↦ elim (head_cases model.current_ids) [
        | inl none_there ↦ ground (arith, o.counted)
        | inr (a, old, e) ↦
            let top : head model.current_ids ≡ some a = unfold head in ap head e in
            elim (Bool-cases (ltb a u.id)) [
              | inl newer ↦
                  let below : All (λ b. b ≤ u.id) model.current_ids =
                    subst (All (λ b. b ≤ u.id)) (sym e) (
                      ground arith,
                      All-le a u.id old (ground arith) (subst Descending e o.descending).0,
                    ) in
                  let (m, done, added) =
                    prepend_updates-IsAdded model (u ∷ l) o asc
                      (below, ids_above u.id model.current_ids l below asc.0) in
                  (m, rw (filled, top, newer) done, added)
              | inr older ↦
                  let (m, done, added) = interleave_updates-IsAdded a model (u ∷ l) o in
                  (m, rw (filled, top, older) done, added)
            ]
      ]
    ]

    -- A call on a model with its ids in descending order fails no assertion, and leaves the ids in
    -- descending order, counted, and just those that were there or that an update has. `qsort`
    -- and `bsearch` are only asked to do what the C standard says.
    pub add_updates-IsAdded :
        (model : UpdateModel) (updates : List Update)
        → IsOrdered model
        → (model' : UpdateModel) × (add_updates_to_model qsort_updates qsort_ids bsearch insert_row
              model updates
            ≡ some model')
          × IsAdded model updates model'
    unfolding add_updates_to_model
    add_updates-IsAdded model [] o =
        (model, refl, record { ordered = o; all_ids = λ x. ground arith })
    add_updates-IsAdded model (u ∷ l) o =
        let (m, done, added) =
          sorted_cases (qsort_updates (u ∷ l)) (sort.ascending (u ∷ l)) (sort.same_size (u ∷ l)) in
        (
          m,
          done,
          record {
            ordered = added.ordered;
            all_ids = λ x. ground (arith, added.all_ids x, sort.same_updates (u ∷ l) x);
          },
        )
      where
        sorted_cases :
            (sorted : List Update)
            → Ascending sorted
            → length sorted ≡ length (u ∷ l)
            → (model' : UpdateModel) × (add_sorted qsort_updates qsort_ids bsearch insert_row model
                  sorted
                ≡ some model')
              × IsAdded model sorted model'
        sorted_cases [] asc h = ground arith
        sorted_cases (v ∷ sorted) asc h = add_sorted-IsAdded model v sorted o asc
