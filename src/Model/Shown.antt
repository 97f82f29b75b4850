-- ===== src/Model/Shown.antt =====
-- `add_updates_to_model` gives each new id its row.
use mathlib.Core.Path.{subst}
use piiptyyt.Model.Updates.{
  Update, UpdateModel, ids_backwards, is_descending, head, add_to_current_ids, id_in_model,
  dedup_updates, found_rows, interleaved_rows, row_zeros, store_rows, prepend_updates,
  interleave_updates, add_sorted, add_updates_to_model,
}
use piiptyyt.Model.Ordered.{Descending, Ascending, IsOrdered, IsAdded, IsSort, IsSearch}
use piiptyyt.Model.Added.{id_in_model-mem, add_updates-IsAdded}
use piiptyyt.Model.Rows.{
  times, times-append, row_ids, IsShown, IsPermuting, IsInsertion, times-ids_backwards,
  length-row_zeros, insert_rows_lem,
}
use piiptyyt.PtCache.Nodes.{mem}
use piiptyyt.Prelude.{
  ℕ, ◌+◌, ◌≤◌, ◌<◌, ◌≡◌, refl, ap, ◌∙◌, inl, inr, true, false, Option, some, List, [], ◌∷◌, ◌++◌,
  arith, length, All, ltb, ◌==◌, Bool-cases, >>=-eq-some,
}

not-mem_above : (a x : ℕ) (l : List ℕ) → All (λ b. b ≤ a) l → a < x → mem x l ≡ false
not-mem_above a x [] all h = refl
not-mem_above a x (b ∷ l) (le, all) h = ground (arith, not-mem_above a x l all h)

-- What is not below an update above all ids of the model is not one of them.
pub newer_absent :
    (a x : ℕ) (ids : List ℕ) (l : List Update)
    → All (λ b. b ≤ a) ids
    → a < x
    → All (λ (v : Update). x ≤ v.id) l
    → All (λ (v : Update). mem v.id ids ≡ false) l
newer_absent a x ids [] below h all = tt
newer_absent a x ids (v ∷ l) below h (le, all) =
    (not-mem_above a v.id ids below (omega arith), newer_absent a x ids l below h all)

pub head_below : (ids : List ℕ) (a : ℕ) → Descending ids → head ids ≡ some a → All (λ b. b ≤ a) ids
unfolding head
head_below [] a d h = ground arith
head_below (b ∷ ids) a d h =
    let e : b ≡ a = ground arith in subst (λ x. All (λ c. c ≤ x) (b ∷ ids)) e (omega arith, d.0)

module _ (bsearch : ℕ → List ℕ → Option ℕ) where
  length-found_rows :
      (ids : List ℕ) (l : List Update) (rows : List ℕ)
      → found_rows bsearch ids l ≡ some rows
      → length rows ≡ length l
  unfolding found_rows
  length-found_rows ids [] rows h = ground arith
  length-found_rows ids (u ∷ l) rows h =
      let (row, found, h₁) = >>=-eq-some (bsearch u.id ids) _ h in
      let (rest, more, h₂) = >>=-eq-some (found_rows bsearch ids l) _ h₁ in
      ground (arith, h₂, length-found_rows ids l rest more)

  length-interleaved_rows :
      (k a : ℕ) (ids : List ℕ) (l : List Update) (rows : List ℕ)
      → interleaved_rows bsearch k a ids l ≡ some rows
      → length rows ≡ length l
  unfolding interleaved_rows
  length-interleaved_rows k a ids [] rows h = ground arith
  length-interleaved_rows k a ids (u ∷ l) rows h = elim (Bool-cases (ltb a u.id)) [
    | inl newer ↦
        let (rest, more, h₁) =
          >>=-eq-some (interleaved_rows bsearch (k + 1) a ids l) _ (rw newer at h) in
        ground (arith, h₁, length-interleaved_rows (k + 1) a ids l rest more)
    | inr older ↦ length-found_rows ids (u ∷ l) rows (rw older at h)
  ]

  pub dedup_updates-empty :
      (model : UpdateModel) (l : List Update)
      → (model.count == 0) ≡ true
      → dedup_updates bsearch model l ≡ l
  unfolding dedup_updates
  dedup_updates-empty model [] h = refl
  dedup_updates-empty model (u ∷ l) h = rw h (ap (λ t. u ∷ t) (dedup_updates-empty model l h))

  -- No update is in the model already.
  pub dedup_updates-new :
      (search : IsSearch bsearch) (model : UpdateModel) (l : List Update)
      → IsOrdered model
      → All (λ (v : Update). mem v.id model.current_ids ≡ false) l
      → dedup_updates bsearch model l ≡ l
  unfolding dedup_updates
  dedup_updates-new search model [] o all = refl
  dedup_updates-new search model (u ∷ l) o (new, all) =
      let out : id_in_model bsearch model u.id ≡ false =
        id_in_model-mem bsearch search model u.id o ∙ new in
      let rest = dedup_updates-new search model l o all in ground (arith, out, rest)

  module _ (qsort_updates : List Update → List Update) (qsort_ids : List ℕ → List ℕ)
      (insert_row : ℕ → Update → List Update → List Update) where
    pub prepend_updates-store_rows :
        (model m : UpdateModel) (l : List Update)
        → prepend_updates qsort_updates qsort_ids bsearch insert_row model l ≡ some m
        → store_rows qsort_updates qsort_ids bsearch insert_row model
            (length l)
            (ids_backwards l ++ model.current_ids)
            (row_zeros l)
            (dedup_updates bsearch model l)
          ≡ m
    unfolding prepend_updates add_to_current_ids
    prepend_updates-store_rows model m l h =
        elim (Bool-cases (is_descending (ids_backwards l ++ model.current_ids))) [
          | inl ok ↦ let done = rw ok at h in ground (arith, done)
          | inr bad ↦ let stopped = rw bad at h in ground (arith, stopped)
        ]

    module _ (insertion : IsInsertion insert_row) where
      -- As many rows and ids come in as there are updates.
      store_rows-IsShown :
          (model : UpdateModel) (ids rows : List ℕ) (l : List Update)
          → length rows ≡ length l
          → ((x : ℕ) → times x ids ≡ times x (row_ids l) + times x model.current_ids)
          → IsShown model
          → IsShown
              (store_rows qsort_updates qsort_ids bsearch insert_row model (length l) ids rows l)
      unfolding store_rows
      store_rows-IsShown model ids rows l full all shown =
          let (more, size) = insert_rows_lem insert_row insertion rows l model.store full in
          record {
            rows = λ x. omega (arith, more x, all x, shown.rows x);
            sized = omega (arith, size, shown.sized);
          }

      prepend_updates-IsShown :
          (model m : UpdateModel) (l : List Update)
          → dedup_updates bsearch model l ≡ l
          → IsShown model
          → prepend_updates qsort_updates qsort_ids bsearch insert_row model l ≡ some m
          → IsShown m
      prepend_updates-IsShown model m l newer_absent shown h =
          let ids = ids_backwards l ++ model.current_ids in
          let made = rw newer_absent at (prepend_updates-store_rows model m l h) in
          subst IsShown made (
            store_rows-IsShown model ids (row_zeros l) l (length-row_zeros l)
              (λ x. omega (
                arith,
                times-append x (ids_backwards l) model.current_ids,
                times-ids_backwards x l,
              ))
              shown)

      interleave_updates-IsShown :
          (sort : IsPermuting qsort_updates qsort_ids) (a : ℕ) (model m : UpdateModel)
          (l : List Update)
          → IsShown model
          → interleave_updates qsort_updates qsort_ids bsearch insert_row a model l ≡ some m
          → IsShown m
      unfolding interleave_updates add_to_current_ids
      interleave_updates-IsShown sort a model m l shown h =
          let dedup = dedup_updates bsearch model l in
          let dst = ids_backwards dedup ++ model.current_ids in
          let (rows, placed, made) =
            >>=-eq-some (interleaved_rows bsearch 0 a (qsort_ids dst) dedup) _ h in
          let same : store_rows qsort_updates qsort_ids bsearch insert_row model (length dedup)
                (qsort_ids dst) rows dedup
              ≡ m =
            ground (arith, made) in
          subst IsShown same (
            store_rows-IsShown model (qsort_ids dst) rows dedup
              (length-interleaved_rows 0 a (qsort_ids dst) dedup rows placed)
              (λ x. omega (
                arith,
                sort.ids dst x,
                times-append x (ids_backwards dedup) model.current_ids,
                times-ids_backwards x dedup,
              ))
              shown)

      add_sorted-IsShown :
          (search : IsSearch bsearch) (sort : IsPermuting qsort_updates qsort_ids)
          (model m : UpdateModel) (l : List Update)
          → IsOrdered model
          → Ascending l
          → IsShown model
          → add_sorted qsort_updates qsort_ids bsearch insert_row model l ≡ some m
          → IsShown m
      unfolding add_sorted
      add_sorted-IsShown search sort model m [] o asc shown h = ground arith
      add_sorted-IsShown search sort model m (u ∷ l) o asc shown h =
          elim (Bool-cases (model.count == 0)) [
            | inl empty ↦
                prepend_updates-IsShown model m (u ∷ l) (dedup_updates-empty model (u ∷ l) empty)
                  shown (rw empty at h)
            | inr filled ↦
                let (a, top, h₁) = >>=-eq-some (head model.current_ids) _ (rw filled at h) in
                elim (Bool-cases (ltb a u.id)) [
                  | inl newer ↦
                      let below : All (λ b. b ≤ a) model.current_ids =
                        head_below model.current_ids a o.descending top in
                      let new =
                        newer_absent a u.id model.current_ids (u ∷ l) below (ground arith)
                          (omega arith, asc.0) in
                      prepend_updates-IsShown model m (u ∷ l)
                        (dedup_updates-new search model (u ∷ l) o new) shown (rw newer at h₁)
                  | inr older ↦
                      interleave_updates-IsShown sort a model m (u ∷ l) shown (rw older at h₁)
                ]
          ]

      -- A call on a model with its ids in descending order, each shown in as many rows as it has
      -- places among the ids: no assertion fails, the model stays so, with a row for each place,
      -- and its ids are just those that were there or that an update has. `qsort`, `bsearch` and
      -- the list store are only asked to do what their manuals say.
      pub add_updates-IsShown :
          (search : IsSearch bsearch) (sort : IsSort qsort_updates qsort_ids)
          (moves : IsPermuting qsort_updates qsort_ids) (model : UpdateModel)
          (updates : List Update)
          → IsOrdered model
          → IsShown model
          → (m : UpdateModel) × (add_updates_to_model qsort_updates qsort_ids bsearch insert_row
                model updates
              ≡ some m)
            × IsAdded model updates m
            × IsShown m
      unfolding add_updates_to_model
      add_updates-IsShown search sort moves model [] o shown =
          (model, refl, record { ordered = o; all_ids = λ x. ground arith }, shown)
      add_updates-IsShown search sort moves model (u ∷ l) o shown =
          let (m, done, added) =
            add_updates-IsAdded bsearch search qsort_updates qsort_ids insert_row sort model (u ∷ l)
              o in
          (
            m,
            done,
            added,
            add_sorted-IsShown search moves model m (qsort_updates (u ∷ l)) o
                (sort.ascending (u ∷ l)) shown done,
          )
