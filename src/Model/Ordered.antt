-- ===== src/Model/Ordered.antt =====
-- The ids of the model stay in descending order, and nothing is lost.
use piiptyyt.Prelude.{
  ℕ, ◌≤◌, ◌≡◌, refl, Bool, true, false, ◌||◌, Option, none, some, List, [], ◌∷◌, ◌++◌, append_assoc,
  arith, length, length-append, All, ◌==◌, if◌then◌else◌,
}
use piiptyyt.PtCache.Nodes.{mem, mem-append}
use piiptyyt.Model.Updates.{Update, UpdateModel, ids_backwards, is_descending}

abbrev pub Descending : List ℕ → Type 0
Descending [] = Unit
Descending (a ∷ l) = All (λ b. b ≤ a) l × Descending l

-- The updates from the lowest id on.
abbrev pub Ascending : List Update → Type 0
Ascending [] = Unit
Ascending (u ∷ l) = All (λ (v : Update). u.id ≤ v.id) l × Ascending l

abbrev pub has_id : ℕ → List Update → Bool
has_id x [] = false
has_id x (u ∷ l) = if x == u.id then true else has_id x l

pub record IsOrdered (model : UpdateModel) : Type 0 where
  pub counted : model.count ≡ length model.current_ids
  pub descending : Descending model.current_ids

pub is_descending_lem : (l : List ℕ) → Descending l → is_descending l ≡ true
unfolding is_descending
is_descending_lem [] d = refl
is_descending_lem (a ∷ []) d = refl
is_descending_lem (a ∷ b ∷ l) ((le, _), d) = ground (arith, is_descending_lem (b ∷ l) d)

pub All-le : (a b : ℕ) (l : List ℕ) → a ≤ b → All (λ c. c ≤ a) l → All (λ c. c ≤ b) l
All-le a b [] h all = tt
All-le a b (c ∷ l) h (le, all) = (omega arith, All-le a b l h all)

-- The ids of updates that are above all of `old` go before them.
pub prepended-Descending :
    (l : List Update) (old : List ℕ)
    → Ascending l
    → Descending old
    → All (λ (u : Update). All (λ b. b ≤ u.id) old) l
    → Descending (ids_backwards l ++ old)
unfolding ids_backwards
prepended-Descending [] old asc d above = d
prepended-Descending (u ∷ l) old (first, asc) d (over, above) =
    rw (append_assoc (ids_backwards l) (u.id ∷ []) old)
      (prepended-Descending l (u.id ∷ old) asc (over, d) (both u.id old l first above))
  where
    both :
        (a : ℕ) (old : List ℕ) (l : List Update)
        → All (λ (v : Update). a ≤ v.id) l
        → All (λ (v : Update). All (λ b. b ≤ v.id) old) l
        → All (λ (v : Update). All (λ b. b ≤ v.id) (a ∷ old)) l
    both a old [] h₁ h₂ = tt
    both a old (v ∷ l) (h, h₁) (k, h₂) = ((h, k), both a old l h₁ h₂)

-- It is enough that the first is above the head.
pub ids_above :
    (a : ℕ) (old : List ℕ) (l : List Update)
    → All (λ b. b ≤ a) old
    → All (λ (v : Update). a ≤ v.id) l
    → All (λ (v : Update). All (λ b. b ≤ v.id) old) l
ids_above a old [] h all = tt
ids_above a old (v ∷ l) h (le, all) = (All-le a v.id old le h, ids_above a old l h all)

pub mem-ids_backwards : (x : ℕ) (l : List Update) → mem x (ids_backwards l) ≡ has_id x l
unfolding ids_backwards
mem-ids_backwards x [] = refl
mem-ids_backwards x (u ∷ l) =
    ground (arith, mem-append x (ids_backwards l) (u.id ∷ []), mem-ids_backwards x l)

pub length-ids_backwards : (l : List Update) → length (ids_backwards l) ≡ length l
unfolding ids_backwards
length-ids_backwards [] = refl
length-ids_backwards (u ∷ l) =
    ground (arith, length-append (ids_backwards l) (u.id ∷ []), length-ids_backwards l)

-- What an update of the model leaves.
pub record IsAdded (model : UpdateModel) (updates : List Update) (model' : UpdateModel)
    : Type 0 where
  pub ordered : IsOrdered model'
  pub all_ids : (x : ℕ) → mem x model'.current_ids ≡ (mem x model.current_ids || has_id x updates)

-- `qsort` and `bsearch` as the C standard describes them.
pub record IsSort (qsort_updates : List Update → List Update) (qsort_ids : List ℕ → List ℕ)
    : Type 0 where
  pub ascending : (l : List Update) → Ascending (qsort_updates l)
  pub same_updates : (l : List Update) (x : ℕ) → has_id x (qsort_updates l) ≡ has_id x l
  pub same_size : (l : List Update) → length (qsort_updates l) ≡ length l
  pub descending : (l : List ℕ) → Descending (qsort_ids l)
  pub same_ids : (l : List ℕ) (x : ℕ) → mem x (qsort_ids l) ≡ mem x l
  pub same_count : (l : List ℕ) → length (qsort_ids l) ≡ length l

pub record IsSearch (bsearch : ℕ → List ℕ → Option ℕ) : Type 0 where
  pub hit : (x : ℕ) (l : List ℕ) → Descending l → mem x l ≡ true → (i : ℕ) × (bsearch x l ≡ some i)
  pub miss : (x : ℕ) (l : List ℕ) → Descending l → mem x l ≡ false → bsearch x l ≡ none
