-- ===== src/Model/Sorts.antt =====
-- Insertion sorts, a linear search and the insertion of a row meet what the model asks of the
-- libraries. The tests run on them.
use piiptyyt.Model.Rows.{times, row_ids, IsPermuting, IsInsertion}
use piiptyyt.Model.InOrder.{IsFinding}
use piiptyyt.PtCache.Nodes.{mem}
use piiptyyt.Model.Updates.{Update}
use piiptyyt.Model.Ordered.{Descending, Ascending, All-le, has_id, IsSort, IsSearch}
use piiptyyt.Prelude.{
  ℕ, zero, suc, ◌+◌, ◌≤◌, ◌≡◌, refl, ap, ◌∙◌, inl, inr, true, false, Option, none, some, List, [],
  ◌∷◌, ◌++◌, arith, length, get_elem?, take, drop, All, leb, ◌==◌, if◌then◌else◌, Bool-cases,
  Option-cases, some-injective,
}

unfoldable pub insert_update : Update → List Update → List Update
insert_update u [] = u ∷ []
insert_update u (v ∷ l) =
    let rest = v ∷ insert_update u l in if leb u.id v.id then u ∷ v ∷ l else rest

unfoldable pub sort_updates : List Update → List Update
sort_updates [] = []
sort_updates (u ∷ l) = insert_update u (sort_updates l)

unfoldable pub insert_id : ℕ → List ℕ → List ℕ
insert_id a [] = a ∷ []
insert_id a (b ∷ l) = let rest = b ∷ insert_id a l in if leb b a then a ∷ b ∷ l else rest

unfoldable pub sort_ids : List ℕ → List ℕ
sort_ids [] = []
sort_ids (a ∷ l) = insert_id a (sort_ids l)

unfoldable pub index_of : ℕ → List ℕ → Option ℕ
index_of x [] = none
index_of x (a ∷ l) =
    let later = index_of x l in
    if x == a then some 0 else elim later [ none ↦ none | some i ↦ some (i + 1) ]

All-ge :
    (a b : ℕ) (l : List Update)
    → b ≤ a
    → All (λ (v : Update). a ≤ v.id) l
    → All (λ (v : Update). b ≤ v.id) l
All-ge a b [] h all = tt
All-ge a b (v ∷ l) h (le, all) = (omega arith, All-ge a b l h all)

All-insert_update :
    (a : ℕ) (u : Update) (l : List Update)
    → a ≤ u.id
    → All (λ (v : Update). a ≤ v.id) l
    → All (λ (v : Update). a ≤ v.id) (insert_update u l)
unfolding insert_update
All-insert_update a u [] h all = (h, tt)
All-insert_update a u (v ∷ l) h (le, all) = elim (Bool-cases (leb u.id v.id)) [
  | inl first ↦ rw first (h, (le, all))
  | inr later ↦ rw later (le, All-insert_update a u l h all)
]

insert_update-Ascending :
    (u : Update) (l : List Update) → Ascending l → Ascending (insert_update u l)
unfolding insert_update
insert_update-Ascending u [] asc = (tt, tt)
insert_update-Ascending u (v ∷ l) (le, asc) = elim (Bool-cases (leb u.id v.id)) [
  | inl first ↦ rw first ((ground arith, All-ge v.id u.id l (ground arith) le), (le, asc))
  | inr later ↦
      rw later (All-insert_update v.id u l (ground arith) le, insert_update-Ascending u l asc)
]

sort_updates-Ascending : (l : List Update) → Ascending (sort_updates l)
unfolding sort_updates
sort_updates-Ascending [] = tt
sort_updates-Ascending (u ∷ l) =
    insert_update-Ascending u (sort_updates l) (sort_updates-Ascending l)

has_id-insert_update :
    (x : ℕ) (u : Update) (l : List Update)
    → (has_id x (insert_update u l) ≡ has_id x (u ∷ l))
      × (length (insert_update u l) ≡ length l + 1)
unfolding insert_update
has_id-insert_update x u [] = (refl, refl)
has_id-insert_update x u (v ∷ l) =
    let (same, more) = has_id-insert_update x u l in (ground (arith, same), ground (arith, more))

has_id-sort_updates :
    (l : List Update) (x : ℕ)
    → (has_id x (sort_updates l) ≡ has_id x l) × (length (sort_updates l) ≡ length l)
unfolding sort_updates
has_id-sort_updates [] x = (refl, refl)
has_id-sort_updates (u ∷ l) x =
    let (same, size) = has_id-sort_updates l x in
    let (same', more) = has_id-insert_update x u (sort_updates l) in
    (ground (arith, same, same'), omega (arith, size, more))

All-insert_id :
    (a b : ℕ) (l : List ℕ) → b ≤ a → All (λ c. c ≤ a) l → All (λ c. c ≤ a) (insert_id b l)
unfolding insert_id
All-insert_id a b [] h all = (h, tt)
All-insert_id a b (c ∷ l) h (le, all) = elim (Bool-cases (leb c b)) [
  | inl first ↦ rw first (h, (le, all))
  | inr later ↦ rw later (le, All-insert_id a b l h all)
]

insert_id-Descending : (a : ℕ) (l : List ℕ) → Descending l → Descending (insert_id a l)
unfolding insert_id
insert_id-Descending a [] d = (tt, tt)
insert_id-Descending a (b ∷ l) (le, d) = elim (Bool-cases (leb b a)) [
  | inl first ↦ rw first ((ground arith, All-le b a l (ground arith) le), (le, d))
  | inr later ↦ rw later (All-insert_id b a l (ground arith) le, insert_id-Descending a l d)
]

sort_ids-Descending : (l : List ℕ) → Descending (sort_ids l)
unfolding sort_ids
sort_ids-Descending [] = tt
sort_ids-Descending (a ∷ l) = insert_id-Descending a (sort_ids l) (sort_ids-Descending l)

mem-insert_id :
    (x a : ℕ) (l : List ℕ)
    → (mem x (insert_id a l) ≡ mem x (a ∷ l)) × (length (insert_id a l) ≡ length l + 1)
unfolding insert_id
mem-insert_id x a [] = (refl, refl)
mem-insert_id x a (b ∷ l) =
    let (same, more) = mem-insert_id x a l in (ground (arith, same), ground (arith, more))

mem-sort_ids :
    (l : List ℕ) (x : ℕ) → (mem x (sort_ids l) ≡ mem x l) × (length (sort_ids l) ≡ length l)
unfolding sort_ids
mem-sort_ids [] x = (refl, refl)
mem-sort_ids (a ∷ l) x =
    let (same, size) = mem-sort_ids l x in
    let (same', more) = mem-insert_id x a (sort_ids l) in
    (ground (arith, same, same'), omega (arith, size, more))

pub sorts : IsSort sort_updates sort_ids
sorts = record {
  ascending = sort_updates-Ascending;
  same_updates = λ l x. (has_id-sort_updates l x).0;
  same_size = λ l. (has_id-sort_updates l 0).1;
  descending = sort_ids-Descending;
  same_ids = λ l x. (mem-sort_ids l x).0;
  same_count = λ l. (mem-sort_ids l 0).1;
}

index_of-hit : (x : ℕ) (l : List ℕ) → mem x l ≡ true → (i : ℕ) × (index_of x l ≡ some i)
unfolding index_of
index_of-hit x [] h = ground arith
index_of-hit x (a ∷ l) h = elim (Bool-cases (x == a)) [
  | inl here ↦ (0, rw here)
  | inr there ↦ let (i, found) = index_of-hit x l (ground arith) in (i + 1, rw (there, found))
]

index_of-miss : (x : ℕ) (l : List ℕ) → mem x l ≡ false → index_of x l ≡ none
unfolding index_of
index_of-miss x [] h = refl
index_of-miss x (a ∷ l) h = ground (arith, index_of-miss x l)

pub searches : IsSearch index_of
searches = record { hit = λ x l d h. index_of-hit x l h; miss = λ x l d h. index_of-miss x l h }

-- A row at a position, or behind the last one.
unfoldable pub insert_at : ℕ → Update → List Update → List Update
insert_at zero u store = u ∷ store
insert_at (suc n) u [] = u ∷ []
insert_at (suc n) u (v ∷ store) = v ∷ insert_at n u store

times-insert_id : (x a : ℕ) (l : List ℕ) → times x (insert_id a l) ≡ times x (a ∷ l)
unfolding insert_id
times-insert_id x a [] = refl
times-insert_id x a (b ∷ l) = ground (arith, times-insert_id x a l)

times-sort_ids : (l : List ℕ) (x : ℕ) → times x (sort_ids l) ≡ times x l
unfolding sort_ids
times-sort_ids [] x = refl
times-sort_ids (a ∷ l) x = ground (arith, times-insert_id x a (sort_ids l), times-sort_ids l x)

times-insert_update :
    (x : ℕ) (u : Update) (l : List Update)
    → times x (row_ids (insert_update u l)) ≡ times x (row_ids (u ∷ l))
unfolding insert_update
times-insert_update x u [] = refl
times-insert_update x u (v ∷ l) = elim (Bool-cases (leb u.id v.id)) [
  | inl first ↦ rw first refl
  | inr later ↦ rw later (ground (arith, times-insert_update x u l))
]

times-sort_updates :
    (l : List Update) (x : ℕ) → times x (row_ids (sort_updates l)) ≡ times x (row_ids l)
unfolding sort_updates
times-sort_updates [] x = refl
times-sort_updates (u ∷ l) x =
    ground (arith, times-insert_update x u (sort_updates l), times-sort_updates l x)

pub permutes : IsPermuting sort_updates sort_ids
permutes = record { updates = times-sort_updates; ids = times-sort_ids }

index_of-get_elem? : (x : ℕ) (l : List ℕ) (i : ℕ) → index_of x l ≡ some i → get_elem? l i ≡ some x
unfolding index_of
index_of-get_elem? x [] i h = ground arith
index_of-get_elem? x (a ∷ l) zero h = elim (Bool-cases (x == a)) [
  | inl here ↦ ground arith
  | inr there ↦ elim (Option-cases (index_of x l)) [
    | inl gone ↦ absurd (let h' = rw (there, gone) at h in ground arith)
    | inr (j, found) ↦
        absurd (let h' = some-injective (rw (there, found) at h) in omega (arith, h'))
  ]
]
index_of-get_elem? x (a ∷ l) (suc i) h = elim (Bool-cases (x == a)) [
  | inl here ↦ absurd (let h' = some-injective (rw here at h) in omega (arith, h'))
  | inr there ↦ elim (Option-cases (index_of x l)) [
    | inl gone ↦ absurd (let h' = rw (there, gone) at h in ground arith)
    | inr (j, found) ↦
        let h' = some-injective (rw (there, found) at h) in
        let e : j ≡ i = omega (arith, h') in index_of-get_elem? x l i (found ∙ ap some e)
  ]
]

pub finds : IsFinding index_of
finds = record { found_at = index_of-get_elem? }

insert_at-placed :
    (k : ℕ) (u : Update) (store : List Update)
    → insert_at k u store ≡ take k store ++ u ∷ drop k store
unfolding insert_at
insert_at-placed zero u store = refl
insert_at-placed (suc k) u [] = refl
insert_at-placed (suc k) u (v ∷ store) = ap (λ l. v ∷ l) (insert_at-placed k u store)

pub insertion : IsInsertion insert_at
insertion = record { placed = insert_at-placed }
