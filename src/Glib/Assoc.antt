-- ===== src/Glib/Assoc.antt =====
-- An association list meets the contract of `GHashTable`, at any type of keys. The tests run on it.
use mathlib.Core.Logic.{ite, if_pos, if_neg}
use piiptyyt.Glib.HashTable.{HashTable, find, Distinct}
use piiptyyt.Prelude.{◌+◌, ◌≡◌, refl, sym, ap, ◌∙◌, ◌≢◌, none, some, List, [], ◌∷◌, arith, length}

module _ {K V : Type 0} (dec : Discrete K) where
  unfoldable pub erase : K → List (K × V) → List (K × V)
  erase k [] = []
  erase k ((j, v) ∷ l) = let rest = erase k l in ite (dec j k) rest ((j, v) ∷ rest)

  unfoldable pub dedup : List (K × V) → List (K × V)
  dedup [] = []
  dedup ((k, v) ∷ l) = (k, v) ∷ erase k (dedup l)

  pub find-erase_self : (k : K) (l : List (K × V)) → find dec k (erase k l) ≡ none
  unfolding find erase
  find-erase_self k [] = refl
  find-erase_self k ((j, v) ∷ l) = ground (arith, find-erase_self k l)

  pub find-erase_ne : (k j : K) (l : List (K × V)) → k ≢ j → find dec j (erase k l) ≡ find dec j l
  unfolding find erase
  find-erase_ne k j [] h = refl
  find-erase_ne k j ((i, v) ∷ l) h = ground (arith, find-erase_ne k j l)

  erase_absent : (k : K) (l : List (K × V)) → find dec k l ≡ none → erase k l ≡ l
  unfolding find erase
  erase_absent k [] h = refl
  erase_absent k ((j, v) ∷ l) h = ground (arith, erase_absent k l)

  erase_comm : (j k : K) (l : List (K × V)) → erase j (erase k l) ≡ erase k (erase j l)
  unfolding erase
  erase_comm j k [] = refl
  erase_comm j k ((i, v) ∷ l) = ground (arith, erase_comm j k l)

  dedup-erase : (k : K) (l : List (K × V)) → dedup (erase k l) ≡ erase k (dedup l)
  unfolding erase dedup
  dedup-erase k [] = refl
  dedup-erase k ((j, v) ∷ l) = elim (dec j k) [
    | yes e ↦ ground (
      arith,
      dedup-erase k l,
      ap (λ x. erase x (dedup l)) e,
      erase_absent k (erase k (dedup l)) (find-erase_self k (dedup l)),
    )
    | no n ↦ ground (arith, dedup-erase k l, erase_comm j k (dedup l))
  ]

  pub find-dedup : (k : K) (l : List (K × V)) → find dec k (dedup l) ≡ find dec k l
  unfolding find dedup
  find-dedup k [] = refl
  find-dedup k ((j, v) ∷ l) = ground (arith, find-dedup k l, find-erase_ne j k (dedup l))

  erase-Distinct : (k : K) (l : List (K × V)) → Distinct dec l → Distinct dec (erase k l)
  unfolding erase
  erase-Distinct k [] d = tt
  erase-Distinct k ((j, v) ∷ l) (new, d) = elim (dec j k) [
    | yes e ↦ rw (if_pos _ e) (erase-Distinct k l d)
    | no n ↦ rw (if_neg _ n) (find-erase_ne k j l (λ e. n (sym e)) ∙ new, erase-Distinct k l d)
  ]

  pub dedup-Distinct : (l : List (K × V)) → Distinct dec (dedup l)
  unfolding dedup
  dedup-Distinct [] = tt
  dedup-Distinct ((k, v) ∷ l) =
      (find-erase_self k (dedup l), erase-Distinct k (dedup l) (dedup-Distinct l))

  length-erase :
      (k : K) (v : V) (l : List (K × V))
      → Distinct dec l
      → find dec k l ≡ some v
      → length (erase k l) + 1 ≡ length l
  unfolding find erase
  length-erase k v [] d h = cc
  length-erase k v ((j, w) ∷ l) (new, d) h = elim (dec j k) [
    | yes e ↦ ground (arith, erase_absent k l (sym (ap (λ x. find dec x l) e) ∙ new))
    | no n ↦ ground (arith, length-erase k v l d)
  ]

  pub find-insert_self : (k : K) (v : V) (l : List (K × V)) → find dec k ((k, v) ∷ l) ≡ some v
  unfolding find
  find-insert_self k v l = if_pos (dec k k) refl (some v) (find dec k l)

  pub find-insert_ne :
      (k j : K) (v : V) (l : List (K × V)) → k ≢ j → find dec j ((k, v) ∷ l) ≡ find dec j l
  unfolding find
  find-insert_ne k j v l h = if_neg (dec k j) h (some v) (find dec j l)

  pub size-cons :
      (k : K) (v : V) (l : List (K × V))
      → find dec k l ≡ none
      → length (dedup ((k, v) ∷ l)) ≡ length (dedup l) + 1
  unfolding dedup
  size-cons k v l h = rw (erase_absent k (dedup l) (find-dedup k l ∙ h)) (omega arith)

  pub size-erase :
      (k : K) (v : V) (l : List (K × V))
      → find dec k l ≡ some v
      → length (dedup (erase k l)) + 1 ≡ length (dedup l)
  size-erase k v l h =
      rw (dedup-erase k l) (length-erase k v (dedup l) (dedup-Distinct l) (find-dedup k l ∙ h))

pub find-nil : {K : Type 0} (V : Type 0) (dec : Discrete K) (k : K) → find {V = V} dec k [] ≡ none
unfolding find
find-nil V dec k = refl

pub size-nil : {K : Type 0} (V : Type 0) (dec : Discrete K) → length (dedup {V = V} dec []) ≡ 0
unfolding dedup
size-nil V dec = refl

module _ {K V : Type 0} (dec : Discrete K) where
  abbrev pub assoc : HashTable K V
  assoc = record {
    Table = List (K × V);
    key_discrete = dec;
    new = [];
    lookup = find dec;
    insert = λ k v l. (k, v) ∷ l;
    remove = erase dec;
    size = λ l. length (dedup dec l);
    entries = dedup dec;
    lookup-new = find-nil V dec;
    lookup-insert_self = find-insert_self dec;
    lookup-insert_ne = find-insert_ne dec;
    lookup-remove_self = find-erase_self dec;
    lookup-remove_ne = find-erase_ne dec;
    size-new = size-nil V dec;
    size-insert = size-cons dec;
    size-remove = size-erase dec;
    find-entries = find-dedup dec;
    entries-Distinct = dedup-Distinct dec;
  }
