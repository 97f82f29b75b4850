-- ===== src/Glib/HashTable.antt =====
-- The contract of `GHashTable`, as the GLib manual gives it. Keys are told apart by the
-- `equal_fn` of the table; a lookup gives `none` where it gives NULL for a key that is absent.
use mathlib.Core.Logic.{ite}
use piiptyyt.Prelude.{ℕ, ◌+◌, ◌≡◌, ◌≢◌, Option, none, some, List, [], ◌∷◌}

module _ {K V : Type 0} (dec : Discrete K) where
  -- The value of the first entry with the key.
  unfoldable pub find : K → List (K × V) → Option V
  find k [] = none
  find k ((j, v) ∷ l) = ite (dec j k) (some v) (find k l)

  abbrev pub Distinct : List (K × V) → Type 0
  Distinct [] = Unit
  Distinct ((k, v) ∷ l) = (find k l ≡ none) × Distinct l

pub record HashTable (K V : Type 0) : Type 1 where
  pub Table : Type 0
  pub key_discrete : Discrete K
  pub new : Table
  pub lookup : K → Table → Option V
  pub insert : K → V → Table → Table
  pub remove : K → Table → Table
  pub size : Table → ℕ
  -- The entries in the order of an iteration, which is left open.
  pub entries : Table → List (K × V)
  pub lookup-new : (k : K) → lookup k new ≡ none
  pub lookup-insert_self : (k : K) (v : V) (t : Table) → lookup k (insert k v t) ≡ some v
  pub lookup-insert_ne :
      (k j : K) (v : V) (t : Table) → k ≢ j → lookup j (insert k v t) ≡ lookup j t
  pub lookup-remove_self : (k : K) (t : Table) → lookup k (remove k t) ≡ none
  pub lookup-remove_ne : (k j : K) (t : Table) → k ≢ j → lookup j (remove k t) ≡ lookup j t
  pub size-new : size new ≡ 0
  pub size-insert :
      (k : K) (v : V) (t : Table) → lookup k t ≡ none → size (insert k v t) ≡ size t + 1
  pub size-remove :
      (k : K) (v : V) (t : Table) → lookup k t ≡ some v → size (remove k t) + 1 ≡ size t
  pub find-entries : (k : K) (t : Table) → find key_discrete k (entries t) ≡ lookup k t
  pub entries-Distinct : (t : Table) → Distinct key_discrete (entries t)
