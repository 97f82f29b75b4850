-- ===== src/PtCache/Dispose.antt =====
-- `pt_cache_dispose` and `pt_cache_finalize`: the end of a `PtCache`.
use piiptyyt.Glib.HashTable.{HashTable}
use piiptyyt.PtCache.Replace.{max_replace, flush_items}
use piiptyyt.PtCache.State.{Cache}
use piiptyyt.Prelude.{
  take, drop, ℕ, zero, suc, Bool, true, false, Option, none, some, List, [], ◌∷◌, ◌++◌, length,
  if◌then◌else◌, ◌>>=◌, ◌>>◌, assert,
}

-- `flush_data` and its destructor. `destroyed` lists what the destructor was called with.
pub record FlushData : Type 0 where
  pub flush_data : Option ℕ
  pub flush_data_destroy_fn : Bool
  pub destroyed : List (Option ℕ)

abbrev pub is_unset : {A : Type 0} → Option A → Bool
is_unset none = true
is_unset (some _) = false

module _ {K : Type 0} {Table : Type 0} where
  unfoldable pub pt_cache_finalize : Cache K Table → FlushData → Option FlushData
  pt_cache_finalize c d = do
    assert (is_unset c.keys)
    some (
        if d.flush_data_destroy_fn
        then record {
          flush_data = none;
          flush_data_destroy_fn = false;
          destroyed = d.destroyed ++ d.flush_data ∷ [];
        }
        else d)

-- `same_key` tells of an item whether its `key` still is the pointer in the hash table.
module _ {K : Type 0} (H : HashTable K ℕ) (same_key : ℕ → Bool) where
  open H use {Table}

  -- The loop over the hash table; its assertion compares pointers.
  unfoldable pub collect_items : List (K × ℕ) → Option (List ℕ)
  collect_items [] = some []
  collect_items ((k, a) ∷ l) = do assert (same_key a); items ← collect_items l; some (a ∷ items)

  -- `items` are those from `i` on, and as much fuel is enough.
  unfoldable pub dispose_loop : ℕ → List ℕ → Cache K Table → Option (Cache K Table)
  dispose_loop fuel [] c = some c
  dispose_loop zero (a ∷ items) c = none
  dispose_loop (suc fuel) (a ∷ items) c = flush_items H (take max_replace (a ∷ items)) c >>= λ c'.
      dispose_loop fuel (drop max_replace (a ∷ items)) c'

  unfoldable pub dispose_table : Option Table → Cache K Table → Option (Cache K Table)
  dispose_table none c = some c
  dispose_table (some t) c = do
    items ← collect_items (H.entries t)
    dispose_loop (length items) items (record c { keys = none })

  unfoldable pub pt_cache_dispose : Cache K Table → Option (Cache K Table)
  pt_cache_dispose c = dispose_table c.keys c
