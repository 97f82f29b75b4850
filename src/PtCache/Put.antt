-- ===== src/PtCache/Put.antt =====
-- `pt_cache_put`.
use piiptyyt.Glib.HashTable.{HashTable}
use piiptyyt.PtCache.State.{
  Item, Cache, size_inc, update, flush, delist_item, lookup_item, toggle_last_ref_cb,
}
use piiptyyt.PtCache.Invariant.{table_size}
use piiptyyt.PtCache.Replace.{pt_cache_replace_full}
use piiptyyt.Prelude.{
  ℕ, ◌+◌, Bool, true, Option, none, some, [], ◌∷◌, ◌++◌, length, leb, ◌==◌, if◌then◌else◌, ◌>>=◌,
  ◌>>◌, assert,
}

-- The arguments of a call, and whether the object is floating, as it is when its only reference
-- is taken over by the cache.
pub record Insertion (K : Type 0) : Type 0 where
  pub key : K
  pub key_size : ℕ
  pub object : ℕ
  pub floating : Bool

-- The item as the call leaves it.
abbrev pub new_item : {K : Type 0} → Insertion K → Item K
new_item p = record { ref = p.object; key = p.key; key_size = p.key_size; age = 1 }

-- `alloc` stands for `g_slice_new`: an address for a new item.
module _ {K : Type 0} (H : HashTable K ℕ) (alloc : Cache K H.Table → ℕ) where
  open H use {Table}

  -- The table is made by the first call.
  unfoldable pub table_or_new : Option Table → Table
  table_or_new none = H.new
  table_or_new (some t) = t

  -- From `item->key_size = …` on, with the hash table as it is by then. Dropping the reference of
  -- a floating object makes the cache's reference the last one, so the callback comes at once.
  unfoldable pub link_item : ℕ → Insertion K → Cache K Table → Option (Cache K Table)
  link_item a p c = do
    let c₁ : Cache K Table = record c {
      items = update c.items a (new_item p);
      active_list = c.active_list ++ a ∷ [];
      active_count = size_inc c.active_count;
    }
    c₂ ← (if p.floating then toggle_last_ref_cb H a true c₁ else some c₁)
    assert (table_size H c₂.keys == c₂.count)
    assert (length c₂.active_list + length c₂.inactive_list == c₂.count)
    some c₂

  -- The key is there: its slot is used again. The code frees a key that was copied, which the hash
  -- table keeps; a key is a value here, so the model is the code only for a key that was not copied,
  -- or as long as the table does not read that key again.
  unfoldable pub recycle : ℕ → Insertion K → Cache K Table → Option (Cache K Table)
  recycle a p c = do c₁ ← delist_item a (flush ((c.items a).ref ∷ []) c); link_item a p c₁

  unfoldable pub make_room : Cache K Table → Option (Cache K Table)
  make_room c = if leb c.wm_high c.count then pt_cache_replace_full H c else some c

  unfoldable pub insert_item : Table → ℕ → Insertion K → Cache K Table → Option (Cache K Table)
  insert_item t a p c =
      link_item a p (record c { count = size_inc c.count; keys = some (H.insert p.key a t) })

  -- The key is new.
  unfoldable pub add_item : Insertion K → Cache K Table → Option (Cache K Table)
  add_item p c = do c₁ ← make_room c; insert_item (table_or_new c₁.keys) (alloc c₁) p c₁

  unfoldable pub pt_cache_put : Insertion K → Cache K Table → Option (Cache K Table)
  pt_cache_put p c =
      let c₁ : Cache K Table = record c { keys = some (table_or_new c.keys) } in
      elim (lookup_item H c₁.keys p.key) [ none ↦ add_item p c₁ | some a ↦ recycle a p c₁ ]
