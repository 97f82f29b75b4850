-- ===== src/PtCache/State.antt =====
-- The state of a `PtCache`, and the operations on one item: `delist_item`, the toggle callback
-- and `pt_cache_get`. An address stands for a `struct cache_item`, a number for a `GObject`.
use piiptyyt.Prelude.{
  ℕ, ◌+◌, ◌-◌, ◌%◌, ◌^◌, Bool, true, not, ◌&&◌, Option, none, some, List, [], ◌∷◌, ◌++◌, length,
  ltb, ◌==◌, if◌then◌else◌, ◌>>=◌, ◌>>◌, assert,
}
use piiptyyt.Glib.HashTable.{HashTable}
use piiptyyt.PtCache.Nodes.{remove, next_of, follows}

-- `struct cache_item`; `link` is its address, and `parent` the cache at hand.
pub record Item (K : Type 0) : Type 0 where
  pub ref : ℕ
  pub key : K
  pub key_size : ℕ
  pub age : ℕ

-- `struct _pt_cache`. `items` is the memory of the items, `flush_fn` tells whether there is a
-- flush function, and `flushed` lists the objects that it was called with, the latest last.
pub record Cache (K Table : Type 0) : Type 0 where
  pub wm_low : ℕ
  pub wm_high : ℕ
  pub count : ℕ
  pub active_count : ℕ
  pub keys : Option Table
  pub active_list : List ℕ
  pub inactive_list : List ℕ
  pub repl_hand : Option ℕ
  pub flush_fn : Bool
  pub items : ℕ → Item K
  pub flushed : List ℕ

-- Arithmetic of `size_t`.
abbrev pub size_mod : ℕ
size_mod = 2 ^ 64

abbrev pub size_inc : ℕ → ℕ
size_inc n = (n + 1) % size_mod

abbrev pub size_sub : ℕ → ℕ → ℕ
size_sub a b = (a + size_mod - b) % size_mod

abbrev pub uint32_max : ℕ
uint32_max = 2 ^ 32 - 1

abbrev pub update : {K : Type 0} → (ℕ → Item K) → ℕ → Item K → ℕ → Item K
update f a v b = if b == a then v else f b

-- A test of the assertion in `delist_item`: no trace of the item at the hand.
unfoldable pub hand_is_clear : Option ℕ → ℕ → List ℕ → Bool
hand_is_clear none a xs = true
hand_is_clear (some h) a xs = not (h == a) && (not (follows h a xs) && not (follows a h xs))

-- The hand moves on if it stands at the item; behind the last item it becomes NULL.
unfoldable pub leave_hand : Option ℕ → ℕ → List ℕ → Option ℕ
leave_hand none a xs = none
leave_hand (some h) a xs = if h == a then next_of a xs else some h

-- The age of a hit, which stops at `UINT32_MAX`.
unfoldable pub older : ℕ → ℕ
older age = if ltb age uint32_max then age + 1 else age

module _ {K : Type 0} {Table : Type 0} where
  unfoldable pub delist_item : ℕ → Cache K Table → Option (Cache K Table)
  delist_item a c = do
    let hand = leave_hand c.repl_hand a c.inactive_list
    let inactive = remove a c.inactive_list
    assert (hand_is_clear hand a inactive)
    some (record c {
      active_list = remove a c.active_list;
      inactive_list = inactive;
      repl_hand = hand;
    })

  -- The call of the flush function, if there is one.
  unfoldable pub flush : List ℕ → Cache K Table → Cache K Table
  flush objects c = record c { flushed = if c.flush_fn then c.flushed ++ objects else c.flushed }

  unfoldable pub hit : ℕ → Cache K Table → Cache K Table
  hit a c = record c {
    items = update c.items a (record (c.items a) { age = older (c.items a).age });
  }

module _ {K : Type 0} (H : HashTable K ℕ) where
  open H use {Table, lookup}

  unfoldable pub lookup_item : Option Table → K → Option ℕ
  lookup_item none k = none
  lookup_item (some t) k = lookup k t

  -- `assert(g_hash_table_lookup(keys, item->key) == item)` and the removal.
  unfoldable pub forget_key : ℕ → Cache K Table → Option (Cache K Table)
  forget_key a c = elim c.keys [
    | none ↦ none
    | some t ↦ do
      let k = (c.items a).key
      b ← lookup k t
      assert (b == a)
      some (record c { keys = some (H.remove k t) })
  ]

  -- The branch for a last reference on an item of age 0. Keys are values: that the object, with a key
  -- that was not copied, may be gone before the key is used is not seen here.
  unfoldable pub drop_item : ℕ → Cache K Table → Option (Cache K Table)
  drop_item a c = do
    c₁ ← forget_key a (flush ((c.items a).ref ∷ []) c)
    some (record c₁ { count = size_sub c₁.count 1; active_count = size_sub c₁.active_count 1 })

  -- GLib passes the object that the toggle reference is on, which is `item->ref`.
  unfoldable pub toggle_last_ref_cb : ℕ → Bool → Cache K Table → Option (Cache K Table)
  toggle_last_ref_cb a is_last c = do
    c₁ ← delist_item a c
    c₂ ←
        (if not is_last
          then some (record c₁ {
            active_list = c₁.active_list ++ a ∷ [];
            active_count = size_inc c₁.active_count;
          })
          else if (c₁.items a).age == 0
          then drop_item a c₁
          else some (record c₁ {
            inactive_list = c₁.inactive_list ++ a ∷ [];
            active_count = size_sub c₁.active_count 1;
          }))
    assert (length c₂.active_list == c₂.active_count)
    some c₂

  -- The object found, or NULL, and the cache. A number stands for an object, so none is NULL.
  unfoldable pub pt_cache_get : K → Cache K Table → Option ℕ × Cache K Table
  pt_cache_get k c = elim (lookup_item c.keys k) [
    | none ↦ (none, c)
    | some a ↦ (some (c.items a).ref, hit a c)
  ]
