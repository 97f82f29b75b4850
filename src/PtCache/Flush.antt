-- ===== src/PtCache/Flush.antt =====
-- `flush_items`: the items of the batch are gone, and everything else stays.
use piiptyyt.Glib.HashTable.{HashTable}
use piiptyyt.PtCache.Nodes.{mem, Nodup, remove_absent}
use piiptyyt.PtCache.Batches.{remove_all, AllIn, AllIn-remove, length-remove_all}
use piiptyyt.PtCache.State.{Cache, size_sub, flush, leave_hand}
use piiptyyt.PtCache.Invariant.{
  is_node, IsLinked, delisted, delist_item-delisted, delisted-IsLinked, table_size, IsIndexed,
  IsValid,
}
use piiptyyt.PtCache.Drop.{lookup_item_table, forget_key_lem, forgotten, forgotten-IsIndexed}
use piiptyyt.PtCache.Replace.{max_replace, forget_if_keyed, flush_each, flush_batch, flush_items}
use piiptyyt.Prelude.{
  ℕ, suc, ◌+◌, ◌-◌, ◌≤◌, ◌≡◌, refl, ap, ◌∙◌, true, false, Option, none, some, List, [], ◌∷◌, ◌++◌,
  map, append-nil, arith, length, leb, ◌==◌, if◌then◌else◌,
}

module _ {K : Type 0} (H : HashTable K ℕ) where
  open H use {Table, lookup}

  -- What a batch changes.
  pub record IsFlushed (gone : List ℕ) (c c' : Cache K Table) : Type 0 where
    pub active : c'.active_list ≡ c.active_list
    pub inactive : c'.inactive_list ≡ remove_all gone c.inactive_list
    pub items : c'.items ≡ c.items
    pub count : c'.count ≡ c.count
    pub active_count : c'.active_count ≡ c.active_count
    pub low : c'.wm_low ≡ c.wm_low
    pub high : c'.wm_high ≡ c.wm_high
    pub linked : IsLinked c'
    pub index : IsIndexed H c'.keys c'.items (λ b. is_node b c')
    pub sized : table_size H c'.keys + length gone ≡ table_size H c.keys
    pub hand : (h : ℕ) → c.repl_hand ≡ some h → mem h gone ≡ false → c'.repl_hand ≡ some h
    pub log : c'.flushed ≡ c.flushed

  leave_hand_ne :
      (hand : Option ℕ) (a h : ℕ) (xs : List ℕ)
      → hand ≡ some h
      → (h == a) ≡ false
      → leave_hand hand a xs ≡ some h
  unfolding leave_hand
  leave_hand_ne none a h xs e n = ground arith
  leave_hand_ne (some b) a h xs e n = ground arith

  forget_if_keyed_lem :
      (a : ℕ) (c : Cache K Table) (t : Table)
      → c.keys ≡ some t
      → lookup (c.items a).key t ≡ some a
      → forget_if_keyed H a c ≡ some (record c { keys = some (H.remove (c.items a).key t) })
  unfolding forget_if_keyed
  forget_if_keyed_lem a c t keyed found = ground (arith, forget_key_lem H a c t keyed found)

  flush_each-IsFlushed :
      (gone : List ℕ) (c : Cache K Table)
      → IsLinked c
      → IsIndexed H c.keys c.items (λ b. is_node b c)
      → Nodup gone
      → AllIn c.inactive_list gone
      → (c' : Cache K Table) × (flush_each H gone c ≡ some c') × IsFlushed gone c c'
  unfolding flush_each remove_all
  flush_each-IsFlushed [] c l i d all = (
    c,
    refl,
    record {
      active = refl;
      inactive = refl;
      items = refl;
      count = refl;
      active_count = refl;
      low = refl;
      high = refl;
      linked = l;
      index = i;
      sized = omega arith;
      hand = λ h e _. e;
      log = refl;
    },
  )
  flush_each-IsFlushed (a ∷ gone) c l i d (here, all) =
      let node : is_node a c ≡ true = ground arith in
      let (t, keyed, found) = lookup_item_table H c.keys (c.items a).key a (i.indexed a node) in
      let keyed_step : forget_if_keyed H a (delisted a c) ≡ some (forgotten H a t c) =
        forget_if_keyed_lem a (delisted a c) t keyed found in
      let idle : mem a c.active_list ≡ false = ground (arith, l.apart a) in
      let (c', done, f) =
        flush_each-IsFlushed gone (forgotten H a t c) (delisted-IsLinked a c l)
          (forgotten-IsIndexed H a c t l node keyed i) d.1
          (AllIn-remove a gone c.inactive_list d.0 all) in
      (
        c',
        rw (delist_item-delisted a c l, keyed_step) done,
        record {
          active = f.active ∙ remove_absent a c.active_list idle;
          inactive = f.inactive;
          items = f.items;
          count = f.count;
          active_count = f.active_count;
          low = f.low;
          high = f.high;
          linked = f.linked;
          index = f.index;
          sized =
              omega
                (arith, f.sized, H.size-remove (c.items a).key a t found, ap (table_size H) keyed);
          hand = λ h e n.
              f.hand h (leave_hand_ne c.repl_hand a h c.inactive_list e (ground arith))
                (ground arith);
          log = f.log;
        },
      )

  -- A batch of inactive items has left the cache: its objects went to the flush function in one
  -- call, the order of the other items and the active list stay, and the invariant holds.
  pub record IsEvicted (gone : List ℕ) (c c' : Cache K Table) : Type 0 where
    pub valid : IsValid H c'
    pub active : c'.active_list ≡ c.active_list
    pub inactive : c'.inactive_list ≡ remove_all gone c.inactive_list
    pub items : c'.items ≡ c.items
    pub low : c'.wm_low ≡ c.wm_low
    pub high : c'.wm_high ≡ c.wm_high
    pub hand : (h : ℕ) → c.repl_hand ≡ some h → mem h gone ≡ false → c'.repl_hand ≡ some h
    pub log :
        c'.flushed
        ≡ (if c.flush_fn then c.flushed ++ map (λ b. (c.items b).ref) gone else c.flushed)

  -- Up to 128 different inactive items of a valid cache are evicted with no failed assertion.
  pub flush_items-IsEvicted :
      (gone : List ℕ) (c : Cache K Table)
      → IsValid H c
      → Nodup gone
      → AllIn c.inactive_list gone
      → length gone ≤ max_replace
      → (c' : Cache K Table) × (flush_items H gone c ≡ some c') × IsEvicted gone c c'
  unfolding flush_items flush_batch flush
  flush_items-IsEvicted [] c v d all short =
      let any : leb 0 c.count ≡ true = ground arith in
      (
        c,
        rw any,
        record {
          valid = v;
          active = refl;
          inactive = unfold remove_all in refl;
          items = refl;
          low = refl;
          high = refl;
          hand = λ h e _. e;
          log = ground (arith, append-nil c.flushed);
        },
      )
  flush_items-IsEvicted (a ∷ gone) c v d all short =
      let n = suc (length gone) in
      let log =
        if c.flush_fn then c.flushed ++ map (λ b. (c.items b).ref) (a ∷ gone) else c.flushed in
      let (c', done, f) =
        flush_each-IsFlushed (a ∷ gone) (record c { flushed = log }) v.linked v.index d all in
      let sum = length-remove_all (a ∷ gone) c.inactive_list d all in
      let small : leb n max_replace ≡ true = ground arith in
      let few : leb n c.count ≡ true = ground (arith, sum, v.counts.counted) in
      let some_item : (n == 0) ≡ false = ground arith in
      let less : size_sub c'.count n ≡ c.count - n =
        omega (arith, f.count, sum, v.counts.counted, v.counts.small) in
      (
        record c' { count = c.count - n },
        rw (small, few, some_item, done, less),
        record {
          valid = record {
            linked = f.linked;
            counts = record {
              counted =
                  omega (arith, ap length f.active, ap length f.inactive, sum, v.counts.counted);
              actives = omega (arith, ap length f.active, f.active_count, v.counts.actives);
              small = omega (arith, v.counts.small);
            };
            index = f.index;
            sized = omega (arith, f.sized, v.sized);
          };
          active = f.active;
          inactive = f.inactive;
          items = f.items;
          low = f.low;
          high = f.high;
          hand = f.hand;
          log = f.log;
        },
      )
