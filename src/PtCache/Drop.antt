-- ===== src/PtCache/Drop.antt =====
-- How an item leaves a `PtCache`: off its list and out of the hash table.
use piiptyyt.Glib.HashTable.{HashTable}
use piiptyyt.PtCache.Nodes.{
  mem, remove, mem-remove_self, mem-remove_ne, length-remove, remove_absent,
}
use piiptyyt.PtCache.State.{
  Cache, size_sub, flush, lookup_item, forget_key, drop_item, toggle_last_ref_cb,
}
use piiptyyt.PtCache.Invariant.{
  is_node, IsLinked, delisted, delist_item-delisted, delisted-IsLinked, table_size, IsIndexed,
  IsValid,
}
use piiptyyt.PtCache.Index.{IsIndexed-ext, IsIndexed-remove}
use piiptyyt.Prelude.{
  ℕ, ◌-◌, ◌≡◌, refl, ap, inl, inr, true, not, ◌&&◌, Option, none, some, [], ◌∷◌, ◌++◌, arith,
  length, ◌==◌, if◌then◌else◌, Bool-cases,
}

pub is_node-delisted :
    {K Table : Type 0} (a b : ℕ) (c : Cache K Table)
    → IsLinked c
    → is_node b (delisted a c) ≡ (is_node b c && not (b == a))
is_node-delisted a b c l = elim (Bool-cases (b == a)) [
  | inl here ↦
      let e : b ≡ a = ground arith in
      ground (
        arith,
        ap (λ x. mem x (remove a c.active_list)) e,
        ap (λ x. mem x (remove a c.inactive_list)) e,
        mem-remove_self a c.active_list l.active_nodup,
        mem-remove_self a c.inactive_list l.inactive_nodup,
      )
  | inr there ↦ ground (arith, mem-remove_ne a b c.active_list, mem-remove_ne a b c.inactive_list)
]

module _ {K : Type 0} (H : HashTable K ℕ) where
  open H use {Table, lookup}

  pub lookup_item_table :
      (keys : Option Table) (k : K) (a : ℕ)
      → lookup_item H keys k ≡ some a
      → (t : Table) × (keys ≡ some t) × (lookup k t ≡ some a)
  unfolding lookup_item
  lookup_item_table none k a h = ground arith
  lookup_item_table (some t) k a h = (t, refl, h)

  pub forget_key_lem :
      (a : ℕ) (c : Cache K Table) (t : Table)
      → c.keys ≡ some t
      → lookup (c.items a).key t ≡ some a
      → forget_key H a c ≡ some (record c { keys = some (H.remove (c.items a).key t) })
  unfolding forget_key
  forget_key_lem a c t e found =
      let same : (a == a) ≡ true = ground arith in rw (e, forget_key) (rw found (rw same))

  -- The item is off its list and out of the hash table.
  abbrev pub forgotten : ℕ → Table → Cache K Table → Cache K Table
  forgotten a t c = record (delisted a c) { keys = some (H.remove (c.items a).key t) }

  pub forgotten-IsIndexed :
      (a : ℕ) (c : Cache K Table) (t : Table)
      → IsLinked c
      → is_node a c ≡ true
      → c.keys ≡ some t
      → IsIndexed H c.keys c.items (λ b. is_node b c)
      → IsIndexed H (some (H.remove (c.items a).key t)) c.items (λ b. is_node b (delisted a c))
  forgotten-IsIndexed a c t l node keyed i =
      IsIndexed-ext H (some (H.remove (c.items a).key t)) c.items _ _
        (λ b. is_node-delisted a b c l)
        (IsIndexed-remove H t c.items (λ b. is_node b c) a node (rw keyed at i))

  -- The cache without the item, whose object went to the flush function, if there is one.
  abbrev pub dropped : ℕ → Table → Cache K Table → Cache K Table
  dropped a t c = record (delisted a c) {
    keys = some (H.remove (c.items a).key t);
    count = c.count - 1;
    active_count = c.active_count - 1;
    flushed = if c.flush_fn then c.flushed ++ (c.items a).ref ∷ [] else c.flushed;
  }

  -- The last reference to an active item of age 0: no assertion fails, the item is flushed, its
  -- key is forgotten, and the invariant is kept.
  pub toggle-dropped :
      (a : ℕ) (c : Cache K Table)
      → IsValid H c
      → mem a c.active_list ≡ true
      → (c.items a).age ≡ 0
      → (t : Table) × (c.keys ≡ some t)
        × (toggle_last_ref_cb H a true c ≡ some (dropped a t c))
        × IsValid H (dropped a t c)
  unfolding toggle_last_ref_cb drop_item flush
  toggle-dropped a c v here old =
      let node : is_node a c ≡ true = ground arith in
      let (t, keyed, found) = lookup_item_table c.keys (c.items a).key a (v.index.indexed a node) in
      let young : ((c.items a).age == 0) ≡ true = ground arith in
      let fewer = length-remove a c.active_list here in
      let e₁ : size_sub c.active_count 1 ≡ c.active_count - 1 =
        omega (arith, v.counts.actives, v.counts.counted, v.counts.small) in
      let e₂ : size_sub c.count 1 ≡ c.count - 1 =
        omega (arith, v.counts.actives, v.counts.counted, v.counts.small) in
      let kept : (length (remove a c.active_list) == c.active_count - 1) ≡ true =
        ground (arith, v.counts.actives) in
      (
        t,
        keyed,
        rw (
          delist_item-delisted a c v.linked,
          young,
          forget_key_lem a (flush ((c.items a).ref ∷ []) (delisted a c)) t keyed found,
          e₁,
          e₂,
          kept,
        ),
        record {
          linked = delisted-IsLinked a c v.linked;
          counts = record {
            counted = omega (
              arith,
              v.counts.counted,
              ap length (remove_absent a c.inactive_list (v.linked.apart a here)),
            );
            actives = omega (arith, v.counts.actives);
            small = omega (arith, v.counts.small);
          };
          index = forgotten-IsIndexed a c t v.linked node keyed v.index;
          sized = omega (
            arith,
            H.size-remove (c.items a).key a t found,
            v.sized,
            ap (table_size H) keyed,
            v.counts.counted,
          );
        },
      )
