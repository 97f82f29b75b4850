-- ===== src/PtCache/Stored.antt =====
-- What `pt_cache_put` leaves, once the item is off the lists.
use piiptyyt.Glib.HashTable.{HashTable}
use piiptyyt.PtCache.Nodes.{mem, remove, mem-append}
use piiptyyt.PtCache.State.{Item, Cache, size_inc, update, lookup_item}
use piiptyyt.PtCache.Invariant.{is_node, IsLinked, table_size, IsIndexed, IsValid}
use piiptyyt.PtCache.Index.{IsIndexed-ext}
use piiptyyt.PtCache.Toggle.{Lists-activate, toggle-retired, retired, is_node-retired}
use piiptyyt.PtCache.Put.{Insertion, new_item, link_item}
use piiptyyt.Prelude.{
  ℕ, ◌+◌, ◌^◌, ◌<◌, ◌≡◌, refl, sym, ap, ◌∙◌, inl, inr, true, false, ◌||◌, some, [], ◌∷◌, ◌++◌,
  arith, length, length-append, ◌==◌, if◌then◌else◌, Bool-cases,
}

module _ {K : Type 0} (H : HashTable K ℕ) where
  open H use {Table, lookup}

  -- The cache before `link_item`: the item `a` is counted and indexed, and on no list.
  pub record IsReady (a : ℕ) (p : Insertion K) (c : Cache K Table) : Type 0 where
    pub linked : IsLinked c
    pub off : is_node a c ≡ false
    pub counted : c.count ≡ length c.active_list + length c.inactive_list + 1
    pub actives : c.active_count ≡ length c.active_list
    pub small : c.count < 2 ^ 31
    pub index : IsIndexed H c.keys (update c.items a (new_item p)) (λ b. is_node b c || b == a)
    pub sized : table_size H c.keys ≡ c.count

  abbrev pub linked_item : ℕ → Insertion K → Cache K Table → Cache K Table
  linked_item a p c = record c {
    items = update c.items a (new_item p);
    active_list = c.active_list ++ a ∷ [];
    active_count = c.active_count + 1;
  }

  is_node-linked :
      (a b : ℕ) (p : Insertion K) (c : Cache K Table)
      → is_node b (linked_item a p c) ≡ (is_node b c || b == a)
  is_node-linked a b p c = ground (arith, mem-append b c.active_list (a ∷ []))

  linked_item-IsValid :
      (a : ℕ) (p : Insertion K) (c : Cache K Table) → IsReady a p c → IsValid H (linked_item a p c)
  linked_item-IsValid a p c r = record {
    linked = Lists-activate a r.linked (ground (arith, r.off)) (ground (arith, r.off));
    counts = record {
      counted = omega (arith, r.counted, length-append c.active_list (a ∷ []));
      actives = omega (arith, r.actives, length-append c.active_list (a ∷ []));
      small = r.small;
    };
    index =
        IsIndexed-ext H c.keys (update c.items a (new_item p)) _ _ (λ b. is_node-linked a b p c)
          r.index;
    sized = r.sized;
  }

  -- What a successful call leaves: the key leads to the new item, which is on the active list, or
  -- on the inactive one if the cache holds the only reference.
  pub record IsStored (a : ℕ) (p : Insertion K) (c : Cache K Table) : Type 0 where
    pub valid : IsValid H c
    pub found : lookup_item H c.keys p.key ≡ some a
    pub item : c.items a ≡ new_item p
    pub place : (if p.floating then mem a c.inactive_list else mem a c.active_list) ≡ true

  stored :
      (a : ℕ) (p : Insertion K) (c : Cache K Table)
      → IsValid H c
      → c.items a ≡ new_item p
      → (if p.floating then mem a c.inactive_list else mem a c.active_list) ≡ true
      → IsStored a p c
  stored a p c v item place =
      let node : is_node a c ≡ true = ground arith in
      record {
        valid = v;
        found = ap (λ (i : Item K). lookup_item H c.keys i.key) (sym item) ∙ v.index.indexed a node;
        item = item;
        place = place;
      }

  -- The two assertions at the end of the call.
  final_asserts :
      (c : Cache K Table)
      → IsValid H c
      → ((table_size H c.keys == c.count) ≡ true)
        × ((length c.active_list + length c.inactive_list == c.count) ≡ true)
  final_asserts c v = (ground (arith, v.sized), ground (arith, v.counts.counted))

  pub link_item-IsStored :
      (alloc : Cache K Table → ℕ) (a : ℕ) (p : Insertion K) (c : Cache K Table)
      → IsReady a p c
      → (c' : Cache K Table) × (link_item H alloc a p c ≡ some c')
        × IsStored a p c'
        × (c'.count ≡ c.count)
        × ((b : ℕ) → is_node b c' ≡ (is_node b c || b == a))
  unfolding link_item
  link_item-IsStored alloc a p c r =
      let v = linked_item-IsValid a p c r in
      let e : size_inc c.active_count ≡ c.active_count + 1 =
        omega (arith, r.actives, r.counted, r.small) in
      let self : (a == a) ≡ true = ground arith in
      let listed : mem a (c.active_list ++ a ∷ []) ≡ true =
        ground (arith, mem-append a c.active_list (a ∷ [])) in
      let same : update c.items a (new_item p) a ≡ new_item p = rw self in
      elim (Bool-cases p.floating) [
        | inl floating ↦
            let c' = retired a (linked_item a p c) in
            let (toggled, v') =
              toggle-retired H a (linked_item a p c) v listed (rw same (omega arith)) in
            let (sized, counted) = final_asserts c' v' in
            let here : mem a c'.inactive_list ≡ true =
              ground (arith, mem-append a (remove a c.inactive_list) (a ∷ [])) in
            (
              c',
              rw (floating, e, toggled, sized, counted),
              stored a p c' v' same (rw floating here),
              refl,
              λ b.
                  is_node-retired a b (linked_item a p c) (ground (arith, listed))
                  ∙ is_node-linked a b p c,
            )
        | inr held ↦
            let c' = linked_item a p c in
            let (sized, counted) = final_asserts c' v in
            (
              c',
              rw (held, e, sized, counted),
              stored a p c' v same (rw held listed),
              refl,
              λ b. is_node-linked a b p c,
            )
      ]
