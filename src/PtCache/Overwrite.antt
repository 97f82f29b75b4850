-- ===== src/PtCache/Overwrite.antt =====
-- `pt_cache_put` over a key whose item is active: the item is counted twice.
use piiptyyt.Glib.HashTable.{HashTable}
use piiptyyt.PtCache.Nodes.{mem, remove, mem-remove_self, length-remove, remove_absent}
use piiptyyt.PtCache.State.{Cache, size_inc, size_sub, flush, lookup_item, toggle_last_ref_cb}
use piiptyyt.PtCache.Invariant.{
  IsLinked, table_size, IsValid, delisted, delist_item-delisted, delisted-IsLinked,
}
use piiptyyt.PtCache.Toggle.{Lists-activate}
use piiptyyt.PtCache.Put.{Insertion, link_item, recycle, pt_cache_put}
use piiptyyt.Prelude.{
  ℕ, ◌+◌, ◌-◌, ◌^◌, ◌<◌, ◌≡◌, ap, ◌∙◌, true, false, none, some, [], ◌∷◌, ◌++◌, arith, length,
  length-append, ◌==◌,
}
use piiptyyt.PtCache.Stored.{linked_item}
use piiptyyt.PtCache.Insert.{put_present, opened, opened-IsValid, lookup_opened}

module _ {K : Type 0} (H : HashTable K ℕ) (alloc : Cache K H.Table → ℕ) where
  open H use {Table, lookup}

  -- A count that is one too high stops the next callback.
  miscounted-last :
      (c : Cache K Table) (b : ℕ)
      → IsLinked c
      → c.active_count ≡ length c.active_list + 1
      → c.active_count < 2 ^ 32
      → mem b c.active_list ≡ true
      → 0 < (c.items b).age
      → toggle_last_ref_cb H b true c ≡ none
  unfolding toggle_last_ref_cb
  miscounted-last c b l wrong small here old =
      let aged : ((c.items b).age == 0) ≡ false = ground arith in
      let e : size_sub c.active_count 1 ≡ c.active_count - 1 = omega arith in
      let bad : (length (remove b c.active_list) == c.active_count - 1) ≡ false =
        ground (arith, length-remove b c.active_list here) in
      rw (delist_item-delisted b c l, aged, e, bad)

  miscounted-new :
      (c : Cache K Table) (b : ℕ)
      → IsLinked c
      → c.active_count ≡ length c.active_list + 1
      → c.active_count < 2 ^ 32
      → mem b c.inactive_list ≡ true
      → toggle_last_ref_cb H b false c ≡ none
  unfolding toggle_last_ref_cb
  miscounted-new c b l wrong small here =
      let idle : mem b c.active_list ≡ false = ground (arith, l.apart b) in
      let e : size_inc c.active_count ≡ c.active_count + 1 = omega arith in
      let bad : (length (remove b c.active_list ++ b ∷ []) == c.active_count + 1) ≡ false = ground (
        arith,
        length-append (remove b c.active_list) (b ∷ []),
        ap length (remove_absent b c.active_list idle),
      ) in
      rw (delist_item-delisted b c l, e, bad)

  -- A put of an object that is not floating, over a key whose item is on the active list of a
  -- valid cache, returns with `active_count` one above the length of that list. In that state the
  -- callback fails its assertion for the last reference on any active item of an age above 0, and
  -- for a new reference on any inactive item.
  pub put_active-miscounts :
      (p : Insertion K) (c : Cache K Table) (a : ℕ)
      → IsValid H c
      → lookup_item H c.keys p.key ≡ some a
      → mem a c.active_list ≡ true
      → p.floating ≡ false
      → (c' : Cache K Table) × (pt_cache_put H alloc p c ≡ some c')
        × (c'.active_count ≡ length c'.active_list + 1)
        × ((b : ℕ)
            → mem b c'.active_list ≡ true
            → 0 < (c'.items b).age
            → toggle_last_ref_cb H b true c' ≡ none)
        × ((b : ℕ) → mem b c'.inactive_list ≡ true → toggle_last_ref_cb H b false c' ≡ none)
  unfolding recycle link_item
  put_active-miscounts p c a v found here held =
      let v₁ = opened-IsValid H alloc c v in
      let l = v.linked in
      let found' : lookup_item H (opened H alloc c).keys p.key ≡ some a =
        unfold lookup_item in lookup_opened H alloc c.keys p.key ∙ found in
      let c₁ = flush ((c.items a).ref ∷ []) (opened H alloc c) in
      let step = delist_item-delisted a c₁ (unfold flush in l) in
      let c' = linked_item H a p (delisted a c₁) in
      let l' : IsLinked c' =
        unfold flush in
        Lists-activate a (delisted-IsLinked a (opened H alloc c) l)
          (mem-remove_self a c.active_list l.active_nodup)
          (mem-remove_self a c.inactive_list l.inactive_nodup) in
      let longer = length-append (remove a c.active_list) (a ∷ []) in
      let shorter = length-remove a c.active_list here in
      let e : size_inc c.active_count ≡ c.active_count + 1 =
        omega (arith, v.counts.actives, v.counts.counted, v.counts.small) in
      let wrong : c'.active_count ≡ length c'.active_list + 1 =
        unfold flush in omega (arith, v.counts.actives, longer, shorter) in
      let small : c'.active_count < 2 ^ 32 =
        unfold flush in omega (arith, v.counts.actives, v.counts.counted, v.counts.small) in
      let sized : (table_size H c'.keys == c'.count) ≡ true =
        unfold flush in ground (arith, v₁.sized) in
      let counted : (length c'.active_list + length c'.inactive_list == c'.count) ≡ true =
        unfold flush in
        ground (
          arith,
          longer,
          shorter,
          ap length (remove_absent a c.inactive_list (l.apart a here)),
          v.counts.counted,
        ) in
      (
        c',
        put_present H alloc p c a found' ∙ rw step (unfold flush in rw (held, e, sized, counted)),
        wrong,
        λ b here' old. miscounted-last c' b l' wrong small here' old,
        λ b here'. miscounted-new c' b l' wrong small here',
      )
