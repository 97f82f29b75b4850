-- ===== src/PtCache/Toggle.antt =====
-- The toggle callback keeps the invariant, as long as GLib calls it in turn: with a last
-- reference on an active item, and with a new one on an inactive item.
use piiptyyt.Glib.HashTable.{HashTable}
use piiptyyt.PtCache.Nodes.{
  mem, remove, remove_absent, mem-append, mem-remove_self, mem-remove_ne, length-remove,
  Nodup-append_one,
}
use piiptyyt.PtCache.State.{Cache, size_inc, size_sub, toggle_last_ref_cb}
use piiptyyt.PtCache.Invariant.{
  HandIn, Lists, is_node, IsLinked, IsCounted, delisted, delist_item-delisted, delisted-IsLinked,
  IsValid,
}
use piiptyyt.PtCache.Index.{IsIndexed-ext}
use piiptyyt.Prelude.{
  ℕ, ◌+◌, ◌-◌, ◌<◌, ◌≡◌, ap, true, false, Option, none, some, List, [], ◌∷◌, ◌++◌, arith, length,
  length-append, ◌==◌,
}

-- An item off both lists comes to the end of one.
pub Lists-activate :
    {active inactive : List ℕ} {hand : Option ℕ} (a : ℕ)
    → Lists active inactive hand
    → mem a active ≡ false
    → mem a inactive ≡ false
    → Lists (active ++ a ∷ []) inactive hand
Lists-activate {active} {inactive} {hand} a l new₁ new₂ = record {
  active_nodup = Nodup-append_one active a l.active_nodup new₁;
  inactive_nodup = l.inactive_nodup;
  apart = λ b h. ground (arith, mem-append b active (a ∷ []), l.apart b);
  hand_in = l.hand_in;
}

HandIn-append : (hand : Option ℕ) (xs ys : List ℕ) → HandIn hand xs → HandIn hand (xs ++ ys)
HandIn-append none xs ys h = tt
HandIn-append (some b) xs ys h = ground (arith, mem-append b xs ys)

Lists-retire :
    {active inactive : List ℕ} {hand : Option ℕ} (a : ℕ)
    → Lists active inactive hand
    → mem a active ≡ false
    → mem a inactive ≡ false
    → Lists active (inactive ++ a ∷ []) hand
Lists-retire {active} {inactive} {hand} a l new₁ new₂ = record {
  active_nodup = l.active_nodup;
  inactive_nodup = Nodup-append_one inactive a l.inactive_nodup new₂;
  apart = λ b h. ground (arith, mem-append b inactive (a ∷ []), l.apart b);
  hand_in = HandIn-append hand inactive (a ∷ []) l.hand_in;
}

module _ {K : Type 0} {Table : Type 0} where
  -- A new reference: the item goes to the end of the active list.
  abbrev pub activated : ℕ → Cache K Table → Cache K Table
  activated a c = record (delisted a c) {
    active_list = remove a c.active_list ++ a ∷ [];
    active_count = c.active_count + 1;
  }

  -- The last reference is gone: the item goes to the end of the inactive list.
  abbrev pub retired : ℕ → Cache K Table → Cache K Table
  retired a c = record (delisted a c) {
    inactive_list = remove a c.inactive_list ++ a ∷ [];
    active_count = c.active_count - 1;
  }

  activated-IsLinked : (a : ℕ) (c : Cache K Table) → IsLinked c → IsLinked (activated a c)
  activated-IsLinked a c l =
      Lists-activate a (delisted-IsLinked a c l) (mem-remove_self a c.active_list l.active_nodup)
        (mem-remove_self a c.inactive_list l.inactive_nodup)

  retired-IsLinked : (a : ℕ) (c : Cache K Table) → IsLinked c → IsLinked (retired a c)
  retired-IsLinked a c l =
      Lists-retire a (delisted-IsLinked a c l) (mem-remove_self a c.active_list l.active_nodup)
        (mem-remove_self a c.inactive_list l.inactive_nodup)

  activated-IsCounted :
      (a : ℕ) (c : Cache K Table)
      → IsLinked c
      → mem a c.inactive_list ≡ true
      → IsCounted c
      → IsCounted (activated a c)
  activated-IsCounted a c l here n =
      let out : mem a c.active_list ≡ false = ground (arith, l.apart a) in
      let e = remove_absent a c.active_list out in
      record {
        counted = omega (
          arith,
          length-append (remove a c.active_list) (a ∷ []),
          ap length e,
          length-remove a c.inactive_list here,
          n.counted,
        );
        actives =
            omega (arith, length-append (remove a c.active_list) (a ∷ []), ap length e, n.actives);
        small = n.small;
      }

  retired-IsCounted :
      (a : ℕ) (c : Cache K Table)
      → IsLinked c
      → mem a c.active_list ≡ true
      → IsCounted c
      → IsCounted (retired a c)
  retired-IsCounted a c l here n =
      let e = remove_absent a c.inactive_list (l.apart a here) in
      record {
        counted = omega (
          arith,
          length-append (remove a c.inactive_list) (a ∷ []),
          ap length e,
          length-remove a c.active_list here,
          n.counted,
        );
        actives = omega (arith, length-remove a c.active_list here, n.actives);
        small = n.small;
      }

  is_node-activated :
      (a b : ℕ) (c : Cache K Table) → is_node a c ≡ true → is_node b (activated a c) ≡ is_node b c
  is_node-activated a b c h = ground (
    arith,
    mem-append b (remove a c.active_list) (a ∷ []),
    mem-remove_ne a b c.active_list,
    mem-remove_ne a b c.inactive_list,
  )

  pub is_node-retired :
      (a b : ℕ) (c : Cache K Table) → is_node a c ≡ true → is_node b (retired a c) ≡ is_node b c
  is_node-retired a b c h = ground (
    arith,
    mem-append b (remove a c.inactive_list) (a ∷ []),
    mem-remove_ne a b c.active_list,
    mem-remove_ne a b c.inactive_list,
  )

module _ {K : Type 0} (H : HashTable K ℕ) where
  open H use {Table}

  -- A new reference to an inactive item: no assertion fails, the item becomes the last of the
  -- active list, and the invariant is kept.
  pub toggle-activated :
      (a : ℕ) (c : Cache K Table)
      → IsValid H c
      → mem a c.inactive_list ≡ true
      → (toggle_last_ref_cb H a false c ≡ some (activated a c)) × IsValid H (activated a c)
  unfolding toggle_last_ref_cb
  toggle-activated a c v here =
      let n = activated-IsCounted a c v.linked here v.counts in
      let small : size_inc c.active_count ≡ c.active_count + 1 =
        omega (arith, v.counts.counted, v.counts.actives, v.counts.small) in
      let kept : (length (remove a c.active_list ++ a ∷ []) == c.active_count + 1) ≡ true =
        ground (arith, n.actives) in
      (
        rw (delist_item-delisted a c v.linked, small, kept),
        record {
          linked = activated-IsLinked a c v.linked;
          counts = n;
          index =
              IsIndexed-ext H c.keys c.items _ _ (λ b. is_node-activated a b c (ground arith))
                v.index;
          sized = v.sized;
        },
      )

  -- The last reference to an active item that was used since it was aged to 0: no assertion
  -- fails, the item becomes the last of the inactive list, and the invariant is kept.
  pub toggle-retired :
      (a : ℕ) (c : Cache K Table)
      → IsValid H c
      → mem a c.active_list ≡ true
      → 0 < (c.items a).age
      → (toggle_last_ref_cb H a true c ≡ some (retired a c)) × IsValid H (retired a c)
  unfolding toggle_last_ref_cb
  toggle-retired a c v here old =
      let n = retired-IsCounted a c v.linked here v.counts in
      let small : size_sub c.active_count 1 ≡ c.active_count - 1 = omega (
        arith,
        v.counts.actives,
        v.counts.counted,
        v.counts.small,
        length-remove a c.active_list here,
      ) in
      let kept : (length (remove a c.active_list) == c.active_count - 1) ≡ true =
        ground (arith, n.actives) in
      let aged : ((c.items a).age == 0) ≡ false = ground arith in
      (
        rw (delist_item-delisted a c v.linked, aged, small, kept),
        record {
          linked = retired-IsLinked a c v.linked;
          counts = n;
          index =
              IsIndexed-ext H c.keys c.items _ _ (λ b. is_node-retired a b c (ground arith))
                v.index;
          sized = v.sized;
        },
      )
