-- ===== src/PtCache/Unkeyed.antt =====
-- `flush_items` on a cache whose hash table is gone, as `pt_cache_dispose` calls it.
use piiptyyt.Glib.HashTable.{HashTable}
use piiptyyt.PtCache.Batches.{remove_all}
use piiptyyt.PtCache.Invariant.{IsLinked, delisted, delist_item-delisted, delisted-IsLinked}
use piiptyyt.PtCache.Replace.{max_replace, forget_if_keyed, flush_each, flush_batch, flush_items}
use piiptyyt.PtCache.State.{Cache, size_sub, flush}
use piiptyyt.Prelude.{
  ℕ, ◌+◌, ◌^◌, ◌≤◌, ◌<◌, ◌≡◌, refl, sym, ap, ◌∙◌, true, false, none, some, List, [], ◌∷◌, ◌++◌, map,
  append-nil, arith, length, leb, ◌==◌, if◌then◌else◌,
}

pub remove_all-nil : (xs : List ℕ) → remove_all [] xs ≡ xs
unfolding remove_all
remove_all-nil xs = refl

pub remove_all_twice :
    (xs ys zs : List ℕ) → remove_all ys (remove_all xs zs) ≡ remove_all (xs ++ ys) zs
unfolding remove_all
remove_all_twice [] ys zs = refl
remove_all_twice (a ∷ xs) ys zs = remove_all_twice xs ys _

module _ {K : Type 0} (H : HashTable K ℕ) where
  open H use {Table}

  -- The nodes are off the lists, and nothing else has changed but the hand, the count and the log.
  pub record IsUnlinked (gone : List ℕ) (c c' : Cache K Table) : Type 0 where
    pub linked : IsLinked c'
    pub active : c'.active_list ≡ remove_all gone c.active_list
    pub inactive : c'.inactive_list ≡ remove_all gone c.inactive_list
    pub keys : c'.keys ≡ none
    pub items : c'.items ≡ c.items
    pub flush_fn : c'.flush_fn ≡ c.flush_fn

  pub none-IsUnlinked : (c : Cache K Table) → IsLinked c → c.keys ≡ none → IsUnlinked [] c c
  none-IsUnlinked c l k = record {
    linked = l;
    active = sym (remove_all-nil c.active_list);
    inactive = sym (remove_all-nil c.inactive_list);
    keys = k;
    items = refl;
    flush_fn = refl;
  }

  pub both-IsUnlinked :
      (xs ys : List ℕ) (c₁ c₂ c₃ : Cache K Table)
      → IsUnlinked xs c₁ c₂
      → IsUnlinked ys c₂ c₃
      → IsUnlinked (xs ++ ys) c₁ c₃
  both-IsUnlinked xs ys c₁ c₂ c₃ f g = record {
    linked = g.linked;
    active = g.active ∙ ap (remove_all ys) f.active ∙ remove_all_twice xs ys c₁.active_list;
    inactive = g.inactive ∙ ap (remove_all ys) f.inactive ∙ remove_all_twice xs ys c₁.inactive_list;
    keys = g.keys;
    items = g.items ∙ f.items;
    flush_fn = g.flush_fn ∙ f.flush_fn;
  }

  forget_unkeyed : (a : ℕ) (c : Cache K Table) → c.keys ≡ none → forget_if_keyed H a c ≡ some c
  unfolding forget_if_keyed
  forget_unkeyed a c k = ground (arith, k)

  flush_each-IsUnlinked :
      (gone : List ℕ) (c : Cache K Table)
      → IsLinked c
      → c.keys ≡ none
      → (c' : Cache K Table) × (flush_each H gone c ≡ some c')
        × IsUnlinked gone c c'
        × (c'.count ≡ c.count)
        × (c'.flushed ≡ c.flushed)
  unfolding flush_each remove_all
  flush_each-IsUnlinked [] c l k = (c, refl, none-IsUnlinked c l k, refl, refl)
  flush_each-IsUnlinked (a ∷ gone) c l k =
      let (c', done, f, n, log) =
        flush_each-IsUnlinked gone (delisted a c) (delisted-IsLinked a c l) k in
      (
        c',
        rw (delist_item-delisted a c l, forget_unkeyed a (delisted a c) k) done,
        record {
          linked = f.linked;
          active = f.active;
          inactive = f.inactive;
          keys = f.keys;
          items = f.items;
          flush_fn = f.flush_fn;
        },
        n,
        log,
      )

  -- A batch of nodes on either list.
  pub flush_items-IsUnlinked :
      (gone : List ℕ) (c : Cache K Table)
      → IsLinked c
      → c.keys ≡ none
      → c.count < 2 ^ 31
      → length gone ≤ max_replace
      → length gone ≤ c.count
      → (c' : Cache K Table) × (flush_items H gone c ≡ some c')
        × IsUnlinked gone c c'
        × (c'.count + length gone ≡ c.count)
        × (c'.flushed
            ≡ (if c.flush_fn then c.flushed ++ map (λ b. (c.items b).ref) gone else c.flushed))
  unfolding flush_items flush_batch flush
  flush_items-IsUnlinked [] c l k small short few =
      let any : leb 0 c.count ≡ true = ground arith in
      (c, rw any refl, none-IsUnlinked c l k, omega arith, ground (arith, append-nil c.flushed))
  flush_items-IsUnlinked (a ∷ gone) c l k small short few =
      let refs = map (λ b. (c.items b).ref) (a ∷ gone) in
      let (c', done, f, n, log) = flush_each-IsUnlinked (a ∷ gone) (flush refs c) l k in
      let e₁ : leb (length (a ∷ gone)) max_replace ≡ true = ground arith in
      let e₂ : leb (length (a ∷ gone)) c.count ≡ true = ground arith in
      let e₃ : (length (a ∷ gone) == 0) ≡ false = ground arith in
      (
        record c' { count = size_sub c'.count (length (a ∷ gone)) },
        rw (e₁, e₂, e₃, done) refl,
        record {
          linked = f.linked;
          active = f.active;
          inactive = f.inactive;
          keys = f.keys;
          items = f.items;
          flush_fn = f.flush_fn;
        },
        omega (arith, n),
        log,
      )
