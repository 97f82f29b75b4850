-- ===== src/PtCache/Insert.antt =====
-- `pt_cache_put` of a new key.
use piiptyyt.Glib.HashTable.{HashTable}
use piiptyyt.PtCache.Nodes.{mem}
use piiptyyt.PtCache.State.{Cache, size_inc, lookup_item}
use piiptyyt.PtCache.Invariant.{is_node, table_size, IsValid}
use piiptyyt.PtCache.Index.{IsIndexed-insert}
use piiptyyt.PtCache.Full.{IsReplacedFull, replace_full-IsReplacedFull}
use piiptyyt.PtCache.Put.{
  Insertion, new_item, table_or_new, recycle, make_room, insert_item, add_item, pt_cache_put,
}
use piiptyyt.Prelude.{
  ℕ, ◌+◌, ◌^◌, ◌≤◌, ◌<◌, ◌≡◌, refl, sym, ap, ◌∙◌, inl, inr, true, false, ◌||◌, ◌==◌, Option, none,
  some, arith, if◌then◌else◌, leb, Bool-cases, Option-cases,
}
use piiptyyt.PtCache.Stored.{IsReady, IsStored, link_item-IsStored}

module _ {K : Type 0} (H : HashTable K ℕ) where
  open H use {Table, lookup}

  module _ (alloc : Cache K Table → ℕ) where
    pub lookup_opened :
        (keys : Option Table) (k : K) → lookup k (table_or_new H alloc keys) ≡ lookup_item H keys k
    unfolding table_or_new lookup_item
    lookup_opened none k = H.lookup-new k
    lookup_opened (some t) k = refl

    pub size_opened : (keys : Option Table) → H.size (table_or_new H alloc keys) ≡ table_size H keys
    unfolding table_or_new
    size_opened none = H.size-new
    size_opened (some t) = refl

    abbrev pub opened : Cache K Table → Cache K Table
    opened c = record c { keys = some (table_or_new H alloc c.keys) }

    pub opened-IsValid : (c : Cache K Table) → IsValid H c → IsValid H (opened c)
    unfolding lookup_item
    opened-IsValid c v = record {
      linked = v.linked;
      counts = record {
        counted = v.counts.counted;
        actives = v.counts.actives;
        small = v.counts.small;
      };
      index = record {
        indexed = λ a h. lookup_opened c.keys _ ∙ v.index.indexed a h;
        listed = λ k a h. v.index.listed k a (sym (lookup_opened c.keys k) ∙ h);
      };
      sized = size_opened c.keys ∙ v.sized;
    }

    -- The items that stay keep their keys, so a key that is absent stays absent.
    absent-IsReplacedFull :
        (c c' : Cache K Table) (k : K)
        → IsValid H c
        → IsReplacedFull H c c'
        → lookup_item H c.keys k ≡ none
        → lookup_item H c'.keys k ≡ none
    absent-IsReplacedFull c c' k v f absent = elim (Option-cases (lookup_item H c'.keys k)) [
      | inl gone ↦ gone
      | inr (a, found) ↦
          let (node, q) = f.valid.index.listed k a found in
          let was : is_node a c ≡ true = ground (arith, f.none_new a, ap (mem a) f.active) in
          absurd (
            ground
              (arith, v.index.indexed a was, ap (lookup_item H c.keys) (sym (f.same_keys a) ∙ q)))
    ]

    -- The cache once there is room: with `wm_high` items or more it is what the repeated passes
    -- make of it, and otherwise it is as it was.
    abbrev pub IsRoom : Cache K Table → Cache K Table → Type 0
    IsRoom c room = if leb c.wm_high c.count then IsReplacedFull H c room else room ≡ c

    -- The item `a` is the one that the cache with room did not have.
    pub record IsAdded (a : ℕ) (c c' : Cache K Table) : Type 0 where
      pub room : Cache K Table
      pub has_room : IsRoom (opened c) room
      pub new : is_node a room ≡ false
      pub counted : c'.count ≡ room.count + 1
      pub nodes : (b : ℕ) → is_node b c' ≡ (is_node b room || b == a)

    make_room-IsValid :
        (c : Cache K Table) (k : K)
        → IsValid H c
        → lookup_item H c.keys k ≡ none
        → (c' : Cache K Table) × (make_room H alloc c ≡ some c')
          × IsValid H c'
          × (lookup_item H c'.keys k ≡ none)
          × (c'.count ≤ c.count)
          × IsRoom c c'
    unfolding make_room
    make_room-IsValid c k v absent = elim (Bool-cases (leb c.wm_high c.count)) [
      | inl full ↦
          let (c', done, f) = replace_full-IsReplacedFull H c v in
          (c', rw full done, f.valid, absent-IsReplacedFull c c' k v f absent, f.shrunk, rw full f)
      | inr roomy ↦ (c, rw roomy, v, absent, omega arith, rw roomy refl)
    ]

    insert_item-IsReady :
        (a : ℕ) (p : Insertion K) (c : Cache K Table)
        → IsValid H c
        → lookup_item H c.keys p.key ≡ none
        → is_node a c ≡ false
        → c.count + 1 < 2 ^ 31
        → IsReady H a p (record c {
          count = size_inc c.count;
          keys = some (H.insert p.key a (table_or_new H alloc c.keys));
        })
    insert_item-IsReady a p c v absent new small =
        let t = table_or_new H alloc c.keys in
        record {
          linked = v.linked;
          off = new;
          counted = omega (arith, v.counts.counted);
          actives = v.counts.actives;
          small = omega arith;
          index =
              IsIndexed-insert H c.keys t c.items (λ b. is_node b c) a (new_item p)
                (lookup_opened c.keys) new absent v.index;
          sized = omega (
            arith,
            v.sized,
            size_opened c.keys,
            H.size-insert p.key a t (lookup_opened c.keys p.key ∙ absent),
          );
        }

    inc_small : (n : ℕ) → n + 1 < 2 ^ 31 → size_inc n ≡ n + 1
    inc_small n h = omega arith

    pub put_absent :
        (p : Insertion K) (c : Cache K Table)
        → lookup_item H (opened c).keys p.key ≡ none
        → pt_cache_put H alloc p c ≡ add_item H alloc p (opened c)
    unfolding pt_cache_put
    put_absent p c absent = ground arith

    pub put_present :
        (p : Insertion K) (c : Cache K Table) (a : ℕ)
        → lookup_item H (opened c).keys p.key ≡ some a
        → pt_cache_put H alloc p c ≡ recycle H alloc a p (opened c)
    unfolding pt_cache_put
    put_present p c a found = ground arith

    -- A put of a key that is not in a valid cache of fewer than 2^31 - 1 items fails no assertion.
    -- With `wm_high` items or more it first replaces items as `replace_full-IsReplacedFull` says;
    -- one item is added to those that are then left. The key leads to it, it has the object, and
    -- the cache is valid.
    pub put_new-IsStored :
        (p : Insertion K) (c : Cache K Table)
        → ((c₁ : Cache K Table) → is_node (alloc c₁) c₁ ≡ false)
        → IsValid H c
        → lookup_item H c.keys p.key ≡ none
        → c.count + 1 < 2 ^ 31
        → (c' : Cache K Table) × (a : ℕ) × (pt_cache_put H alloc p c ≡ some c')
          × IsStored H a p c'
          × IsAdded a c c'
    unfolding add_item insert_item
    put_new-IsStored p c fresh v absent small =
        let absent' : lookup_item H (opened c).keys p.key ≡ none =
          unfold lookup_item in lookup_opened c.keys p.key ∙ absent in
        let (c₁, done, v₁, absent₁, fewer, has_room) =
          make_room-IsValid (opened c) p.key (opened-IsValid c v) absent' in
        let (c', stored, s, same, nodes) =
          link_item-IsStored H alloc (alloc c₁) p _
            (insert_item-IsReady (alloc c₁) p c₁ v₁ absent₁ (fresh c₁) (omega (arith, fewer))) in
        (
          c',
          alloc c₁,
          put_absent p c absent' ∙ rw (done, stored),
          s,
          record {
            room = c₁;
            has_room = has_room;
            new = fresh c₁;
            counted = same ∙ inc_small c₁.count (omega (arith, fewer));
            nodes = nodes;
          },
        )
