-- ===== src/PtCache/Props.antt =====
-- The GObject side of a `PtCache`: `pt_cache_init`, and reading and writing its properties.
use piiptyyt.Glib.HashTable.{HashTable}
use piiptyyt.PtCache.State.{Item, Cache, lookup_item, older, hit, pt_cache_get, update}
use piiptyyt.PtCache.Index.{IsIndexed-items}
use piiptyyt.PtCache.Invariant.{is_node, IsValid}
use piiptyyt.Prelude.{
  List, ℕ, ◌+◌, ◌<◌, ◌≡◌, refl, sym, ap, ◌∙◌, ◌≢◌, inl, inr, Bool, true, false, Option, none, some,
  [], arith, leb, if◌then◌else◌, Option-cases,
}

-- The ids that can be read.
pub data PropName : Type 0 where
  prop_high_wm prop_low_wm prop_count invalid_id : PropName

-- A property with its new value. Of the pointers, which are set when a cache is made, the model
-- has `flush-fn`: whether it is NULL.
pub data Setting : Type 0 where
  high_wm low_wm : ℕ → Setting
  flush_fn : Bool → Setting
  invalid : Setting

module _ {K Table : Type 0} where
  -- The memory of an object that has no items yet is arbitrary.
  unfoldable pub pt_cache_init : (ℕ → Item K) → Cache K Table
  pt_cache_init items = record {
    wm_low = 1;
    wm_high = 2;
    count = 0;
    active_count = 0;
    keys = none;
    active_list = [];
    inactive_list = [];
    repl_hand = none;
    flush_fn = false;
    items = items;
    flushed = [];
  }

  -- `none` is the warning about an invalid id.
  unfoldable pub pt_cache_get_property : PropName → Cache K Table → Option ℕ
  pt_cache_get_property prop_high_wm c = some c.wm_high
  pt_cache_get_property prop_low_wm c = some c.wm_low
  pt_cache_get_property prop_count c = some c.count
  pt_cache_get_property invalid_id c = none

  -- The `switch`; an invalid id only warns.
  unfoldable pub store_property : Setting → Cache K Table → Cache K Table
  store_property (high_wm n) c = record c { wm_high = n }
  store_property (low_wm n) c = record c { wm_low = n }
  store_property (flush_fn b) c = record c { flush_fn = b }
  store_property invalid c = c

  unfoldable pub repair_marks : Cache K Table → Cache K Table
  repair_marks c = record c { wm_high = if leb c.wm_high c.wm_low then c.wm_low + 1 else c.wm_high }

  unfoldable pub pt_cache_set_property : Setting → Cache K Table → Cache K Table
  pt_cache_set_property s c = repair_marks (store_property s c)

  -- After any write of a property the low watermark is below the high one. The low one is the one
  -- that was stored, the high one is the one that was stored unless that was too low, and the
  -- entries stay.
  pub set_property-marks :
      (s : Setting) (c : Cache K Table)
      → let c₁ = store_property s c in
        let c' = pt_cache_set_property s c in
        (c'.wm_low < c'.wm_high)
        × (c'.wm_low ≡ c₁.wm_low)
        × (c₁.wm_low < c₁.wm_high → c'.wm_high ≡ c₁.wm_high)
        × (c'.count ≡ c.count)
        × (c'.keys ≡ c.keys)
  unfolding pt_cache_set_property store_property repair_marks
  set_property-marks (high_wm n) c =
      (ground arith, ground arith, λ h. ground arith, ground arith, ground arith)
  set_property-marks (low_wm n) c =
      (ground arith, ground arith, λ h. ground arith, ground arith, ground arith)
  set_property-marks (flush_fn b) c =
      (ground arith, ground arith, λ h. ground arith, ground arith, ground arith)
  set_property-marks invalid c =
      (ground arith, ground arith, λ h. ground arith, ground arith, ground arith)

module _ {K : Type 0} (H : HashTable K ℕ) where
  open H use {Table}

  pub init-IsValid : (items : ℕ → Item K) → IsValid H (pt_cache_init items)
  unfolding pt_cache_init lookup_item
  init-IsValid items = record {
    linked = record { active_nodup = tt; inactive_nodup = tt; apart = λ a h. refl; hand_in = tt };
    counts = record { counted = refl; actives = refl; small = omega arith };
    index = record { indexed = λ a h. ground arith; listed = λ k a h. ground arith };
    sized = refl;
  }

  pub hit-IsValid : (a : ℕ) (c : Cache K Table) → IsValid H c → IsValid H (hit a c)
  unfolding hit
  hit-IsValid a c v = record {
    linked = v.linked;
    counts = record {
      counted = v.counts.counted;
      actives = v.counts.actives;
      small = v.counts.small;
    };
    index = IsIndexed-items H c.keys c.items _ _ (λ b. ground arith) v.index;
    sized = v.sized;
  }

  -- Nothing that the invariant speaks of depends on the watermarks or the flush function.
  marked-IsValid :
      {low high : ℕ} {flag : Bool} (c : Cache K Table)
      → IsValid H c
      → IsValid H (record c { wm_low = low; wm_high = high; flush_fn = flag })
  marked-IsValid c v = record {
    linked = v.linked;
    counts = record {
      counted = v.counts.counted;
      actives = v.counts.actives;
      small = v.counts.small;
    };
    index = v.index;
    sized = v.sized;
  }

  -- Nor on the objects that were reported.
  pub reported-IsValid :
      {log : List ℕ} (c : Cache K Table) → IsValid H c → IsValid H (record c { flushed = log })
  reported-IsValid c v = record {
    linked = v.linked;
    counts = record {
      counted = v.counts.counted;
      actives = v.counts.actives;
      small = v.counts.small;
    };
    index = v.index;
    sized = v.sized;
  }

  pub set_property-IsValid :
      (s : Setting) (c : Cache K Table) → IsValid H c → IsValid H (pt_cache_set_property s c)
  unfolding pt_cache_set_property store_property repair_marks
  set_property-IsValid (high_wm n) c v = marked-IsValid c v
  set_property-IsValid (low_wm n) c v = marked-IsValid c v
  set_property-IsValid (flush_fn b) c v = marked-IsValid c v
  set_property-IsValid invalid c v = marked-IsValid c v

  pub get_found :
      (k : K) (c : Cache K Table) (a : ℕ)
      → lookup_item H c.keys k ≡ some a
      → pt_cache_get H k c ≡ (some (c.items a).ref, hit a c)
  unfolding pt_cache_get
  get_found k c a found = rw (found, pt_cache_get)

  pub get_missing :
      (k : K) (c : Cache K Table) → lookup_item H c.keys k ≡ none → pt_cache_get H k c ≡ (none, c)
  unfolding pt_cache_get
  get_missing k c missing = rw (missing, pt_cache_get)

  -- In a valid cache, a lookup gives the object of the item that has the key, and only the age of
  -- that item changes: it grows by one, unless it is 2 ^ 32 - 1 or more. If no item has the key, the lookup gives
  -- NULL and changes nothing. The cache stays valid.
  pub get-object :
      (k : K) (c : Cache K Table)
      → IsValid H c
      → ((a : ℕ)
          → is_node a c ≡ true
          → (c.items a).key ≡ k
          → (pt_cache_get H k c).0 ≡ some (c.items a).ref
            × ((pt_cache_get H k c).1 ≡ record c {
              items = update c.items a (record (c.items a) { age = older (c.items a).age });
            }))
        × (((a : ℕ) → is_node a c ≡ true → (c.items a).key ≢ k) → pt_cache_get H k c ≡ (none, c))
        × IsValid H (pt_cache_get H k c).1
  unfolding hit
  get-object k c v = (
    λ a node key.
        let found = ap (lookup_item H c.keys) (sym key) ∙ v.index.indexed a node in
        let e = get_found k c a found in
        (
          ap (λ (r : Option ℕ × Cache K Table). r.0) e,
          ap (λ (r : Option ℕ × Cache K Table). r.1) e,
        ),
    λ absent. elim (Option-cases (lookup_item H c.keys k)) [
      | inl missing ↦ get_missing k c missing
      | inr (a, found) ↦ let (node, key) = v.index.listed k a found in absurd (absent a node key)
    ],
    elim (Option-cases (lookup_item H c.keys k)) [
      | inl missing ↦ rw (get_missing k c missing) v
      | inr (a, found) ↦ rw (get_found k c a found) (hit-IsValid a c v)
    ],
  )
