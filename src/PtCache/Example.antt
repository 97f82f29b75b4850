-- ===== src/PtCache/Example.antt =====
-- A small cache for the tests, with numbers as its keys, an association list as its hash table, and
-- an allocator that hands out the address above all that are linked.
use piiptyyt.Prelude.{ℕ, ◌≡◌, refl, true, false, some, List, [], ◌∷◌, arith, ◌==◌, if◌then◌else◌}
use piiptyyt.Glib.Assoc.{assoc, erase, dedup}
use piiptyyt.Glib.HashTable.{HashTable, find}
use piiptyyt.PtCache.Fresh.{address_above, address_above_fresh}
use piiptyyt.PtCache.Invariant.{IsValid, IsIndexed, is_node, table_size}
use piiptyyt.PtCache.State.{Item, Cache, lookup_item}
use native.Mathlib.Decide.{ℕ_discrete}

abbrev pub table : HashTable ℕ ℕ
table = assoc ℕ_discrete

abbrev pub Small : Type 0
Small = Cache ℕ (List (ℕ × ℕ))

abbrev pub alloc : Small → ℕ
alloc = address_above

pub alloc-fresh : (c : Small) → is_node (alloc c) c ≡ false
alloc-fresh = address_above_fresh

abbrev pub memory : ℕ → Item ℕ
memory a =
    if a == 1
    then record { ref = 100; key = 10; key_size = 0; age = 3 }
    else if a == 2
    then record { ref = 200; key = 20; key_size = 4; age = 0 }
    else record { ref = 300; key = 30; key_size = 4; age = 2 }

-- Two active items and an inactive one.
abbrev pub three : Small
three = record {
  wm_low = 0;
  wm_high = 3;
  count = 3;
  active_count = 2;
  keys = some ((30, 3) ∷ (20, 2) ∷ (10, 1) ∷ []);
  active_list = 1 ∷ 2 ∷ [];
  inactive_list = 3 ∷ [];
  repl_hand = some 3;
  flush_fn = true;
  items = memory;
  flushed = [];
}

three-IsIndexed : IsIndexed table three.keys three.items (λ a. is_node a three)
unfolding lookup_item find
three-IsIndexed = record { indexed = λ a h. ground arith; listed = λ k a h. ground arith }

three-sized : table_size table three.keys ≡ 3
unfolding erase dedup ℕ_discrete
three-sized = refl

pub three-IsValid : IsValid table three
three-IsValid = record {
  linked = record {
    active_nodup = (refl, (refl, tt));
    inactive_nodup = (refl, tt);
    apart = λ a h. ground arith;
    hand_in = refl;
  };
  counts = record { counted = refl; actives = refl; small = omega arith };
  index = three-IsIndexed;
  sized = three-sized;
}
