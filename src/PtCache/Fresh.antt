-- ===== src/PtCache/Fresh.antt =====
-- An allocator for the tests, which hands out the address above all that are linked.
use piiptyyt.Prelude.{ℕ, ◌+◌, ◌≤◌, ◌≡◌, true, false, List, [], ◌∷◌, ◌++◌, arith}
use piiptyyt.PtCache.Invariant.{is_node}
use piiptyyt.PtCache.Nodes.{mem, mem-append}
use piiptyyt.PtCache.State.{Cache}

unfoldable pub sum : List ℕ → ℕ
sum [] = 0
sum (x ∷ xs) = x + sum xs

-- A linked address is not above the sum of all.
mem-sum : (a : ℕ) (xs : List ℕ) → mem a xs ≡ true → a ≤ sum xs
unfolding sum
mem-sum a [] h = ground arith
mem-sum a (x ∷ xs) h = ground (arith, mem-sum a xs)

abbrev pub address_above : {K Table : Type 0} → Cache K Table → ℕ
address_above c = 1 + sum (c.active_list ++ c.inactive_list)

pub address_above_fresh :
    {K Table : Type 0} (c : Cache K Table) → is_node (address_above c) c ≡ false
address_above_fresh c = ground (
  arith,
  mem-append (address_above c) c.active_list c.inactive_list,
  mem-sum (address_above c) (c.active_list ++ c.inactive_list),
)
