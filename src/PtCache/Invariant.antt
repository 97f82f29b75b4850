-- ===== src/PtCache/Invariant.antt =====
-- The invariant of a `PtCache`, and what `delist_item` keeps of it.
use piiptyyt.Glib.HashTable.{HashTable}
use piiptyyt.PtCache.Nodes.{
  mem, remove, next_of, Nodup, mem-remove_self, mem-remove_ne, mem-remove-le, remove-Nodup,
  follows_absent, next_of-mem,
}
use piiptyyt.PtCache.State.{Item, Cache, hand_is_clear, leave_hand, delist_item, lookup_item}
use piiptyyt.Prelude.{
  ℕ, ◌+◌, ◌^◌, ◌<◌, ◌≡◌, refl, inl, inr, Bool, true, false, ◌||◌, Option, none, some, List, arith,
  length, ◌==◌, Bool-cases, Option-cases,
}

-- The hand is NULL or stands at an inactive item.
abbrev pub HandIn : Option ℕ → List ℕ → Type 0
HandIn none xs = Unit
HandIn (some h) xs = mem h xs ≡ true

-- The two lists hold different items, each once.
pub record Lists (active inactive : List ℕ) (hand : Option ℕ) : Type 0 where
  pub active_nodup : Nodup active
  pub inactive_nodup : Nodup inactive
  pub apart : (a : ℕ) → mem a active ≡ true → mem a inactive ≡ false
  pub hand_in : HandIn hand inactive

leave_hand-clear :
    (hand : Option ℕ) (a : ℕ) (xs : List ℕ)
    → Nodup xs
    → (hand_is_clear (leave_hand hand a xs) a (remove a xs) ≡ true)
unfolding hand_is_clear leave_hand
leave_hand-clear none a xs d = refl
leave_hand-clear (some h) a xs d = elim (Bool-cases (h == a)) [
  | inl here ↦ elim (Option-cases (next_of a xs)) [
    | inl last ↦ rw (here, last)
    | inr (b, behind) ↦
        rw (here, behind)
          (ground (
            arith,
            next_of-mem a b xs d behind,
            follows_absent a b (remove a xs) (mem-remove_self a xs d),
          ))
  ]
  | inr there ↦ rw there (ground (arith, follows_absent a h (remove a xs) (mem-remove_self a xs d)))
]

leave_hand-HandIn :
    (hand : Option ℕ) (a : ℕ) (xs : List ℕ)
    → Nodup xs
    → HandIn hand xs
    → HandIn (leave_hand hand a xs) (remove a xs)
unfolding leave_hand
leave_hand-HandIn none a xs d h = tt
leave_hand-HandIn (some b) a xs d h = elim (Bool-cases (b == a)) [
  | inl here ↦ elim (Option-cases (next_of a xs)) [
    | inl last ↦ rw (here, last) tt
    | inr (n, behind) ↦
        rw (here, behind) (ground (arith, next_of-mem a n xs d behind, mem-remove_ne a n xs))
  ]
  | inr there ↦ rw there (ground (arith, mem-remove_ne a b xs))
]

module _ {K : Type 0} {Table : Type 0} where
  abbrev pub is_node : ℕ → Cache K Table → Bool
  is_node a c = mem a c.active_list || mem a c.inactive_list

  abbrev pub IsLinked : Cache K Table → Type 0
  IsLinked c = Lists c.active_list c.inactive_list c.repl_hand

  pub record IsCounted (c : Cache K Table) : Type 0 where
    pub counted : c.count ≡ length c.active_list + length c.inactive_list
    pub actives : c.active_count ≡ length c.active_list
    pub small : c.count < 2 ^ 31

  -- `delist_item` with its assertion gone.
  abbrev pub delisted : ℕ → Cache K Table → Cache K Table
  delisted a c = record c {
    active_list = remove a c.active_list;
    inactive_list = remove a c.inactive_list;
    repl_hand = leave_hand c.repl_hand a c.inactive_list;
  }

  pub delist_item-delisted :
      (a : ℕ) (c : Cache K Table) → IsLinked c → delist_item a c ≡ some (delisted a c)
  unfolding delist_item
  delist_item-delisted a c l = rw (leave_hand-clear c.repl_hand a c.inactive_list l.inactive_nodup)

  pub delisted-IsLinked : (a : ℕ) (c : Cache K Table) → IsLinked c → IsLinked (delisted a c)
  delisted-IsLinked a c l = record {
    active_nodup = remove-Nodup a c.active_list l.active_nodup;
    inactive_nodup = remove-Nodup a c.inactive_list l.inactive_nodup;
    apart = λ b h.
        mem-remove-le a b c.inactive_list
          (l.apart b (ground (arith, mem-remove-le a b c.active_list)));
    hand_in = leave_hand-HandIn c.repl_hand a c.inactive_list l.inactive_nodup l.hand_in;
  }

module _ {K : Type 0} (H : HashTable K ℕ) where
  open H use {Table}

  abbrev pub table_size : Option Table → ℕ
  table_size none = 0
  table_size (some t) = H.size t

  -- The hash table leads from each key to its item, for the items of the set and no other.
  pub record IsIndexed (keys : Option Table) (items : ℕ → Item K) (node : ℕ → Bool) : Type 0 where
    pub indexed : (a : ℕ) → node a ≡ true → lookup_item H keys (items a).key ≡ some a
    pub listed :
        (k : K) (a : ℕ) → lookup_item H keys k ≡ some a → (node a ≡ true) × ((items a).key ≡ k)

  pub record IsValid (c : Cache K Table) : Type 0 where
    pub linked : IsLinked c
    pub counts : IsCounted c
    pub index : IsIndexed c.keys c.items (λ a. is_node a c)
    pub sized : table_size c.keys ≡ c.count
