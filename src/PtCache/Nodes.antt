-- ===== src/PtCache/Nodes.antt =====
-- Intrusive lists (`ccan/list`) as lists of the addresses of their nodes.
use piiptyyt.Prelude.{
  ℕ, ◌+◌, ◌≡◌, refl, ◌≢◌, inl, inr, Bool, true, false, ◌&&◌, ◌||◌, Option, none, some, List, [],
  ◌∷◌, ◌++◌, arith, length, ◌==◌, if◌then◌else◌, Bool-cases,
}

abbrev pub mem : ℕ → List ℕ → Bool
mem a [] = false
mem a (x ∷ xs) = if a == x then true else mem a xs

-- `list_del`: the node leaves its list.
unfoldable pub remove : ℕ → List ℕ → List ℕ
remove a [] = []
remove a (x ∷ xs) = let kept = x ∷ remove a xs in if a == x then xs else kept

-- `node->next`, or `none` where that is the head of the list.
unfoldable pub next_of : ℕ → List ℕ → Option ℕ
next_of a [] = none
next_of a (x ∷ []) = none
next_of a (x ∷ y ∷ xs) = let later = next_of a (y ∷ xs) in if a == x then some y else later

-- `b` stands directly behind `a`.
unfoldable pub follows : ℕ → ℕ → List ℕ → Bool
follows a b [] = false
follows a b (x ∷ []) = false
follows a b (x ∷ y ∷ xs) = if a == x && b == y then true else follows a b (y ∷ xs)

abbrev pub Nodup : List ℕ → Type 0
Nodup [] = Unit
Nodup (x ∷ xs) = (mem x xs ≡ false) × Nodup xs

pub mem-append : (a : ℕ) (xs ys : List ℕ) → mem a (xs ++ ys) ≡ (mem a xs || mem a ys)
mem-append a [] ys = refl
mem-append a (x ∷ xs) ys = ground (arith, mem-append a xs ys)

pub remove_absent : (a : ℕ) (xs : List ℕ) → mem a xs ≡ false → remove a xs ≡ xs
unfolding remove
remove_absent a [] h = refl
remove_absent a (x ∷ xs) h = ground (arith, remove_absent a xs)

pub mem-remove_self : (a : ℕ) (xs : List ℕ) → Nodup xs → mem a (remove a xs) ≡ false
unfolding remove
mem-remove_self a [] h = refl
mem-remove_self a (x ∷ xs) h = ground (arith, mem-remove_self a xs h.1)

pub mem-remove_ne : (a b : ℕ) (xs : List ℕ) → b ≢ a → mem b (remove a xs) ≡ mem b xs
unfolding remove
mem-remove_ne a b [] h = refl
mem-remove_ne a b (x ∷ xs) h = ground (arith, mem-remove_ne a b xs h)

pub length-remove : (a : ℕ) (xs : List ℕ) → mem a xs ≡ true → length (remove a xs) + 1 ≡ length xs
unfolding remove
length-remove a [] h = cc
length-remove a (x ∷ xs) h = ground (arith, length-remove a xs)

pub mem-remove-le : (a b : ℕ) (xs : List ℕ) → mem b xs ≡ false → mem b (remove a xs) ≡ false
unfolding remove
mem-remove-le a b [] h = refl
mem-remove-le a b (x ∷ xs) h = ground (arith, mem-remove-le a b xs)

pub remove-Nodup : (a : ℕ) (xs : List ℕ) → Nodup xs → Nodup (remove a xs)
unfolding remove
remove-Nodup a [] h = tt
remove-Nodup a (x ∷ xs) h = elim (Bool-cases (a == x)) [
  | inl here ↦ rw here h.1
  | inr there ↦ rw there (mem-remove-le a x xs h.0, remove-Nodup a xs h.1)
]

pub follows_absent :
    (a b : ℕ) (xs : List ℕ) → mem a xs ≡ false → (follows a b xs ≡ false) × (follows b a xs ≡ false)
unfolding follows
follows_absent a b [] h = (refl, refl)
follows_absent a b (x ∷ []) h = (refl, refl)
follows_absent a b (x ∷ y ∷ xs) h = ground (arith, follows_absent a b (y ∷ xs))

pub next_of-mem :
    (a b : ℕ) (xs : List ℕ) → Nodup xs → next_of a xs ≡ some b → (mem b xs ≡ true) × (b ≢ a)
unfolding next_of
next_of-mem a b [] d h = cc
next_of-mem a b (x ∷ []) d h = cc
next_of-mem a b (x ∷ y ∷ xs) d h = ground (arith, next_of-mem a b (y ∷ xs) d.1)

pub Nodup-append_one : (xs : List ℕ) (a : ℕ) → Nodup xs → mem a xs ≡ false → Nodup (xs ++ a ∷ [])
Nodup-append_one [] a d h = (refl, tt)
Nodup-append_one (x ∷ xs) a d h =
    (ground (arith, mem-append x xs (a ∷ [])), Nodup-append_one xs a d.1 (ground arith))
