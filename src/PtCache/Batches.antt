-- ===== src/PtCache/Batches.antt =====
-- Several nodes leaving a list, and the place behind a node.
use piiptyyt.Prelude.{
  ℕ, ◌+◌, ◌≡◌, refl, ap, ◌∙◌, inl, inr, true, false, Option, none, some, List, [], ◌∷◌, ◌++◌, arith,
  length, All, ◌==◌, Bool-cases,
}
use piiptyyt.PtCache.Nodes.{
  mem, remove, next_of, Nodup, mem-append, mem-remove_self, mem-remove_ne, mem-remove-le,
  remove-Nodup, length-remove,
}

unfoldable pub remove_all : List ℕ → List ℕ → List ℕ
remove_all [] xs = xs
remove_all (a ∷ gone) xs = remove_all gone (remove a xs)

abbrev pub AllIn : List ℕ → List ℕ → Type 0
AllIn xs = All (λ a. mem a xs ≡ true)

pub AllIn-remove :
    (a : ℕ) (gone xs : List ℕ) → mem a gone ≡ false → AllIn xs gone → AllIn (remove a xs) gone
AllIn-remove a [] xs h all = tt
AllIn-remove a (b ∷ gone) xs h (here, all) =
    (ground (arith, mem-remove_ne a b xs), AllIn-remove a gone xs (ground arith) all)

pub length-remove_all :
    (gone xs : List ℕ)
    → Nodup gone
    → AllIn xs gone
    → length (remove_all gone xs) + length gone ≡ length xs
unfolding remove_all
length-remove_all [] xs d all = omega arith
length-remove_all (a ∷ gone) xs d (here, all) = omega (
  arith,
  length-remove a xs here,
  length-remove_all gone (remove a xs) d.1 (AllIn-remove a gone xs d.0 all),
)

pub mem-remove_all :
    (gone xs : List ℕ) (b : ℕ) → mem b gone ≡ false → mem b (remove_all gone xs) ≡ mem b xs
unfolding remove_all
mem-remove_all [] xs b h = refl
mem-remove_all (a ∷ gone) xs b h =
    ground (arith, mem-remove_all gone (remove a xs) b, mem-remove_ne a b xs)

pub mem-remove_all-le :
    (gone xs : List ℕ) (b : ℕ) → mem b xs ≡ false → mem b (remove_all gone xs) ≡ false
unfolding remove_all
mem-remove_all-le [] xs b h = h
mem-remove_all-le (a ∷ gone) xs b h =
    mem-remove_all-le gone (remove a xs) b (mem-remove-le a b xs h)

pub mem-remove_all_self :
    (gone xs : List ℕ) (b : ℕ) → Nodup xs → mem b gone ≡ true → mem b (remove_all gone xs) ≡ false
unfolding remove_all
mem-remove_all_self [] xs b d h = cc
mem-remove_all_self (a ∷ gone) xs b d h = elim (Bool-cases (b == a)) [
  | inl e ↦
      let same : b ≡ a = ground arith in
      mem-remove_all-le gone (remove a xs) b
        (ap (λ x. mem x (remove a xs)) same ∙ mem-remove_self a xs d)
  | inr n ↦ mem-remove_all_self gone (remove a xs) b (remove-Nodup a xs d) (ground arith)
]

remove-append : (a : ℕ) (xs ys : List ℕ) → mem a xs ≡ true → remove a (xs ++ ys) ≡ remove a xs ++ ys
unfolding remove
remove-append a [] ys h = cc
remove-append a (x ∷ xs) ys h = ground (arith, remove-append a xs ys)

pub remove_all-append :
    (gone xs ys : List ℕ)
    → Nodup gone
    → AllIn xs gone
    → remove_all gone (xs ++ ys) ≡ remove_all gone xs ++ ys
unfolding remove_all
remove_all-append [] xs ys d all = refl
remove_all-append (a ∷ gone) xs ys d (here, all) =
    rw (remove-append a xs ys here)
      (remove_all-append gone (remove a xs) ys d.1 (AllIn-remove a gone xs d.0 all))

pub AllIn-append_left : (gone xs ys : List ℕ) → AllIn xs gone → AllIn (xs ++ ys) gone
AllIn-append_left [] xs ys all = tt
AllIn-append_left (a ∷ gone) xs ys (here, all) =
    (ground (arith, mem-append a xs ys), AllIn-append_left gone xs ys all)

pub not-mem_of_AllIn :
    (gone xs : List ℕ) (b : ℕ) → AllIn xs gone → mem b xs ≡ false → mem b gone ≡ false
not-mem_of_AllIn [] xs b all h = refl
not-mem_of_AllIn (a ∷ gone) xs b (here, all) h = elim (Bool-cases (b == a)) [
  | inl e ↦ let same : b ≡ a = ground arith in absurd (ground (arith, ap (λ x. mem x xs) same))
  | inr n ↦ rw n (not-mem_of_AllIn gone xs b all h)
]

-- In a list without repetition, what stands before a place does not stand behind it.
pub Nodup-apart :
    (xs : List ℕ) (a : ℕ) (ys : List ℕ)
    → Nodup (xs ++ a ∷ ys)
    → (mem a xs ≡ false) × (mem a ys ≡ false)
Nodup-apart [] a ys d = (refl, d.0)
Nodup-apart (x ∷ xs) a ys d =
    let (before, behind) = Nodup-apart xs a ys d.1 in
    (ground (arith, mem-append x xs (a ∷ ys), d.0), behind)

abbrev pub first : List ℕ → Option ℕ
first [] = none
first (x ∷ xs) = some x

pub next_of-append :
    (xs : List ℕ) (a : ℕ) (ys : List ℕ) → mem a xs ≡ false → next_of a (xs ++ a ∷ ys) ≡ first ys
unfolding next_of
next_of-append [] a [] h = refl
next_of-append [] a (y ∷ ys) h = ground arith
next_of-append (x ∷ []) a ys h = ground (arith, next_of-append [] a ys refl)
next_of-append (x ∷ z ∷ xs) a ys h = ground (arith, next_of-append (z ∷ xs) a ys)
