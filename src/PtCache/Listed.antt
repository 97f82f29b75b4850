-- ===== src/PtCache/Listed.antt =====
-- The items that an iteration over the hash table of a `PtCache` meets.
use mathlib.Core.Logic.{if_pos, if_neg}
use piiptyyt.Glib.HashTable.{find, Distinct}
use piiptyyt.PtCache.Batches.{
  remove_all, AllIn, length-remove_all, mem-remove_all-le, mem-remove_all_self,
}
use piiptyyt.PtCache.Nodes.{mem, Nodup, mem-append}
use piiptyyt.Prelude.{
  ℕ, ◌≡◌, refl, sym, ap, ◌∙◌, inl, inr, true, false, none, some, List, [], ◌∷◌, ◌++◌, arith, length,
  ◌==◌, Bool-cases,
}

unfoldable pub values : {K : Type 0} → List (K × ℕ) → List ℕ
values [] = []
values ((k, a) ∷ l) = a ∷ values l

module _ {K : Type 0} (dec : Discrete K) where
  find-cons_other :
      (j k : K) (v a : ℕ) (l : List (K × ℕ))
      → find dec j l ≡ none
      → find dec k l ≡ some a
      → find dec k ((j, v) ∷ l) ≡ some a
  unfolding find
  find-cons_other j k v a l new found =
      if_neg (dec j k) (λ e. ground (arith, ap (λ x. find dec x l) e)) (some v) (find dec k l)
      ∙ found

  pub find-mem :
      (k : K) (a : ℕ) (l : List (K × ℕ)) → find dec k l ≡ some a → mem a (values l) ≡ true
  unfolding find values
  find-mem k a [] h = cc
  find-mem k a ((j, v) ∷ l) h = elim (dec j k) [
    | yes e ↦
        let same : some v ≡ some a = sym (if_pos (dec j k) e (some v) (find dec k l)) ∙ h in
        ground arith
    | no n ↦
        let later : find dec k l ≡ some a = sym (if_neg (dec j k) n (some v) (find dec k l)) ∙ h in
        ground (arith, find-mem k a l later)
  ]

  pub mem-find :
      (a : ℕ) (l : List (K × ℕ))
      → Distinct dec l
      → mem a (values l) ≡ true
      → (k : K) × (find dec k l ≡ some a)
  unfolding find values
  mem-find a [] d h = absurd (ground arith)
  mem-find a ((j, v) ∷ l) (new, d) h = elim (Bool-cases (a == v)) [
    | inl e ↦
        let same : v ≡ a = ground arith in
        (j, if_pos (dec j j) refl (some v) (find dec j l) ∙ ap some same)
    | inr n ↦
        let (k, found) = mem-find a l d (rw n at h) in (k, find-cons_other j k v a l new found)
  ]

  -- No item is met twice where each is listed under its own key.
  pub values-Nodup :
      (key : ℕ → K) (l : List (K × ℕ))
      → Distinct dec l
      → ((k : K) (a : ℕ) → find dec k l ≡ some a → key a ≡ k)
      → Nodup (values l)
  unfolding values find
  values-Nodup key [] d own = tt
  values-Nodup key ((j, v) ∷ l) (new, d) own =
      let first_own : key v ≡ j = own j v (if_pos (dec j j) refl (some v) (find dec j l)) in
      (
        elim (Bool-cases (mem v (values l))) [
          | inl again ↦
              let (k, found) = mem-find v l d again in
              let e : k ≡ j = sym (own k v (find-cons_other j k v v l new found)) ∙ first_own in
              absurd (ground (arith, ap (λ x. find dec x l) e))
          | inr once ↦ once
        ],
        values-Nodup key l d (λ k a found. own k a (find-cons_other j k v a l new found)),
      )

no_members : (xs : List ℕ) → ((b : ℕ) → mem b xs ≡ false) → xs ≡ []
no_members [] none_in = refl
no_members (x ∷ xs) none_in = absurd (ground (arith, none_in x))

-- Nothing is left of a list when all of its nodes leave it.
pub remove_all-everything :
    (gone xs : List ℕ)
    → Nodup xs
    → ((b : ℕ) → mem b xs ≡ true → mem b gone ≡ true)
    → remove_all gone xs ≡ []
remove_all-everything gone xs d all = no_members (remove_all gone xs) (λ b.
    elim (Bool-cases (mem b xs)) [
      | inl here ↦ mem-remove_all_self gone xs b d (all b here)
      | inr out ↦ mem-remove_all-le gone xs b out
    ])

members-AllIn :
    (gone xs : List ℕ)
    → Nodup gone
    → ((b : ℕ) → mem b gone ≡ true → mem b xs ≡ true)
    → AllIn xs gone
members-AllIn [] xs d all = tt
members-AllIn (a ∷ gone) xs d all =
    (all a (ground arith), members-AllIn gone xs d.1 (λ b h. all b (ground arith)))

-- Two lists without repetition and with the same members are equally long.
pub length-same_members :
    (xs ys : List ℕ) → Nodup xs → Nodup ys → ((b : ℕ) → mem b xs ≡ mem b ys) → length xs ≡ length ys
length-same_members xs ys dx dy same = omega (
  arith,
  length-remove_all xs ys dx (members-AllIn xs ys dx (λ b h. sym (same b) ∙ h)),
  ap length (remove_all-everything xs ys dy (λ b h. same b ∙ h)),
)

pub Nodup-append :
    (xs ys : List ℕ)
    → Nodup xs
    → Nodup ys
    → ((b : ℕ) → mem b xs ≡ true → mem b ys ≡ false)
    → Nodup (xs ++ ys)
Nodup-append [] ys dx dy apart = dy
Nodup-append (x ∷ xs) ys (new, dx) dy apart = (
  ground (arith, mem-append x xs ys, apart x),
  Nodup-append xs ys dx dy (λ b h. apart b (ground arith)),
)
