-- ===== src/Model/Sorted.antt =====
-- Lists of ids in descending order, and the place of a new one.
use piiptyyt.Model.Ordered.{Descending}
use piiptyyt.Model.Rows.{times}
use piiptyyt.Prelude.{
  ℕ, zero, suc, ◌+◌, ◌≤◌, ◌<◌, ◌≡◌, refl, sym, ap, ◌∙◌, some, List, [], ◌∷◌, ◌++◌, arith, get_elem?,
  take, drop, All,
}

times-le : (x b : ℕ) (l : List ℕ) → All (λ c. c ≤ b) l → 0 < times x l → x ≤ b
times-le x b [] all h = absurd (omega (arith, h))
times-le x b (c ∷ l) (le, all) h = ground (arith, times-le x b l all)

times_self : (x : ℕ) (l : List ℕ) → times x (x ∷ l) ≡ times x l + 1
times_self x l = ground arith

first_le : (a b : ℕ) (l m : List ℕ) → Descending (b ∷ m) → times a (a ∷ l) ≡ times a (b ∷ m) → a ≤ b
first_le a b l m d same =
    times-le a b (b ∷ m) (omega arith, d.0) (omega (arith, same, times_self a l))

-- There is one way to put ids into descending order.
pub Descending-unique :
    (l m : List ℕ) → Descending l → Descending m → ((x : ℕ) → times x l ≡ times x m) → l ≡ m
Descending-unique [] [] d e same = refl
Descending-unique [] (b ∷ m) d e same = absurd (omega (arith, same b, times_self b m))
Descending-unique (a ∷ l) [] d e same = absurd (omega (arith, same a, times_self a l))
Descending-unique (a ∷ l) (b ∷ m) d e same =
    let up : a ≤ b = first_le a b l m e (same a) in
    let down : b ≤ a = first_le b a m l d (sym (same b)) in
    let equal : a ≡ b = omega (arith, up, down) in
    let rest : l ≡ m = Descending-unique l m d.1 e.1 (λ x. ground (arith, same x)) in
    ap (λ c. c ∷ l) equal ∙ ap (λ t. b ∷ t) rest

times-get_elem? : (l : List ℕ) (i x : ℕ) → get_elem? l i ≡ some x → 0 < times x l
times-get_elem? [] i x h = ground arith
times-get_elem? (a ∷ l) zero x h = ground arith
times-get_elem? (a ∷ l) (suc i) x h = ground (arith, times-get_elem? l i x)

-- An id is put where it stands in the sorted list of all.
pub placed-Descending :
    (i x : ℕ) (s old : List ℕ)
    → Descending s
    → Descending old
    → ((y : ℕ) → times y s ≡ times y (x ∷ old))
    → get_elem? s i ≡ some x
    → take i old ++ x ∷ drop i old ≡ s
placed-Descending i x [] old d e same at = ground arith
placed-Descending zero x (b ∷ s) old d e same at =
    let here : b ≡ x = ground arith in
    let rest : old ≡ s = Descending-unique old s e d.1 (λ y. ground (arith, same y)) in
    ap (λ t. x ∷ t) rest ∙ ap (λ c. c ∷ s) (sym here)
placed-Descending (suc i) x (b ∷ s) [] d e same at =
    absurd (ground (arith, same x, same b, times-get_elem? s i x))
placed-Descending (suc i) x (b ∷ s) (c ∷ old) d e same at =
    let later : 0 < times x s = times-get_elem? s i x at in
    let top : c ≤ b = times-le c b (b ∷ s) (omega arith, d.0) (ground (arith, same c)) in
    let down : b ≤ c = times-le b c (c ∷ old) (omega arith, e.0) (ground (arith, same b, later)) in
    let equal : c ≡ b = omega (arith, top, down) in
    let rest : take i old ++ x ∷ drop i old ≡ s =
      placed-Descending i x s old d.1 e.1 (λ y. ground (arith, same y)) at in
    ap (λ t. c ∷ t) rest ∙ ap (λ a. a ∷ s) equal
