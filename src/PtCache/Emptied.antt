-- ===== src/PtCache/Emptied.antt =====
-- The loops of `pt_cache_dispose`: the items are collected, and flushed in batches.
use piiptyyt.PtCache.Dispose.{collect_items, dispose_loop}
use mathlib.Core.Path.{subst}
use piiptyyt.Glib.HashTable.{HashTable}
use piiptyyt.PtCache.Invariant.{IsLinked}
use piiptyyt.PtCache.Listed.{values}
use piiptyyt.PtCache.Nodes.{mem}
use piiptyyt.PtCache.Replace.{max_replace}
use piiptyyt.PtCache.State.{Item, Cache}
use piiptyyt.PtCache.Unkeyed.{IsUnlinked, none-IsUnlinked, both-IsUnlinked, flush_items-IsUnlinked}
use piiptyyt.Prelude.{
  map-append, take, drop, take-drop, length-take, ℕ, zero, suc, ◌+◌, ◌^◌, ◌≤◌, ◌<◌, ◌≡◌, refl, sym,
  ap, ◌∙◌, Bool, true, false, none, some, List, [], ◌∷◌, ◌++◌, map, append-nil, append_assoc, arith,
  length, length-append, if◌then◌else◌,
}

take-cons : (n x : ℕ) (xs : List ℕ) → 0 < n → 0 < length (take n (x ∷ xs))
take-cons zero x xs h = ground arith
take-cons (suc n) x xs h = omega arith

-- What the objects of the items add to the log of the flush function.
abbrev logged_by : {K : Type 0} → Bool → List ℕ → (ℕ → Item K) → List ℕ → List ℕ
logged_by on log items gone = if on then log ++ map (λ b. (items b).ref) gone else log

logged_twice :
    {K : Type 0} (on : Bool) (log : List ℕ) (items : ℕ → Item K) (xs ys : List ℕ)
    → logged_by on (logged_by on log items xs) items ys ≡ logged_by on log items (xs ++ ys)
logged_twice true log items xs ys =
    let f : ℕ → ℕ = λ b. (items b).ref in
    append_assoc log (map f xs) (map f ys) ∙ sym (ap (λ l. log ++ l) (map-append f xs ys))
logged_twice false log items xs ys = refl

abbrev pub logged : {K Table : Type 0} → List ℕ → Cache K Table → List ℕ
logged gone c = logged_by c.flush_fn c.flushed c.items gone

module _ {K : Type 0} (H : HashTable K ℕ) (same_key : ℕ → Bool) where
  open H use {Table}

  pub collect_items-values :
      (l : List (K × ℕ))
      → ((a : ℕ) → mem a (values l) ≡ true → same_key a ≡ true)
      → collect_items H same_key l ≡ some (values l)
  unfolding collect_items values
  collect_items-values [] kept = refl
  collect_items-values ((k, a) ∷ l) kept =
      rw (kept a (ground arith), collect_items-values l (λ b h. kept b (ground arith))) refl

  pub dispose_loop-IsUnlinked :
      (fuel : ℕ) (items : List ℕ) (c : Cache K Table)
      → IsLinked c
      → c.keys ≡ none
      → c.count < 2 ^ 31
      → c.count ≡ length items
      → length items ≤ fuel
      → (c' : Cache K Table) × (dispose_loop H same_key fuel items c ≡ some c')
        × IsUnlinked H items c c'
        × (c'.count ≡ 0)
        × (c'.flushed ≡ logged items c)
  unfolding dispose_loop
  dispose_loop-IsUnlinked fuel [] c l k small all enough =
      (c, refl, none-IsUnlinked H c l k, all, ground (arith, append-nil c.flushed))
  dispose_loop-IsUnlinked zero (a ∷ items) c l k small all enough = absurd (omega (arith, enough))
  dispose_loop-IsUnlinked (suc fuel) (a ∷ items) c l k small all enough =
      let gone : List ℕ = take max_replace (a ∷ items) in
      let rest : List ℕ = drop max_replace (a ∷ items) in
      let whole : gone ++ rest ≡ a ∷ items = take-drop max_replace (a ∷ items) in
      let sum : length gone + length rest ≡ length (a ∷ items) =
        sym (length-append gone rest) ∙ ap length whole in
      let some_gone : 0 < length gone = take-cons max_replace a items (omega arith) in
      let (c₁, done₁, f₁, n₁, log₁) =
        flush_items-IsUnlinked H gone c l k small (length-take max_replace (a ∷ items))
          (omega (arith, sum, all)) in
      let (c₂, done₂, f₂, n₂, log₂) =
        dispose_loop-IsUnlinked fuel rest c₁ f₁.linked f₁.keys (omega (arith, n₁, small))
          (omega (arith, n₁, sum, all)) (omega (arith, sum, some_gone, enough)) in
      (
        c₂,
        rw done₁ done₂,
        subst (λ x. IsUnlinked H x c c₂) whole (both-IsUnlinked H gone rest c c₁ c₂ f₁ f₂),
        n₂,
        log₂
            ∙ ap (λ x. logged_by x c₁.flushed c₁.items rest) f₁.flush_fn
            ∙ ap (λ x. logged_by c.flush_fn x c₁.items rest) log₁
            ∙ ap (λ x. logged_by c.flush_fn (logged gone c) x rest) f₁.items
            ∙ logged_twice c.flush_fn c.flushed c.items gone rest
            ∙ ap (λ x. logged x c) whole,
      )
