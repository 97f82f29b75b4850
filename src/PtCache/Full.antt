-- ===== src/PtCache/Full.antt =====
-- The repeated passes of `pt_cache_replace_full`.
use piiptyyt.Glib.HashTable.{HashTable}
use piiptyyt.PtCache.Nodes.{mem}
use piiptyyt.PtCache.State.{Cache, size_sub}
use piiptyyt.PtCache.Invariant.{IsValid}
use piiptyyt.PtCache.Replace.{
  needs_more, pt_cache_replace, replace_full_loop, pt_cache_replace_full,
}
use piiptyyt.PtCache.Evict.{IsReplaced, pt_cache_replace-IsReplaced, needs_more_lem}
use piiptyyt.Prelude.{
  ℕ, zero, suc, ◌≤◌, ◌<◌, ◌≡◌, ◌∙◌, ◌⊎◌, inl, inr, true, false, not, ◌&&◌, some, arith, length,
  ◌==◌, Bool-cases,
}

module _ {K : Type 0} (H : HashTable K ℕ) where
  open H use {Table}

  -- Passes one after the other, each of which replaces as `IsReplaced` says.
  pub data Passes : Cache K Table → Cache K Table → Type 0 where
    no_pass : (c : Cache K Table) → Passes c c
    a_pass : {c c₁ c' : Cache K Table} → IsReplaced H c c₁ → Passes c₁ c' → Passes c c'

  -- What the repeated passes do: there is a last one behind the others, after which few enough
  -- items are inactive, or which has evicted nothing.
  pub record IsReplacedFull (c c' : Cache K Table) : Type 0 where
    pub valid : IsValid H c'
    pub shrunk : c'.count ≤ c.count
    pub same_keys : (a : ℕ) → (c'.items a).key ≡ (c.items a).key
    pub active : c'.active_list ≡ c.active_list
    pub low : c'.wm_low ≡ c.wm_low
    pub high : c'.wm_high ≡ c.wm_high
    pub none_new : (a : ℕ) → mem a c.inactive_list ≡ false → mem a c'.inactive_list ≡ false
    pub last : Cache K Table
    pub passes : Passes c last
    pub last_pass : IsReplaced H last c'
    pub ended : (length c'.inactive_list ≤ c'.wm_low) ⊎ (last.count ≡ c'.count)

  once-IsReplacedFull :
      (c c' : Cache K Table)
      → IsReplaced H c c'
      → needs_more c' && not (c.count == c'.count) ≡ false
      → IsReplacedFull c c'
  once-IsReplacedFull c c' r stop = record {
    valid = r.valid;
    shrunk = r.shrunk;
    same_keys = r.same_keys;
    active = r.active;
    low = r.low;
    high = r.high;
    none_new = r.none_new;
    last = c;
    passes = no_pass c;
    last_pass = r;
    ended = elim (Bool-cases (needs_more c')) [
      | inl more ↦ inr (ground arith)
      | inr enough ↦ inl (ground (arith, needs_more_lem H c' r.valid))
    ];
  }

  then-IsReplacedFull :
      (c c₁ c' : Cache K Table) → IsReplaced H c c₁ → IsReplacedFull c₁ c' → IsReplacedFull c c'
  then-IsReplacedFull c c₁ c' r f = record {
    valid = f.valid;
    shrunk = omega (arith, r.shrunk, f.shrunk);
    same_keys = λ a. f.same_keys a ∙ r.same_keys a;
    active = f.active ∙ r.active;
    low = f.low ∙ r.low;
    high = f.high ∙ r.high;
    none_new = λ a h. f.none_new a (r.none_new a h);
    last = f.last;
    passes = a_pass r f.passes;
    last_pass = f.last_pass;
    ended = f.ended;
  }

  replace_full_loop_again :
      (fuel : ℕ) (c c₁ : Cache K Table)
      → pt_cache_replace H (size_sub c.count c.active_count) c ≡ some c₁
      → needs_more c₁ && not (c.count == c₁.count) ≡ true
      → replace_full_loop H (suc fuel) c ≡ replace_full_loop H fuel c₁
  unfolding replace_full_loop
  replace_full_loop_again fuel c c₁ done again = rw done (ground arith)

  replace_full_loop_stop :
      (fuel : ℕ) (c c₁ : Cache K Table)
      → pt_cache_replace H (size_sub c.count c.active_count) c ≡ some c₁
      → needs_more c₁ && not (c.count == c₁.count) ≡ false
      → replace_full_loop H (suc fuel) c ≡ some c₁
  unfolding replace_full_loop
  replace_full_loop_stop fuel c c₁ done stop = rw done (ground arith)

  replace_full_loop-IsReplacedFull :
      (fuel : ℕ) (c : Cache K Table)
      → c.count < fuel
      → IsValid H c
      → (c' : Cache K Table) × (replace_full_loop H fuel c ≡ some c') × IsReplacedFull c c'
  replace_full_loop-IsReplacedFull zero c h v = absurd (omega arith)
  replace_full_loop-IsReplacedFull (suc fuel) c h v =
      let (c₁, done, r) = pt_cache_replace-IsReplaced H c v in
      elim (Bool-cases (needs_more c₁ && not (c.count == c₁.count))) [
        | inl again ↦
            let (c', rest, f) =
              replace_full_loop-IsReplacedFull fuel c₁ (ground (arith, r.shrunk)) r.valid in
            (
              c',
              replace_full_loop_again fuel c c₁ done again ∙ rest,
              then-IsReplacedFull c c₁ c' r f,
            )
        | inr stop ↦
            (c₁, replace_full_loop_stop fuel c c₁ done stop, once-IsReplacedFull c c₁ r stop)
      ]

  -- The repeated passes over a valid cache end and fail no assertion. There is at least one pass,
  -- each replaces as `IsReplaced` says, and at the end no more than `wm_low` items are inactive, or
  -- the last pass has evicted nothing.
  pub replace_full-IsReplacedFull :
      (c : Cache K Table)
      → IsValid H c
      → (c' : Cache K Table) × (pt_cache_replace_full H c ≡ some c') × IsReplacedFull c c'
  unfolding pt_cache_replace_full
  replace_full-IsReplacedFull c v = replace_full_loop-IsReplacedFull (suc c.count) c (omega arith) v
