-- ===== src/PtCache/Evict.antt =====
-- `pt_cache_replace` as a whole, and its repetition in `pt_cache_replace_full`.
use piiptyyt.Glib.HashTable.{HashTable}
use piiptyyt.PtCache.Nodes.{mem}
use piiptyyt.PtCache.Batches.{first, remove_all, length-remove_all}
use piiptyyt.PtCache.State.{Cache, size_sub}
use piiptyyt.PtCache.Invariant.{IsValid}
use piiptyyt.PtCache.Replace.{
  max_replace, Scan, needs_more, replace_round, replace_loop, replace_from, pt_cache_replace,
}
use piiptyyt.PtCache.Scan.{IsScanning, flush_scan}
use piiptyyt.PtCache.Visit.{replace_round-IsScanning}
use piiptyyt.Prelude.{
  ℕ, suc, ◌/◌, ◌≤◌, ◌<◌, ◌≡◌, refl, ap, ◌∙◌, ◌⊎◌, inl, inr, true, false, some, List, [], ◌∷◌, ◌++◌,
  arith, length, length-append, ltb, Bool-cases, ◌>>=◌,
}

module _ {K : Type 0} (H : HashTable K ℕ) where
  open H use {Table}

  replace_loop_more :
      (n : ℕ) (s : Scan K Table)
      → needs_more s.cache ≡ true
      → replace_loop H (suc n) s ≡ (replace_round H s.hand s >>= replace_loop H n)
  unfolding replace_loop
  replace_loop_more n s more = rw (more, replace_loop)

  replace_loop_enough :
      (n : ℕ) (s : Scan K Table) → needs_more s.cache ≡ false → replace_loop H (suc n) s ≡ some s
  unfolding replace_loop
  replace_loop_enough n s enough = rw (enough, replace_loop)

  -- The loop, with a round for each item that is left, makes no bad access and fails no assertion.
  -- It ends behind the last item, or where enough was evicted.
  replace_loop-IsScanning :
      (c : Cache K Table) (rest visited : List ℕ) (s : Scan K Table)
      → IsScanning H max_replace c visited rest s
      → (s' : Scan K Table) × (visited' rest' : List ℕ) × (replace_loop H (length rest) s ≡ some s')
        × IsScanning H max_replace c visited' rest' s'
        × ((rest' ≡ []) ⊎ (needs_more s'.cache ≡ false))
  replace_loop-IsScanning c [] visited s v =
      (s, visited, [], unfold replace_loop in refl, v, inl refl)
  replace_loop-IsScanning c (a ∷ rest) visited s v = elim (Bool-cases (needs_more s.cache)) [
    | inl more ↦
        let (s₁, visited₁, done₁, w) = replace_round-IsScanning H c visited a rest s v in
        let (s₂, visited₂, rest₂, done₂, w₂, why) = replace_loop-IsScanning c rest visited₁ s₁ w in
        (s₂, visited₂, rest₂, replace_loop_more (length rest) s more ∙ rw done₁ done₂, w₂, why)
    | inr enough ↦ (s, visited, a ∷ rest, replace_loop_enough (length rest) s enough, v, inr enough)
  ]

  -- What one pass does to the cache.
  pub record IsReplaced (c c' : Cache K Table) : Type 0 where
    pub valid : IsValid H c'
    pub shrunk : c'.count ≤ c.count
    pub same_keys : (a : ℕ) → (c'.items a).key ≡ (c.items a).key
    pub active : c'.active_list ≡ c.active_list
    pub low : c'.wm_low ≡ c.wm_low
    pub high : c'.wm_high ≡ c.wm_high
    -- An item that was used since it was aged to 0 stays.
    pub kept :
        (a : ℕ) → mem a c.inactive_list ≡ true → 0 < (c.items a).age → mem a c'.inactive_list ≡ true
    pub none_new : (a : ℕ) → mem a c.inactive_list ≡ false → mem a c'.inactive_list ≡ false
    -- If the pass ends with too many items still, it has seen all: those of age 0 are gone, and
    -- the age of the others is halved.
    pub swept :
        needs_more c' ≡ true
        → (a : ℕ) → mem a c'.inactive_list ≡ true
        → (0 < (c.items a).age) × ((c'.items a).age ≡ (c.items a).age / 2)

  pub needs_more_lem :
      (c : Cache K Table) → IsValid H c → needs_more c ≡ ltb c.wm_low (length c.inactive_list)
  unfolding needs_more
  needs_more_lem c v =
      let e : size_sub c.count c.active_count ≡ length c.inactive_list =
        omega (arith, v.counts.counted, v.counts.actives, v.counts.small) in
      ap (ltb c.wm_low) e

  pub size_sub-inactive :
      (c : Cache K Table) → IsValid H c → size_sub c.count c.active_count ≡ length c.inactive_list
  size_sub-inactive c v = omega (arith, v.counts.counted, v.counts.actives, v.counts.small)

  start-IsScanning :
      (c : Cache K Table) (a : ℕ) (rest : List ℕ)
      → IsValid H c
      → c.inactive_list ≡ a ∷ rest
      → IsScanning H max_replace c [] (a ∷ rest) (record { hand = some a; r_buf = []; cache = c })
  start-IsScanning c a rest v e = record {
    valid = v;
    split = e;
    at_hand = refl;
    hand_in = ground (arith, ap (mem a) e);
    buf_nodup = tt;
    buf_in = tt;
    buf_short = omega arith;
    buf_unused = tt;
    fresh = λ b h. refl;
    kept = λ b h old. h;
    none_new = λ b h. h;
    waiting = λ b h unused. ground (arith, ap (mem b) e);
    halved = λ b h out old. absurd (ground (arith, ap (mem b) e));
    shrunk = omega arith;
    same_keys = λ b. refl;
    active = refl;
    low = refl;
    high = refl;
  }

  more-IsScanning :
      (c : Cache K Table) (visited rest : List ℕ) (s : Scan K Table)
      → IsScanning H max_replace c visited rest s
      → IsScanning H (suc max_replace) c visited rest s
  more-IsScanning c visited rest s v = record {
    valid = v.valid;
    split = v.split;
    at_hand = v.at_hand;
    hand_in = v.hand_in;
    buf_nodup = v.buf_nodup;
    buf_in = v.buf_in;
    buf_short = omega (arith, v.buf_short);
    buf_unused = v.buf_unused;
    fresh = v.fresh;
    kept = v.kept;
    none_new = v.none_new;
    waiting = v.waiting;
    halved = v.halved;
    shrunk = v.shrunk;
    same_keys = v.same_keys;
    active = v.active;
    low = v.low;
    high = v.high;
  }

  -- The final flush leaves no more inactive items than there were.
  flush_scan-le :
      (c c' : Cache K Table) (visited rest : List ℕ) (s : Scan K Table)
      → IsScanning H max_replace c visited rest s
      → c'.inactive_list ≡ remove_all s.r_buf visited ++ rest
      → length c'.inactive_list ≤ length s.cache.inactive_list
  flush_scan-le c c' visited rest s w e = omega (
    arith,
    ap length e,
    ap length w.split,
    length-append (remove_all s.r_buf visited) rest,
    length-append visited rest,
    length-remove_all s.r_buf visited w.buf_nodup w.buf_in,
  )

  scan-swept :
      (c c' : Cache K Table) (visited rest : List ℕ) (s : Scan K Table)
      → IsScanning H max_replace c visited rest s
      → IsScanning H max_replace c
          (remove_all s.r_buf visited)
          rest
          (record { hand = c'.repl_hand; r_buf = []; cache = c' })
      → (rest ≡ []) ⊎ (needs_more s.cache ≡ false)
      → needs_more c' ≡ true
      → (b : ℕ) → mem b c'.inactive_list ≡ true
      → (0 < (c.items b).age) × ((c'.items b).age ≡ (c.items b).age / 2)
  scan-swept c c' visited rest s w w' (inl ended) more b h =
      let out : mem b rest ≡ false = ap (mem b) ended in
      let old : 0 < (c.items b).age = ground (arith, w'.waiting b h) in
      (old, w'.halved b (ground (arith, w'.none_new b)) out old)
  scan-swept c c' visited rest s w w' (inr enough) more b h =
      let fewer = flush_scan-le c c' visited rest s w w'.split in
      absurd (
        ground
          (arith, needs_more_lem s.cache w.valid, needs_more_lem c' w'.valid, w.low, w'.low, fewer))

  replace_from-IsReplaced :
      (c : Cache K Table) (xs : List ℕ)
      → IsValid H c
      → c.inactive_list ≡ xs
      → (c' : Cache K Table) × (replace_from H (first xs) (length xs) c ≡ some c') × IsReplaced c c'
  unfolding replace_from
  replace_from-IsReplaced c [] v e = (
    c,
    refl,
    record {
      valid = v;
      shrunk = omega arith;
      same_keys = λ a. refl;
      active = refl;
      low = refl;
      high = refl;
      kept = λ a h old. h;
      none_new = λ a h. h;
      swept = λ more a h. absurd (ground (arith, ap (mem a) e));
    },
  )
  replace_from-IsReplaced c (a ∷ rest) v e =
      let start : Scan K Table = record { hand = some a; r_buf = []; cache = c } in
      let (s, visited', rest', looped, w, why) =
        replace_loop-IsScanning c (a ∷ rest) [] start (start-IsScanning c a rest v e) in
      let (c', done, w') = flush_scan H c visited' rest' s (more-IsScanning c visited' rest' s w) in
      (
        c',
        rw looped done,
        record {
          valid = w'.valid;
          shrunk =
              omega
                (arith, w'.valid.counts.counted, v.counts.counted, w'.shrunk, ap length w'.active);
          same_keys = w'.same_keys;
          active = w'.active;
          low = w'.low;
          high = w'.high;
          kept = w'.kept;
          none_new = w'.none_new;
          swept = λ more b h. scan-swept c c' visited' rest' s w w' why more b h;
        },
      )

  -- One pass over a valid cache, with a round for each inactive item, as `pt_cache_replace_full`
  -- asks for it: it does not fail, and does what `IsReplaced` says.
  pub pt_cache_replace-IsReplaced :
      (c : Cache K Table)
      → IsValid H c
      → (c' : Cache K Table) × (pt_cache_replace H (size_sub c.count c.active_count) c ≡ some c')
        × IsReplaced c c'
  unfolding pt_cache_replace
  pt_cache_replace-IsReplaced c v =
      let (c', done, r) = replace_from-IsReplaced c c.inactive_list v refl in
      (c', rw (size_sub-inactive c v) done, r)
