-- ===== src/PtCache/Scan.antt =====
-- The scan of `pt_cache_replace`: each inactive item is visited once, in order.
use piiptyyt.Glib.HashTable.{HashTable}
use piiptyyt.PtCache.Nodes.{mem, Nodup, mem-append}
use piiptyyt.PtCache.Batches.{
  remove_all, AllIn, length-remove_all, mem-remove_all, mem-remove_all-le, mem-remove_all_self,
  remove_all-append, AllIn-append_left, not-mem_of_AllIn, Nodup-apart, next_of-append,
}
use piiptyyt.PtCache.State.{Cache}
use piiptyyt.PtCache.Invariant.{HandIn, IsValid}
use piiptyyt.PtCache.Index.{IsIndexed-items}
use piiptyyt.PtCache.Replace.{max_replace, Scan, halve_age, advance, flush_items}
use piiptyyt.PtCache.Flush.{IsEvicted, flush_items-IsEvicted}
use piiptyyt.Prelude.{
  ℕ, suc, ◌/◌, ◌≤◌, ◌<◌, ◌≡◌, refl, ap, ◌∙◌, inl, inr, true, false, ◌||◌, Option, some, List, [],
  ◌∷◌, ◌++◌, arith, length, All, ◌==◌, Bool-cases,
}

-- The hand stands at the first item that is left.
abbrev pub AtFirst : Option ℕ → List ℕ → Type 0
AtFirst hand [] = Unit
AtFirst hand (a ∷ rest) = hand ≡ some a

-- Where the hand goes from the first item that is left.
advance_within :
    (visited : List ℕ) (a b : ℕ) (rest : List ℕ)
    → Nodup (visited ++ a ∷ b ∷ rest)
    → advance a (visited ++ a ∷ b ∷ rest) ≡ some b
unfolding advance
advance_within visited a b rest d =
    ground (arith, next_of-append visited a (b ∷ rest) (Nodup-apart visited a (b ∷ rest) d).0)

advance_last :
    (visited : List ℕ) (a : ℕ)
    → Nodup (visited ++ a ∷ [])
    → HandIn (advance a (visited ++ a ∷ [])) (visited ++ a ∷ [])
unfolding advance
advance_last [] a d = ground (arith, next_of-append [] a [] refl)
advance_last (x ∷ visited) a d =
    ground (arith, next_of-append (x ∷ visited) a [] (Nodup-apart (x ∷ visited) a [] d).0)

pub mem_middle : (xs : List ℕ) (a : ℕ) (ys : List ℕ) → mem a (xs ++ a ∷ ys) ≡ true
mem_middle xs a ys = ground (arith, mem-append a xs (a ∷ ys))

pub advance-AtFirst :
    (visited : List ℕ) (a : ℕ) (rest : List ℕ)
    → Nodup (visited ++ a ∷ rest)
    → AtFirst (advance a (visited ++ a ∷ rest)) rest
      × HandIn (advance a (visited ++ a ∷ rest)) (visited ++ a ∷ rest)
advance-AtFirst visited a [] d = (tt, advance_last visited a d)
advance-AtFirst visited a (b ∷ rest) d =
    let e = advance_within visited a b rest d in
    (e, rw e (ground (arith, mem-append b visited (a ∷ b ∷ rest))))

not-mem_of_unused :
    (age : ℕ → ℕ) (buf : List ℕ) (b : ℕ) → All (λ a. age a ≡ 0) buf → 0 < age b → mem b buf ≡ false
not-mem_of_unused age [] b all old = refl
not-mem_of_unused age (a ∷ buf) b (h, all) old =
    ground (arith, not-mem_of_unused age buf b all old, ap age)

pub other_item :
    (a b : ℕ) (rest : List ℕ) → mem b rest ≡ true → mem a rest ≡ false → (b == a) ≡ false
other_item a b rest h apart = elim (Bool-cases (b == a)) [
  | inl e ↦ let same : b ≡ a = ground arith in absurd (ground (arith, ap (λ x. mem x rest) same))
  | inr n ↦ n
]

module _ {K : Type 0} (H : HashTable K ℕ) where
  open H use {Table}

  -- The loop on the way from the cache `c`: the inactive items are those visited, and the rest.
  -- Fewer than `limit` items wait in the buffer.
  pub record IsScanning (limit : ℕ) (c : Cache K Table) (visited rest : List ℕ) (s : Scan K Table)
      : Type 0 where
    pub valid : IsValid H s.cache
    pub split : s.cache.inactive_list ≡ visited ++ rest
    pub at_hand : AtFirst s.hand rest
    pub hand_in : HandIn s.hand s.cache.inactive_list
    pub buf_nodup : Nodup s.r_buf
    pub buf_in : AllIn visited s.r_buf
    pub buf_short : length s.r_buf < limit
    pub buf_unused : All (λ a. (c.items a).age ≡ 0) s.r_buf
    pub fresh : (a : ℕ) → mem a rest ≡ true → (s.cache.items a).age ≡ (c.items a).age
    pub kept :
        (a : ℕ)
        → mem a c.inactive_list ≡ true
        → 0 < (c.items a).age
        → mem a s.cache.inactive_list ≡ true
    pub none_new : (a : ℕ) → mem a c.inactive_list ≡ false → mem a s.cache.inactive_list ≡ false
    pub waiting :
        (a : ℕ)
        → mem a s.cache.inactive_list ≡ true
        → (c.items a).age ≡ 0
        → (mem a rest || mem a s.r_buf) ≡ true
    pub halved :
        (a : ℕ)
        → mem a c.inactive_list ≡ true
        → mem a rest ≡ false
        → 0 < (c.items a).age
        → (s.cache.items a).age ≡ (c.items a).age / 2
    pub shrunk : length s.cache.inactive_list ≤ length c.inactive_list
    pub same_keys : (a : ℕ) → (s.cache.items a).key ≡ (c.items a).key
    pub active : s.cache.active_list ≡ c.active_list
    pub low : s.cache.wm_low ≡ c.wm_low
    pub high : s.cache.wm_high ≡ c.wm_high

  pub halve_age-IsValid : (a : ℕ) (c : Cache K Table) → IsValid H c → IsValid H (halve_age a c)
  unfolding halve_age
  halve_age-IsValid a c v = record {
    linked = v.linked;
    counts = record {
      counted = v.counts.counted;
      actives = v.counts.actives;
      small = v.counts.small;
    };
    index = IsIndexed-items H c.keys c.items _ _ (λ b. ground arith) v.index;
    sized = v.sized;
  }

  flush-AtFirst :
      (c c' : Cache K Table) (gone visited rest : List ℕ)
      → IsEvicted H gone c c'
      → Nodup (visited ++ rest)
      → AllIn visited gone
      → AtFirst c.repl_hand rest
      → AtFirst c'.repl_hand rest
  flush-AtFirst c c' gone visited [] e d all h = tt
  flush-AtFirst c c' gone visited (b ∷ rest) e d all h =
      e.hand b h (not-mem_of_AllIn gone visited b all (Nodup-apart visited b rest d).0)

  -- The buffer is flushed, and the scan goes on.
  pub flush_scan :
      (c : Cache K Table) (visited rest : List ℕ) (s : Scan K Table)
      → IsScanning (suc max_replace) c visited rest s
      → (c' : Cache K Table) × (flush_items H s.r_buf (record (s.cache) { repl_hand = s.hand })
          ≡ some c')
        × IsScanning max_replace c
            (remove_all s.r_buf visited)
            rest
            (record { hand = c'.repl_hand; r_buf = []; cache = c' })
  flush_scan c visited rest s v =
      let l = v.valid.linked in
      let start : Cache K Table = record (s.cache) { repl_hand = s.hand } in
      let ready : IsValid H start = record {
        linked = record {
          active_nodup = l.active_nodup;
          inactive_nodup = l.inactive_nodup;
          apart = l.apart;
          hand_in = v.hand_in;
        };
        counts = record {
          counted = v.valid.counts.counted;
          actives = v.valid.counts.actives;
          small = v.valid.counts.small;
        };
        index = v.valid.index;
        sized = v.valid.sized;
      } in
      let all : AllIn s.cache.inactive_list s.r_buf =
        rw v.split (AllIn-append_left s.r_buf visited rest v.buf_in) in
      let d : Nodup (visited ++ rest) = rw v.split at l.inactive_nodup in
      let (c', done, e) =
        flush_items-IsEvicted H s.r_buf start ready v.buf_nodup all (omega (arith, v.buf_short)) in
      (
        c',
        done,
        record {
          valid = e.valid;
          split =
              e.inactive
              ∙ (ap (remove_all s.r_buf) v.split
                  ∙ remove_all-append s.r_buf visited rest v.buf_nodup v.buf_in);
          at_hand = flush-AtFirst start c' s.r_buf visited rest e d v.buf_in v.at_hand;
          hand_in = e.valid.linked.hand_in;
          buf_nodup = tt;
          buf_in = tt;
          buf_short = omega arith;
          buf_unused = tt;
          fresh = λ b h. ap (λ f. (f b).age) e.items ∙ v.fresh b h;
          kept = λ b h old.
              let stays = not-mem_of_unused (λ a. (c.items a).age) s.r_buf b v.buf_unused old in
              ap (mem b) e.inactive
              ∙ (mem-remove_all s.r_buf s.cache.inactive_list b stays ∙ v.kept b h old);
          none_new = λ b h.
              ap (mem b) e.inactive
              ∙ mem-remove_all-le s.r_buf s.cache.inactive_list b (v.none_new b h);
          waiting = λ b h unused. elim (Bool-cases (mem b s.r_buf)) [
            | inl in_buf ↦ absurd (
                ground (
                  arith,
                  ap (mem b) e.inactive,
                  mem-remove_all_self s.r_buf s.cache.inactive_list b l.inactive_nodup in_buf,
                ))
            | inr out ↦ ground (
              arith,
              ap (mem b) e.inactive,
              mem-remove_all s.r_buf s.cache.inactive_list b out,
              v.waiting b,
            )
          ];
          halved = λ b h out old. ap (λ f. (f b).age) e.items ∙ v.halved b h out old;
          shrunk = omega (
            arith,
            ap length e.inactive,
            length-remove_all s.r_buf s.cache.inactive_list v.buf_nodup all,
            v.shrunk,
          );
          same_keys = λ b. ap (λ f. (f b).key) e.items ∙ v.same_keys b;
          active = e.active ∙ v.active;
          low = e.low ∙ v.low;
          high = e.high ∙ v.high;
        },
      )
