-- ===== src/PtCache/Visit.antt =====
-- One round of the loop in `pt_cache_replace`, on each branch.
use mathlib.Core.Path.{subst}
use piiptyyt.Glib.HashTable.{HashTable}
use piiptyyt.PtCache.Nodes.{mem, Nodup, mem-append, Nodup-append_one}
use piiptyyt.PtCache.Batches.{remove_all, AllIn, AllIn-append_left, not-mem_of_AllIn, Nodup-apart}
use piiptyyt.PtCache.State.{Cache}
use piiptyyt.PtCache.Invariant.{HandIn}
use piiptyyt.PtCache.Replace.{
  max_replace, Scan, halve_age, advance, flush_full, visit, replace_round,
}
use piiptyyt.Prelude.{
  ℕ, suc, ◌/◌, ◌<◌, ◌≡◌, sym, ap, ◌∙◌, inl, inr, true, false, ◌||◌, some, List, [], ◌∷◌, ◌++◌,
  append_assoc, arith, length, length-append, All, All-append, ltb, ◌==◌, Bool-cases,
}
use piiptyyt.PtCache.Scan.{
  AtFirst, IsScanning, flush_scan, other_item, mem_middle, advance-AtFirst, halve_age-IsValid,
}

module _ {K : Type 0} (H : HashTable K ℕ) where
  open H use {Table}

  module _ (c : Cache K Table) (visited : List ℕ) (a : ℕ) (rest : List ℕ) (s : Scan K Table) where
    -- The scan behind the item `a`, which is the next one.
    abbrev pub Behind : Type 0
    Behind =
        (s' : Scan K Table) × (visited' : List ℕ) × (visit H a (advance a s.cache.inactive_list) s
          ≡ some s')
        × IsScanning H max_replace c visited' rest s'

    used_waiting :
        IsScanning H max_replace c visited (a ∷ rest) s
        → ltb 0 (s.cache.items a).age ≡ true
        → (b : ℕ) → mem b s.cache.inactive_list ≡ true
        → (c.items b).age ≡ 0
        → (mem b rest || mem b s.r_buf) ≡ true
    used_waiting v used b h unused =
        let here : mem a (a ∷ rest) ≡ true = ground arith in
        elim (Bool-cases (b == a)) [
          | inl e ↦
              let same : b ≡ a = ground arith in
              absurd (ground (arith, v.fresh a here, ap (λ x. (c.items x).age) same))
          | inr n ↦ ground (arith, v.waiting b h unused)
        ]

    used_halved :
        IsScanning H max_replace c visited (a ∷ rest) s
        → (b : ℕ) → mem b c.inactive_list ≡ true
        → mem b rest ≡ false
        → 0 < (c.items b).age
        → ((halve_age a s.cache).items b).age ≡ (c.items b).age / 2
    unfolding halve_age
    used_halved v b h out old =
        let here : mem a (a ∷ rest) ≡ true = ground arith in
        elim (Bool-cases (b == a)) [
          | inl e ↦
              let same : b ≡ a = ground arith in
              rw e (ground (arith, v.fresh a here, ap (λ x. (c.items x).age) same))
          | inr n ↦ rw n (v.halved b h (ground arith) old)
        ]

    visit_used :
        IsScanning H max_replace c visited (a ∷ rest) s
        → AtFirst (advance a s.cache.inactive_list) rest
        → HandIn (advance a s.cache.inactive_list) s.cache.inactive_list
        → mem a rest ≡ false
        → ltb 0 (s.cache.items a).age ≡ true
        → Behind
    unfolding visit halve_age
    visit_used v at_hand hand_in apart used = (
      record s { hand = advance a s.cache.inactive_list; cache = halve_age a s.cache },
      visited ++ a ∷ [],
      rw used,
      record {
        valid = halve_age-IsValid H a s.cache v.valid;
        split = v.split ∙ sym (append_assoc visited (a ∷ []) rest);
        at_hand = at_hand;
        hand_in = hand_in;
        buf_nodup = v.buf_nodup;
        buf_in = AllIn-append_left s.r_buf visited (a ∷ []) v.buf_in;
        buf_short = v.buf_short;
        buf_unused = v.buf_unused;
        fresh = λ b h.
            let other : (b == a) ≡ false = other_item a b rest h apart in
            rw other (v.fresh b (ground arith));
        kept = v.kept;
        none_new = v.none_new;
        waiting = λ b h old. used_waiting v used b h old;
        halved = λ b h out old. used_halved v b h out old;
        shrunk = v.shrunk;
        same_keys = λ b. ground (arith, v.same_keys b);
        active = v.active;
        low = v.low;
        high = v.high;
      },
    )

    unused_next :
        IsScanning H max_replace c visited (a ∷ rest) s
        → ltb 0 (s.cache.items a).age ≡ false
        → (c.items a).age ≡ 0
    unused_next v unused =
        let here : mem a (a ∷ rest) ≡ true = ground arith in ground (arith, v.fresh a here)

    unused_waiting :
        IsScanning H max_replace c visited (a ∷ rest) s
        → (b : ℕ) → mem b s.cache.inactive_list ≡ true
        → (c.items b).age ≡ 0
        → (mem b rest || mem b (s.r_buf ++ a ∷ [])) ≡ true
    unused_waiting v b h unused =
        ground (arith, v.waiting b h unused, mem-append b s.r_buf (a ∷ []))

    unused_halved :
        IsScanning H max_replace c visited (a ∷ rest) s
        → ltb 0 (s.cache.items a).age ≡ false
        → (b : ℕ) → mem b c.inactive_list ≡ true
        → mem b rest ≡ false
        → 0 < (c.items b).age
        → (s.cache.items b).age ≡ (c.items b).age / 2
    unused_halved v unused b h out old = elim (Bool-cases (b == a)) [
      | inl e ↦
          let same : b ≡ a = ground arith in
          absurd (ground (arith, unused_next v unused, ap (λ x. (c.items x).age) same))
      | inr n ↦ v.halved b h (ground arith) old
    ]

    visit_unused :
        IsScanning H max_replace c visited (a ∷ rest) s
        → AtFirst (advance a s.cache.inactive_list) rest
        → HandIn (advance a s.cache.inactive_list) s.cache.inactive_list
        → mem a visited ≡ false
        → ltb 0 (s.cache.items a).age ≡ false
        → Behind
    unfolding visit
    visit_unused v at_hand hand_in apart unused =
        let buf = s.r_buf ++ a ∷ [] in
        let seen = visited ++ a ∷ [] in
        let hand = advance a s.cache.inactive_list in
        let new = not-mem_of_AllIn s.r_buf visited a v.buf_in apart in
        let buf_nodup = Nodup-append_one s.r_buf a v.buf_nodup new in
        let last : mem a seen ≡ true = mem_middle visited a [] in
        let buf_in : AllIn seen buf =
          All-append _ s.r_buf (a ∷ []) (AllIn-append_left s.r_buf visited (a ∷ []) v.buf_in)
            (last, tt) in
        let buf_unused : All (λ b. (c.items b).age ≡ 0) buf =
          All-append _ s.r_buf (a ∷ []) v.buf_unused (unused_next v unused, tt) in
        let split : s.cache.inactive_list ≡ seen ++ rest =
          v.split ∙ sym (append_assoc visited (a ∷ []) rest) in
        let longer = length-append s.r_buf (a ∷ []) in
        let next : Scan K Table = record s { hand = hand; r_buf = buf } in
        let w : (limit : ℕ) → length buf < limit → IsScanning H limit c seen rest next =
          λ limit short. record {
            valid = v.valid;
            split = split;
            at_hand = at_hand;
            hand_in = hand_in;
            buf_nodup = buf_nodup;
            buf_in = buf_in;
            buf_short = short;
            buf_unused = buf_unused;
            fresh = λ b h. v.fresh b (ground arith);
            kept = v.kept;
            none_new = v.none_new;
            waiting = unused_waiting v;
            halved = unused_halved v unused;
            shrunk = v.shrunk;
            same_keys = v.same_keys;
            active = v.active;
            low = v.low;
            high = v.high;
          } in
        let (c', done, w') =
          flush_scan H c seen rest next
            (w (suc max_replace) (ground (arith, longer, v.buf_short))) in
        elim (Bool-cases (length buf == max_replace)) [
          | inl full ↦ (
            record { hand = c'.repl_hand; r_buf = []; cache = c' },
            remove_all buf seen,
            rw (unused, full) (unfold flush_full in rw done),
            w',
          )
          | inr more ↦
              (next, seen, rw (unused, more), w max_replace (ground (arith, longer, v.buf_short)))
        ]

    visit_any :
        IsScanning H max_replace c visited (a ∷ rest) s
        → AtFirst (advance a s.cache.inactive_list) rest
        → HandIn (advance a s.cache.inactive_list) s.cache.inactive_list
        → mem a visited ≡ false
        → mem a rest ≡ false
        → Behind
    visit_any v at_hand hand_in before behind = elim (Bool-cases (ltb 0 (s.cache.items a).age)) [
      | inl used ↦ visit_used v at_hand hand_in behind used
      | inr unused ↦ visit_unused v at_hand hand_in before unused
    ]

    -- A round at the next item goes right, whatever its age.
    pub replace_round-IsScanning :
        IsScanning H max_replace c visited (a ∷ rest) s
        → (s' : Scan K Table) × (visited' : List ℕ) × (replace_round H s.hand s ≡ some s')
          × IsScanning H max_replace c visited' rest s'
    unfolding replace_round
    replace_round-IsScanning v =
        let d : Nodup (visited ++ a ∷ rest) = rw v.split at v.valid.linked.inactive_nodup in
        let (at_hand, hand_in) = advance-AtFirst visited a rest d in
        let (before, behind) = Nodup-apart visited a rest d in
        let e = sym v.split in
        let at_hand' : AtFirst (advance a s.cache.inactive_list) rest =
          subst (λ xs. AtFirst (advance a xs) rest) e at_hand in
        let hand_in' : HandIn (advance a s.cache.inactive_list) s.cache.inactive_list =
          subst (λ xs. HandIn (advance a xs) xs) e hand_in in
        let here : mem a s.cache.inactive_list ≡ true =
          ap (mem a) v.split ∙ mem_middle visited a rest in
        let (s', visited', done, w) = visit_any v at_hand' hand_in' before behind in
        let round : replace_round H (some a) s ≡ some s' = rw here done in
        (s', visited', ap (λ h. replace_round H h s) v.at_hand ∙ round, w)
