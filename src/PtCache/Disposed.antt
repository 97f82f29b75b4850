-- ===== src/PtCache/Disposed.antt =====
-- What `pt_cache_dispose` and `pt_cache_finalize` do to a valid `PtCache`.
use piiptyyt.PtCache.Dispose.{
  FlushData, pt_cache_finalize, collect_items, dispose_table, pt_cache_dispose,
}
use mathlib.Core.Path.{subst}
use piiptyyt.Glib.HashTable.{HashTable, find}
use piiptyyt.PtCache.Drop.{lookup_item_table}
use piiptyyt.PtCache.Invariant.{HandIn, is_node, table_size, IsValid}
use piiptyyt.PtCache.Listed.{
  values, find-mem, mem-find, values-Nodup, remove_all-everything, length-same_members,
  Nodup-append,
}
use piiptyyt.PtCache.Nodes.{mem, Nodup, mem-append}
use piiptyyt.PtCache.State.{Cache, lookup_item}
use piiptyyt.PtCache.Emptied.{collect_items-values, dispose_loop-IsUnlinked, logged}
use piiptyyt.Prelude.{
  ℕ, ◌≡◌, refl, sym, ap, ◌∙◌, inl, inr, Bool, true, false, Option, none, some, List, [], ◌∷◌, ◌++◌,
  append-nil, arith, length, length-append, ◌==◌, if◌then◌else◌, Bool-cases, Option-cases,
}

-- No destructor is left to call, and the one that there was had the data.
pub record IsFinalized (d d' : FlushData) : Type 0 where
  pub spent : d'.flush_data_destroy_fn ≡ false
  pub told :
      d'.destroyed
      ≡ (if d.flush_data_destroy_fn then d.destroyed ++ d.flush_data ∷ [] else d.destroyed)

module _ {K : Type 0} (H : HashTable K ℕ) (same_key : ℕ → Bool) where
  open H use {Table}

  -- The cache is empty: every object of it, each once, went to the flush function, if there is
  -- one, and the hand is NULL.
  pub record IsDisposed (c c' : Cache K Table) : Type 0 where
    pub keys : c'.keys ≡ none
    pub active : c'.active_list ≡ []
    pub inactive : c'.inactive_list ≡ []
    pub hand : c'.repl_hand ≡ none
    pub count : c'.count ≡ 0
    pub flushed :
        (gone : List ℕ) × Nodup gone
        × ((a : ℕ) → mem a gone ≡ is_node a c)
        × (c'.flushed ≡ logged gone c)

  no_hand : (hand : Option ℕ) → HandIn hand [] → hand ≡ none
  no_hand none h = refl
  no_hand (some b) h = absurd (ground arith)

  table_items :
      (c : Cache K Table) (t : Table)
      → IsValid H c
      → c.keys ≡ some t
      → Nodup (values (H.entries t)) × ((a : ℕ) → mem a (values (H.entries t)) ≡ is_node a c)
  unfolding lookup_item
  table_items c t v keyed =
      let found_in : (k : K) → lookup_item H c.keys k ≡ H.lookup k t = λ k. rw keyed refl in
      let entry : (k : K) → find H.key_discrete k (H.entries t) ≡ lookup_item H c.keys k =
        λ k. H.find-entries k t ∙ sym (found_in k) in
      (
        values-Nodup H.key_discrete (λ a. (c.items a).key) (H.entries t) (H.entries-Distinct t)
            (λ k a h. (v.index.listed k a (sym (entry k) ∙ h)).1),
        λ a. elim (Bool-cases (is_node a c)) [
          | inl node ↦
              find-mem H.key_discrete (c.items a).key a (H.entries t)
                (entry (c.items a).key ∙ v.index.indexed a node)
              ∙ sym node
          | inr out ↦ elim (Bool-cases (mem a (values (H.entries t)))) [
            | inl met ↦
                let (k, e) = mem-find H.key_discrete a (H.entries t) (H.entries-Distinct t) met in
                let node = (v.index.listed k a (sym (entry k) ∙ e)).0 in
                absurd (ground (arith, node, out))
            | inr unmet ↦ unmet ∙ sym out
          ]
        ],
      )

  nothing_listed : (xs : List ℕ) → length xs ≡ 0 → xs ≡ []
  nothing_listed [] h = refl
  nothing_listed (x ∷ xs) h = absurd (omega (arith, h))

  unkeyed-IsDisposed : (c : Cache K Table) → IsValid H c → c.keys ≡ none → IsDisposed c c
  unkeyed-IsDisposed c v k =
      let nothing : c.count ≡ 0 = sym v.sized ∙ ap (table_size H) k in
      let no_active = nothing_listed c.active_list (omega (arith, nothing, v.counts.counted)) in
      let no_inactive = nothing_listed c.inactive_list (omega (arith, nothing, v.counts.counted)) in
      record {
        keys = k;
        active = no_active;
        inactive = no_inactive;
        hand = no_hand c.repl_hand (subst (HandIn c.repl_hand) no_inactive v.linked.hand_in);
        count = nothing;
        flushed = (
          [],
          tt,
          λ a. ground (arith, ap (mem a) no_active, ap (mem a) no_inactive),
          ground (arith, append-nil c.flushed),
        );
      }

  keyed-IsDisposed :
      (c : Cache K Table) (t : Table)
      → IsValid H c
      → c.keys ≡ some t
      → ((a : ℕ) → is_node a c ≡ true → same_key a ≡ true)
      → (c' : Cache K Table) × (dispose_table H same_key (some t) c ≡ some c') × IsDisposed c c'
  unfolding dispose_table
  keyed-IsDisposed c t v keyed kept =
      let items = values (H.entries t) in
      let (once, nodes) = table_items c t v keyed in
      let all = c.active_list ++ c.inactive_list in
      let member : (a : ℕ) → mem a items ≡ mem a all =
        λ a. nodes a ∙ sym (mem-append a c.active_list c.inactive_list) in
      let all_once =
        Nodup-append c.active_list c.inactive_list v.linked.active_nodup v.linked.inactive_nodup
          v.linked.apart in
      let many : c.count ≡ length items = omega (
        arith,
        length-same_members items all once all_once member,
        length-append c.active_list c.inactive_list,
        v.counts.counted,
      ) in
      let (c', done, f, n, log) =
        dispose_loop-IsUnlinked H same_key (length items) items (record c { keys = none }) v.linked
          refl v.counts.small many (omega arith) in
      let active : c'.active_list ≡ [] =
        f.active
        ∙ remove_all-everything items c.active_list v.linked.active_nodup
            (λ b h. nodes b ∙ ground arith) in
      let inactive : c'.inactive_list ≡ [] =
        f.inactive
        ∙ remove_all-everything items c.inactive_list v.linked.inactive_nodup
            (λ b h. nodes b ∙ ground arith) in
      (
        c',
        rw (collect_items-values H same_key (H.entries t) (λ a h. kept a (sym (nodes a) ∙ h))) done,
        record {
          keys = f.keys;
          active = active;
          inactive = inactive;
          hand = no_hand c'.repl_hand (subst (HandIn c'.repl_hand) inactive f.linked.hand_in);
          count = n;
          flushed = (items, once, nodes, log);
        },
      )

  disposed_again : (c : Cache K Table) → c.keys ≡ none → pt_cache_dispose H same_key c ≡ some c
  unfolding pt_cache_dispose dispose_table
  disposed_again c e = rw e refl

  finalize_lem :
      (c : Cache K Table) (d : FlushData)
      → c.keys ≡ none
      → (d' : FlushData) × (pt_cache_finalize c d ≡ some d') × IsFinalized d d'
  unfolding pt_cache_finalize
  finalize_lem c d e = elim (Bool-cases d.flush_data_destroy_fn) [
    | inl f ↦ (
      record {
        flush_data = none;
        flush_data_destroy_fn = false;
        destroyed = d.destroyed ++ d.flush_data ∷ [];
      },
      rw (e, f) refl,
      record { spent = refl; told = rw f refl },
    )
    | inr f ↦ (d, rw (e, f) refl, record { spent = f; told = rw f refl })
  ]

  -- Disposing of a valid cache, with no item whose key has changed its place since it came into
  -- the hash table: no assertion fails and the loop ends, the cache is empty, every object of
  -- it went to the flush function once, a second disposal changes nothing, and finalizing gives
  -- the data of the flush function to its destructor, if there is one.
  pub dispose-IsDisposed :
      (c : Cache K Table) (d : FlushData)
      → IsValid H c
      → ((a : ℕ) → is_node a c ≡ true → same_key a ≡ true)
      → (c' : Cache K Table) × (pt_cache_dispose H same_key c ≡ some c')
        × IsDisposed c c'
        × (pt_cache_dispose H same_key c' ≡ some c')
        × ((d' : FlushData) × (pt_cache_finalize c' d ≡ some d') × IsFinalized d d')
  unfolding pt_cache_dispose
  dispose-IsDisposed c d v kept = elim (Option-cases c.keys) [
    | inl e ↦
        (c, disposed_again c e, unkeyed-IsDisposed c v e, disposed_again c e, finalize_lem c d e)
    | inr (t, e) ↦
        let (c', done, f) = keyed-IsDisposed c t v e kept in
        (
          c',
          ap (λ x. dispose_table H same_key x c) e ∙ done,
          f,
          disposed_again c' f.keys,
          finalize_lem c' d f.keys,
        )
  ]

  collect_items-stops :
      (l : List (K × ℕ)) (a : ℕ)
      → mem a (values l) ≡ true
      → same_key a ≡ false
      → collect_items H same_key l ≡ none
  unfolding collect_items values
  collect_items-stops [] a met moved = absurd (ground arith)
  collect_items-stops ((k, b) ∷ l) a met moved = elim (Bool-cases (a == b)) [
    | inl e ↦
        let here : same_key b ≡ false = sym (ap same_key (ground arith)) ∙ moved in rw here refl
    | inr n ↦ elim (Bool-cases (same_key b)) [
      | inl s ↦ rw (s, collect_items-stops l a (rw n at met) moved) refl
      | inr s ↦ rw s refl
    ]
  ]

  -- `pt_cache_put` over an inactive item gives the item a new key and leaves the old pointer in
  -- the hash table: the disposal of a cache with such an item aborts.
  dispose-stops :
      (c : Cache K Table) (a : ℕ)
      → IsValid H c
      → is_node a c ≡ true
      → same_key a ≡ false
      → pt_cache_dispose H same_key c ≡ none
  unfolding pt_cache_dispose dispose_table
  dispose-stops c a v node moved =
      let (t, keyed, found) =
        lookup_item_table H c.keys (c.items a).key a (v.index.indexed a node) in
      rw (keyed, collect_items-stops (H.entries t) a ((table_items c t v keyed).1 a ∙ node) moved)
        refl
