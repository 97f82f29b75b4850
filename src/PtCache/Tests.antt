-- ===== src/PtCache/Tests.antt =====
-- Runs of the cache on the small example.
use piiptyyt.PtCache.Example.{table, Small, alloc, alloc-fresh, memory, three, three-IsValid}
use piiptyyt.Prelude.{
  ℕ, ◌+◌, ◌<◌, ◌≡◌, refl, ◌≢◌, Bool, true, false, none, some, List, [], arith, length,
}
use piiptyyt.Glib.HashTable.{find}
use piiptyyt.PtCache.Callback.{toggle_last_ref_cb-IsValid, toggled}
use piiptyyt.PtCache.Dispose.{FlushData, pt_cache_finalize, pt_cache_dispose}
use piiptyyt.PtCache.Disposed.{IsDisposed, IsFinalized, dispose-IsDisposed}
use piiptyyt.PtCache.Evict.{pt_cache_replace-IsReplaced, IsReplaced}
use piiptyyt.PtCache.Full.{replace_full-IsReplacedFull, IsReplacedFull}
use piiptyyt.PtCache.Insert.{IsAdded, put_new-IsStored}
use piiptyyt.PtCache.Invariant.{IsValid, is_node}
use piiptyyt.PtCache.Nodes.{mem}
use piiptyyt.PtCache.Overwrite.{put_active-miscounts}
use piiptyyt.PtCache.Props.{
  pt_cache_init, pt_cache_set_property, store_property, set_property-marks, init-IsValid,
  get-object, low_wm,
}
use piiptyyt.PtCache.Put.{Insertion, pt_cache_put}
use piiptyyt.PtCache.Reach.{Reach, init, next, Call, put, run, Allowed, run-IsValid, Reach-safe}
use piiptyyt.PtCache.Replace.{pt_cache_replace, pt_cache_replace_full}
use piiptyyt.PtCache.State.{update, older, lookup_item, toggle_last_ref_cb, pt_cache_get, size_sub}
use piiptyyt.PtCache.Stored.{IsStored}
use native.Mathlib.Decide.{ℕ_discrete}

lookup_three-absent : lookup_item table three.keys 40 ≡ none
unfolding lookup_item find ℕ_discrete
lookup_three-absent = refl

lookup_three-active : lookup_item table three.keys 10 ≡ some 1
unfolding lookup_item find ℕ_discrete
lookup_three-active = refl

-- The program puts an object that it keeps a reference to.
abbrev held : ℕ → Insertion ℕ
held k = record { key = k; key_size = 4; object = 400; floating = false }

abbrev empty : Small
empty = pt_cache_init memory

empty-Allowed : Allowed table alloc (put (held 40)) empty
unfolding lookup_item pt_cache_init
empty-Allowed = (omega arith, refl)

put_new-IsStored_example :
    (c' : Small) × (a : ℕ) × (pt_cache_put table alloc (held 40) three ≡ some c')
    × IsStored table a (held 40) c'
    × IsAdded table alloc a three c'
put_new-IsStored_example =
    put_new-IsStored table alloc (held 40) three alloc-fresh three-IsValid lookup_three-absent
      (omega arith)

put_active-miscounts_example :
    (c' : Small) × (pt_cache_put table alloc (held 10) three ≡ some c')
    × (c'.active_count ≡ length c'.active_list + 1)
    × ((b : ℕ)
        → mem b c'.active_list ≡ true
        → 0 < (c'.items b).age
        → toggle_last_ref_cb table b true c' ≡ none)
    × ((b : ℕ) → mem b c'.inactive_list ≡ true → toggle_last_ref_cb table b false c' ≡ none)
put_active-miscounts_example =
    put_active-miscounts table alloc (held 10) three 1 three-IsValid lookup_three-active refl refl

replace_full-IsReplacedFull_example :
    (c' : Small) × (pt_cache_replace_full table three ≡ some c') × IsReplacedFull table three c'
replace_full-IsReplacedFull_example = replace_full-IsReplacedFull table three three-IsValid

pt_cache_replace-IsReplaced_example :
    (c' : Small) × (pt_cache_replace table (size_sub 3 2) three ≡ some c')
    × IsReplaced table three c'
pt_cache_replace-IsReplaced_example = pt_cache_replace-IsReplaced table three three-IsValid

toggle_last_ref_cb-IsValid_example :
    (t : List (ℕ × ℕ)) × (three.keys ≡ some t)
    × (toggle_last_ref_cb table 2 true three ≡ some (toggled table 2 true t three))
    × IsValid table (toggled table 2 true t three)
toggle_last_ref_cb-IsValid_example =
    toggle_last_ref_cb-IsValid table 2 true three three-IsValid refl

abbrev notified : FlushData
notified = record { flush_data = some 7; flush_data_destroy_fn = true; destroyed = [] }

-- No item was put anew over an inactive one.
abbrev unmoved : ℕ → Bool
unmoved a = true

dispose-IsDisposed_example :
    (c' : Small) × (pt_cache_dispose table unmoved three ≡ some c')
    × IsDisposed table unmoved three c'
    × (pt_cache_dispose table unmoved c' ≡ some c')
    × ((d' : FlushData) × (pt_cache_finalize c' notified ≡ some d') × IsFinalized notified d')
dispose-IsDisposed_example =
    dispose-IsDisposed table unmoved three notified three-IsValid (λ a h. refl)

get-object_example :
    ((a : ℕ)
      → is_node a three ≡ true
      → (three.items a).key ≡ 20
      → (pt_cache_get table 20 three).0 ≡ some (three.items a).ref
        × ((pt_cache_get table 20 three).1 ≡ record three {
          items = update three.items a (record (three.items a) { age = older (three.items a).age });
        }))
    × (((a : ℕ) → is_node a three ≡ true → (three.items a).key ≢ 20)
        → pt_cache_get table 20 three ≡ (none, three))
    × IsValid table (pt_cache_get table 20 three).1
get-object_example = get-object table 20 three three-IsValid

set_property-marks_example :
    let c₁ = store_property (low_wm 8) three in
    let c' = pt_cache_set_property (low_wm 8) three in
    (c'.wm_low < c'.wm_high)
    × (c'.wm_low ≡ c₁.wm_low)
    × (c₁.wm_low < c₁.wm_high → c'.wm_high ≡ c₁.wm_high)
    × (c'.count ≡ three.count)
    × (c'.keys ≡ three.keys)
set_property-marks_example = set_property-marks (low_wm 8) three

-- The cache after the first put.
one_put : (c' : Small) × (run table alloc (put (held 40)) empty ≡ some c') × IsValid table c'
one_put =
    run-IsValid table alloc alloc-fresh (put (held 40)) empty (init-IsValid table memory)
      empty-Allowed

one_put-Reach : Reach table alloc one_put.0
one_put-Reach = next (put (held 40)) (init memory) empty-Allowed one_put.1

Reach-safe_example :
    IsValid table one_put.0
    × ((call : Call table alloc)
        → Allowed table alloc call one_put.0
        → (c' : Small) × (run table alloc call one_put.0 ≡ some c'))
Reach-safe_example = Reach-safe table alloc alloc-fresh one_put-Reach
