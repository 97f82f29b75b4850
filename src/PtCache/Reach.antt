-- ===== src/PtCache/Reach.antt =====
-- The histories of a `PtCache` from `pt_cache_init` on, with GLib and the program as the
-- environment, as far as they keep to three rules: the callback is called in turn (with a last
-- reference for an active item, and with a new one for an inactive item); a last reference to an
-- item of age 0 is dropped only where the cache has its own copy of the key, since the code uses
-- the key behind `g_object_remove_toggle_ref`; and a put has a key that is not in the cache, since
-- the code frees a copied key that the hash table keeps. Keys are values here.
use mathlib.Core.Path.{subst}
use piiptyyt.Glib.HashTable.{HashTable}
use piiptyyt.PtCache.Nodes.{mem}
use piiptyyt.PtCache.State.{Item, Cache, lookup_item, toggle_last_ref_cb, pt_cache_get}
use piiptyyt.PtCache.Invariant.{is_node, IsValid}
use piiptyyt.PtCache.Toggle.{activated, retired, toggle-activated, toggle-retired}
use piiptyyt.PtCache.Drop.{dropped, toggle-dropped}
use piiptyyt.PtCache.Put.{Insertion, pt_cache_put}
use piiptyyt.PtCache.Insert.{put_new-IsStored}
use piiptyyt.PtCache.Props.{
  Setting, pt_cache_init, pt_cache_set_property, init-IsValid, set_property-IsValid, get-object,
}
use piiptyyt.Prelude.{
  ℕ, ◌+◌, ◌^◌, ◌<◌, ◌≡◌, refl, sym, ◌∙◌, ◌⊎◌, inl, inr, true, false, Option, none, some, arith,
  ◌==◌, Bool-cases,
}

module _ {K : Type 0} (H : HashTable K ℕ) (alloc : Cache K H.Table → ℕ) where
  open H use {Table}

  -- What the environment may ask for.
  pub data Call : Type 0 where
    last_reference new_reference : ℕ → Call
    get : K → Call
    put : Insertion K → Call
    set : Setting → Call

  -- The rules.
  abbrev pub Allowed : Call → Cache K Table → Type 0
  Allowed (last_reference a) c =
      (mem a c.active_list ≡ true) × ((0 < (c.items a).key_size) ⊎ (0 < (c.items a).age))
  Allowed (new_reference a) c = mem a c.inactive_list ≡ true
  Allowed (get k) c = Unit
  Allowed (put p) c = (c.count + 1 < 2 ^ 31) × (lookup_item H c.keys p.key ≡ none)
  Allowed (set s) c = Unit

  -- `none` is a failed assertion or a bad access.
  unfoldable pub run : Call → Cache K Table → Option (Cache K Table)
  run (last_reference a) c = toggle_last_ref_cb H a true c
  run (new_reference a) c = toggle_last_ref_cb H a false c
  run (get k) c = some (pt_cache_get H k c).1
  run (put p) c = pt_cache_put H alloc p c
  run (set s) c = some (pt_cache_set_property s c)

  pub data Reach : Cache K Table → Type 0 where
    init : (items : ℕ → Item K) → Reach (pt_cache_init items)
    next :
        {c : Cache K Table} (call : Call) {c' : Cache K Table}
        → Reach c
        → Allowed call c
        → run call c ≡ some c'
        → Reach c'

  module _ (fresh : (c : Cache K Table) → is_node (alloc c) c ≡ false) where
    -- An allowed call in a valid cache returns, and the cache it leaves is valid.
    pub run-IsValid :
        (call : Call) (c : Cache K Table)
        → IsValid H c
        → Allowed call c
        → (c' : Cache K Table) × (run call c ≡ some c') × IsValid H c'
    unfolding run
    run-IsValid (last_reference a) c v (here, _) = elim (Bool-cases ((c.items a).age == 0)) [
      | inl young ↦
          let (t, _, done, v') = toggle-dropped H a c v here (ground arith) in
          (dropped H a t c, done, v')
      | inr old ↦
          let (done, v') = toggle-retired H a c v here (ground arith) in (retired a c, done, v')
    ]
    run-IsValid (new_reference a) c v here =
        let (done, v') = toggle-activated H a c v here in (activated a c, done, v')
    run-IsValid (get k) c v _ = ((pt_cache_get H k c).1, refl, (get-object H k c v).2)
    run-IsValid (put p) c v (room, absent) =
        let (c', a, done, s, _) = put_new-IsStored H alloc p c fresh v absent room in
        (c', done, s.valid)
    run-IsValid (set s) c v _ = (pt_cache_set_property s c, refl, set_property-IsValid H s c v)

    Reach-IsValid : {c : Cache K Table} → Reach c → IsValid H c
    Reach-IsValid (init items) = init-IsValid H items
    Reach-IsValid (next {c = c} call {c' = c₂} r allowed done) =
        let (c', done', v) = run-IsValid call c (Reach-IsValid r) allowed in
        let e : c' ≡ c₂ = cc (sym done' ∙ done) in subst (IsValid H) e v

    -- Every cache that a history of allowed calls leads to is valid, and there every allowed call
    -- returns: no assertion of the cache fails.
    pub Reach-safe :
        {c : Cache K Table}
        → Reach c
        → IsValid H c
          × ((call : Call) → Allowed call c → (c' : Cache K Table) × (run call c ≡ some c'))
    Reach-safe {c} r = (
      Reach-IsValid r,
      λ call allowed.
          let (c', done, _) = run-IsValid call c (Reach-IsValid r) allowed in (c', done),
    )
