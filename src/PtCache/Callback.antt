-- ===== src/PtCache/Callback.antt =====
-- The toggle callback on every branch that GLib can take.
use piiptyyt.Glib.HashTable.{HashTable}
use piiptyyt.PtCache.Drop.{lookup_item_table, toggle-dropped, dropped}
use piiptyyt.PtCache.Invariant.{IsValid}
use piiptyyt.PtCache.Nodes.{mem}
use piiptyyt.PtCache.State.{Cache, toggle_last_ref_cb}
use piiptyyt.PtCache.Toggle.{toggle-activated, toggle-retired, activated, retired}
use piiptyyt.Prelude.{
  ℕ, ◌≡◌, inl, inr, Bool, true, false, some, arith, ◌==◌, if◌then◌else◌, ==_iff, Bool-cases,
}

module _ {K : Type 0} (H : HashTable K ℕ) where
  open H use {Table}

  -- A new reference puts the item at the end of the active list; the last reference to an item
  -- puts it at the end of the inactive list, or out of the cache when it has aged to 0.
  abbrev pub toggled : ℕ → Bool → Table → Cache K Table → Cache K Table
  toggled a is_last t c =
      if is_last
      then if (c.items a).age == 0 then dropped H a t c else retired a c
      else activated a c

  -- In a valid cache, the callback for the last reference to an active item or for a new
  -- reference to an inactive item: no assertion fails, the item goes where its age and the
  -- reference say, and the cache stays valid.
  pub toggle_last_ref_cb-IsValid :
      (a : ℕ) (is_last : Bool) (c : Cache K Table)
      → IsValid H c
      → mem a (if is_last then c.active_list else c.inactive_list) ≡ true
      → (t : Table) × (c.keys ≡ some t)
        × (toggle_last_ref_cb H a is_last c ≡ some (toggled a is_last t c))
        × IsValid H (toggled a is_last t c)
  toggle_last_ref_cb-IsValid a false c v here =
      let (t, keyed, _) =
        lookup_item_table H c.keys (c.items a).key a (v.index.indexed a (ground arith)) in
      let (done, valid) = toggle-activated H a c v here in (t, keyed, done, valid)
  toggle_last_ref_cb-IsValid a true c v here = elim (Bool-cases ((c.items a).age == 0)) [
    | inl old ↦
        let (t, keyed, done, valid) = toggle-dropped H a c v here ((==_iff _ 0).0 old) in
        (t, keyed, rw old done, rw old valid)
    | inr young ↦
        let (t, keyed, _) =
          lookup_item_table H c.keys (c.items a).key a (v.index.indexed a (ground arith)) in
        let (done, valid) = toggle-retired H a c v here (ground arith) in
        (t, keyed, rw young done, rw young valid)
  ]
