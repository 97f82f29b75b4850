-- ===== src/PtCache/Replace.antt =====
-- `flush_items` and the replacement of inactive items.
use piiptyyt.Glib.HashTable.{HashTable}
use piiptyyt.PtCache.Nodes.{mem, next_of}
use piiptyyt.PtCache.Batches.{first}
use piiptyyt.PtCache.State.{Cache, size_sub, update, delist_item, flush, forget_key}
use piiptyyt.Prelude.{
  ℕ, zero, suc, ◌/◌, Bool, true, false, not, ◌&&◌, Option, none, some, List, [], ◌∷◌, ◌++◌, map,
  length, ltb, leb, ◌==◌, if◌then◌else◌, ◌>>=◌, ◌>>◌, assert,
}

abbrev pub max_replace : ℕ
max_replace = 128

-- The variables of the loop in `pt_cache_replace`; `hand` is a pointer, and `r_buf` is filled up
-- to `r_count`.
pub record Scan (K Table : Type 0) : Type 0 where
  pub hand : Option ℕ
  pub r_buf : List ℕ
  pub cache : Cache K Table

module _ {K : Type 0} {Table : Type 0} where
  -- `self->count - self->active_count > self->wm_low`
  unfoldable pub needs_more : Cache K Table → Bool
  needs_more c = ltb c.wm_low (size_sub c.count c.active_count)

  -- `it->age >>= 1`
  unfoldable pub halve_age : ℕ → Cache K Table → Cache K Table
  halve_age a c = record c {
    items = update c.items a (record (c.items a) { age = (c.items a).age / 2 });
  }

-- The node behind the hand, or the first of the list behind the last one.
unfoldable pub advance : ℕ → List ℕ → Option ℕ
advance h xs = elim (next_of h xs) [ none ↦ first xs | some n ↦ some n ]

module _ {K : Type 0} (H : HashTable K ℕ) where
  open H use {Table}

  unfoldable pub forget_if_keyed : ℕ → Cache K Table → Option (Cache K Table)
  forget_if_keyed a c = elim c.keys [ none ↦ some c | some _ ↦ forget_key H a c ]

  -- The second loop of `flush_items`.
  unfoldable pub flush_each : List ℕ → Cache K Table → Option (Cache K Table)
  flush_each [] c = some c
  flush_each (a ∷ gone) c = do c₁ ← delist_item a c; c₂ ← forget_if_keyed a c₁; flush_each gone c₂

  unfoldable pub flush_batch : List ℕ → Cache K Table → Option (Cache K Table)
  flush_batch gone c = do
    c₁ ← flush_each gone (flush (map (λ a. (c.items a).ref) gone) c)
    some (record c₁ { count = size_sub c₁.count (length gone) })

  unfoldable pub flush_items : List ℕ → Cache K Table → Option (Cache K Table)
  flush_items gone c = do
    assert (leb (length gone) max_replace)
    assert (leb (length gone) c.count)
    if length gone == 0 then some c else flush_batch gone c

  -- A full `r_buf` is flushed with the hand kept in `repl_hand`.
  unfoldable pub flush_full : Option ℕ → List ℕ → Cache K Table → Option (Scan K Table)
  flush_full hand r_buf c = do
    c' ← flush_items r_buf (record c { repl_hand = hand })
    some (record { hand = c'.repl_hand; r_buf = []; cache = c' })

  -- `hand` is what comes behind the item `a`.
  unfoldable pub visit : ℕ → Option ℕ → Scan K Table → Option (Scan K Table)
  visit a hand s =
      if ltb 0 (s.cache.items a).age
      then some (record s { hand = hand; cache = halve_age a s.cache })
      else if length (s.r_buf ++ a ∷ []) == max_replace
      then flush_full hand (s.r_buf ++ a ∷ []) s.cache
      else some (record s { hand = hand; r_buf = s.r_buf ++ a ∷ [] })

  -- A round goes wrong unless the hand is at an item of the list.
  unfoldable pub replace_round : Option ℕ → Scan K Table → Option (Scan K Table)
  replace_round none s = none
  replace_round (some a) s = do
    assert (mem a s.cache.inactive_list)
    visit a (advance a s.cache.inactive_list) s

  -- With `max_iters - iters` rounds left.
  unfoldable pub replace_loop : ℕ → Scan K Table → Option (Scan K Table)
  replace_loop zero s = some s
  replace_loop (suc n) s = elim (needs_more s.cache) [
    | true ↦ replace_round s.hand s >>= λ s'. replace_loop n s'
    | false ↦ some s
  ]

  -- The scan always begins at the first inactive item: `repl_hand` is not read.
  unfoldable pub replace_from : Option ℕ → ℕ → Cache K Table → Option (Cache K Table)
  replace_from none max_iters c = some c
  replace_from (some a) max_iters c = do
    s ← replace_loop max_iters (record { hand = some a; r_buf = []; cache = c })
    flush_items s.r_buf (record (s.cache) { repl_hand = s.hand })

  unfoldable pub pt_cache_replace : ℕ → Cache K Table → Option (Cache K Table)
  pt_cache_replace max_iters c = replace_from (first c.inactive_list) max_iters c

  -- The `do` loop, on fuel; `none` also means that the fuel ran out.
  unfoldable pub replace_full_loop : ℕ → Cache K Table → Option (Cache K Table)
  replace_full_loop zero c = none
  replace_full_loop (suc f) c = do
    c' ← pt_cache_replace (size_sub c.count c.active_count) c
    elim (needs_more c' && not (c.count == c'.count)) [
      | true ↦ replace_full_loop f c'
      | false ↦ some c'
    ]

  -- Each repetition has a smaller count than the one before it.
  unfoldable pub pt_cache_replace_full : Cache K Table → Option (Cache K Table)
  pt_cache_replace_full c = replace_full_loop (suc c.count) c
