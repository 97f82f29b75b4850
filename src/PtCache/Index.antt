-- ===== src/PtCache/Index.antt =====
-- How the index of a `PtCache` follows its hash table.
use piiptyyt.Glib.HashTable.{HashTable}
use piiptyyt.PtCache.State.{Item, update, lookup_item}
use piiptyyt.PtCache.Invariant.{IsIndexed}
use piiptyyt.Prelude.{
  ℕ, ◌≡◌, sym, ap, ◌∙◌, ◌≢◌, inl, inr, Bool, true, false, not, ◌&&◌, ◌||◌, Option, none, some,
  arith, ◌==◌, Bool-cases,
}

module _ {K : Type 0} (H : HashTable K ℕ) where
  open H use {Table, lookup}

  pub IsIndexed-ext :
      (keys : Option Table) (items : ℕ → Item K) (node node' : ℕ → Bool)
      → ((b : ℕ) → node' b ≡ node b)
      → IsIndexed H keys items node
      → IsIndexed H keys items node'
  IsIndexed-ext keys items node node' e i = record {
    indexed = λ b h. i.indexed b (sym (e b) ∙ h);
    listed = λ k b h. let (n, q) = i.listed k b h in (e b ∙ n, q);
  }

  -- The items whose key and place do not change keep the index.
  pub IsIndexed-items :
      (keys : Option Table) (items items' : ℕ → Item K) (node : ℕ → Bool)
      → ((b : ℕ) → (items' b).key ≡ (items b).key)
      → IsIndexed H keys items node
      → IsIndexed H keys items' node
  IsIndexed-items keys items items' node e i = record {
    indexed = λ b h. rw (e b) (i.indexed b h);
    listed = λ k b h. let (n, q) = i.listed k b h in (n, e b ∙ q);
  }

  pub IsIndexed-remove :
      (t : Table) (items : ℕ → Item K) (node : ℕ → Bool) (a : ℕ)
      → node a ≡ true
      → IsIndexed H (some t) items node
      → IsIndexed H (some (H.remove (items a).key t)) items (λ b. node b && not (b == a))
  unfolding lookup_item
  IsIndexed-remove t items node a here i = record {
    indexed = λ b h.
        let other : (items a).key ≢ (items b).key = λ e.
          ground (arith, i.indexed a here, i.indexed b (ground arith), ap (λ k. lookup k t) e) in
        H.lookup-remove_ne _ _ t other ∙ i.indexed b (ground arith);
    listed = λ k b h. elim (H.key_discrete (items a).key k) [
      | yes e ↦ absurd (
          ground (
            arith,
            H.lookup-remove_self (items a).key t,
            ap (λ j. lookup j (H.remove (items a).key t)) e,
          ))
      | no n ↦
          let (there, q) = i.listed k b (sym (H.lookup-remove_ne _ _ t n) ∙ h) in (ground arith, q)
    ];
  }

  pub IsIndexed-insert :
      (keys : Option Table) (t : Table) (items : ℕ → Item K) (node : ℕ → Bool) (a : ℕ)
      (item : Item K)
      → ((k : K) → lookup k t ≡ lookup_item H keys k)
      → node a ≡ false
      → lookup_item H keys item.key ≡ none
      → IsIndexed H keys items node
      → IsIndexed H (some (H.insert item.key a t)) (update items a item) (λ b. node b || b == a)
  unfolding lookup_item
  IsIndexed-insert keys t items node a item same new absent i = record {
    indexed = λ b h. elim (Bool-cases (b == a)) [
      | inl here ↦
          let e : a ≡ b = ground arith in
          rw (here, update) (H.lookup-insert_self item.key a t ∙ ap some e)
      | inr there ↦
          let old = i.indexed b (ground arith) in
          let other : item.key ≢ (items b).key =
            λ e. ground (arith, old, ap (λ k. lookup_item H keys k) e) in
          rw (there, update) (H.lookup-insert_ne _ _ a t other ∙ (same _ ∙ old))
    ];
    listed = λ k b h. elim (H.key_discrete item.key k) [
      | yes e ↦
          let found : some a ≡ some b =
            sym (H.lookup-insert_self item.key a t)
            ∙ (ap (λ j. lookup j (H.insert item.key a t)) e ∙ h) in
          (ground arith, ground arith)
      | no n ↦
          let (there, q) = i.listed k b (sym (same k) ∙ (sym (H.lookup-insert_ne _ _ a t n) ∙ h)) in
          (ground arith, ground arith)
    ];
  }
