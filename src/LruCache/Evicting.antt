-- ===== src/LruCache/Evicting.antt =====
-- `set` of a key that is new, in a full cache.
use vinyl.Common.{
  ℕ, suc, ◌≤◌, ◌≡◌, inl, refl, Option, none, some, List, [], ◌∷◌, ◌++◌, Bool, true, false, sym, ap,
  ◌∙◌, subst, arith, if◌then◌else◌, ltb, length,
}
use vinyl.LinkedList.{State}
use vinyl.LinkedList.Nodes.{Below-NotIn}
use vinyl.LinkedList.Unlink.{remove-value}
use vinyl.LinkedList.Ends.{push_value}
use vinyl.LruCache.{
  Lru, IsKeyEquality, map_get, map_set, size, evict_least_recently_used, evict_entry, first_allowed,
  set, forget, evict_node,
}
use vinyl.LruCache.Entries.{Agrees}
use vinyl.LruCache.Recency.{forget-Agrees}
use vinyl.LruCache.Storing.{
  added, added_entry, added-Agrees, set_new-branch, length-map_set, unchanged,
}

module _ {ℓ} {K V : Type ℓ} (same : K → K → Bool) where
  first_allowed-first :
      (fuel : ℕ) (allowed : V → K → Bool) (m : ℕ) (e : K × V) (s : State (K × V))
      → s.value m ≡ some e
      → allowed e.1 e.0 ≡ true
      → first_allowed (suc fuel) allowed (some m) s ≡ some m
  unfolding first_allowed
  first_allowed-first fuel allowed m e s f a =
      let rest = first_allowed fuel allowed (s.next m) s in
      ap
        (λ (o : Option (K × V)). elim o [
          | none ↦ rest
          | some e ↦ if allowed e.1 e.0 then some m else rest
        ])
        f
      ∙ ap (λ b. if b then some m else rest) a

  evict-first :
      (allowed : V → K → Bool) (m : ℕ) (e : K × V) (c : Lru K V)
      → c.list.head ≡ some m
      → c.list.value m ≡ some e
      → allowed e.1 e.0 ≡ true
      → evict_least_recently_used same allowed c ≡ evict_entry same m (some e) c
  unfolding evict_least_recently_used
  evict-first allowed m e c h f a =
      ap (λ o. evict_node same (first_allowed (suc c.list.count) allowed o c.list) c) h
      ∙ ap (λ o. evict_node same o c) (first_allowed-first c.list.count allowed m e c.list f a)
      ∙ ap (λ o. evict_entry same m o c) f

  -- `set` of a key that is not cached, when the map and the list agree, keys are compared by an
  -- equality, the cache is full and `onEvicting` allows the least recently used entry to go:
  -- exactly that entry is evicted, the map and the list agree on the others in their order and
  -- behind them a new one with the key and the value, and nothing is thrown.
  pub set-evicts :
      IsKeyEquality same
      → (allowed : V → K → Bool) (k : K) (v : V) (m : ℕ) (e : K × V) (ns : List ℕ) (c : Lru K V)
      → Agrees same c (m ∷ ns)
      → c.list.value m ≡ some e
      → allowed e.1 e.0 ≡ true
      → map_get same c.cache k ≡ none
      → c.capacity ≤ size c
      → Agrees same (set same allowed k v c).after (ns ++ c.list.count ∷ [])
        × ((set same allowed k v c).after.list.value c.list.count ≡ some (k, v))
        × ((set same allowed k v c).evicted ≡ e ∷ [])
        × ((set same allowed k v c).failed ≡ false)
  unfolding set forget
  set-evicts law allowed k v m e ns c g f a miss full =
      let grown = added same k v c in
      let h = added-Agrees same law k v (m ∷ ns) c g miss in
      let value : grown.list.value m ≡ some e =
        ap (λ value. value m) (push_value (k, v) c.list)
        ∙ unchanged m c.list.count (m ∷ ns) (some (k, v)) c.list.value
            (Below-NotIn c.list.count (m ∷ ns) g.held.known) (inl refl)
        ∙ f in
      let more = length-map_set same k c.list.count c.cache miss in
      let over : ltb c.capacity (length (map_set same k c.list.count c.cache)) ≡ true =
        ground (arith, more, full) in
      let new : set same allowed k v c ≡ evict_entry same m (some e) grown =
        set_new-branch same allowed k v c true miss over
        ∙ evict-first allowed m e grown h.held.head value a in
      let kept = forget-Agrees same law m e.0 e.1 [] (ns ++ c.list.count ∷ []) grown h value in
      (
        subst (λ r. Agrees same r.after (ns ++ c.list.count ∷ [])) (sym new) kept,
        ap (λ r. r.after.list.value c.list.count) new
            ∙ ap (λ value. value c.list.count) (remove-value m grown.list)
            ∙ added_entry same k v c,
        ap (λ r. r.evicted) new,
        ap (λ r. r.failed) new,
      )
