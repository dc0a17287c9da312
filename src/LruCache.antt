-- ===== src/LruCache.antt =====
-- packages/vinyl-util/src/util/collection/LruCache.ts: a map of bounded size with its elements in a
-- linked list, from the least to the most recently used.
pub mod Entries
pub mod Recency
pub mod Storing
pub mod Evicting
use vinyl.Common.{
  ℕ, zero, suc, ◌≡◌, Bool, true, false, Option, none, some, List, [], ◌∷◌, ◌++◌, ltb, length,
  if◌then◌else◌,
}
use vinyl.LinkedList.{State, update, push, push_node, remove, is_null, new_list}
use vinyl.LinkedList

-- `cache` is the JavaScript map from keys to nodes, whose order nothing here reads.
pub record Lru {ℓ} (K V : Type ℓ) : Type ℓ where
  pub cache : List (K × ℕ)
  pub list : State (K × V)
  pub capacity : ℕ

-- What an operation that may evict leaves: the object, the evicted elements that `onEvict` hears
-- of, and whether an IllegalStateError is thrown.
pub record Evicted {ℓ} (K V : Type ℓ) : Type ℓ where
  pub after : Lru K V
  pub evicted : List (K × V)
  pub failed : Bool

module _ {ℓ} {K : Type ℓ} (same : K → K → Bool) where
  -- `Map.get`, `Map.set` and `Map.delete`; `same` is the equality of keys.
  abbrev pub map_get : List (K × ℕ) → K → Option ℕ
  map_get [] key = none
  map_get ((j, n) ∷ rest) key = if same j key then some n else map_get rest key

  abbrev pub map_set : K → ℕ → List (K × ℕ) → List (K × ℕ)
  map_set key node [] = (key, node) ∷ []
  map_set key node ((j, n) ∷ rest) =
      if same j key then (j, node) ∷ rest else (j, n) ∷ map_set key node rest

  abbrev pub map_delete : K → List (K × ℕ) → List (K × ℕ)
  map_delete key [] = []
  map_delete key ((j, n) ∷ rest) =
      if same j key then map_delete key rest else (j, n) ∷ map_delete key rest

-- What JavaScript's maps rely on.
pub record IsKeyEquality {ℓ} {K : Type ℓ} (same : K → K → Bool) : Type ℓ where
  pub same_refl : (k : K) → same k k ≡ true
  pub same_eq : (k j : K) → same k j ≡ true → k ≡ j

module _ {ℓ} {K V : Type ℓ} where
  -- `new LruCache(initialCapacity)`
  abbrev pub new_lru : ℕ → Lru K V
  new_lru initial = record { cache = []; list = new_list; capacity = initial }

  abbrev pub size : Lru K V → ℕ
  size c = length c.cache

  -- `node.value[1]`
  abbrev pub second : Option (K × V) → Option V
  second none = none
  second (some e) = some e.1

  -- `get` when the map was asked.
  pub touch : Option ℕ → Lru K V → Lru K V × Option V
  touch none c = (c, none)
  touch (some node) c =
      let list = push_node node c.list in (record c { list = list }, second (list.value node))

  -- `node.value[1] = value`
  abbrev pub set_second : ℕ → V → State (K × V) → State (K × V)
  set_second node v s = record s {
    value = elim (s.value node) [ none ↦ s.value | some e ↦ update s.value node (some (e.0, v)) ];
  }

  -- The loop of `evictLeastRecentlyUsed`: the first node that `onEvicting` allows to go. Without
  -- that callback every node may. The callback leaves the object alone.
  pub first_allowed : ℕ → (V → K → Bool) → Option ℕ → State (K × V) → Option ℕ
  first_allowed zero allowed current s = none
  first_allowed (suc fuel) allowed none s = none
  first_allowed (suc fuel) allowed (some node) s =
      let rest = first_allowed fuel allowed (s.next node) s in
      elim (s.value node) [ none ↦ rest | some e ↦ if allowed e.1 e.0 then some node else rest ]

  unfoldable pub clear : Lru K V → Lru K V
  clear c = record c { cache = []; list = LinkedList.clear c.list }

  -- The entries that `forEach` hands to its callback.
  unfoldable pub for_each : Lru K V → List (K × V)
  for_each c = LinkedList.for_each c.list

module _ {ℓ} {K V : Type ℓ} (same : K → K → Bool) where
  pub has : K → Lru K V → Bool
  has key c = if is_null (map_get same c.cache key) then false else true

  unfoldable pub get : K → Lru K V → Lru K V × Option V
  unfolding touch
  get key c = touch (map_get same c.cache key) c

  -- The rest of `evictLeastRecentlyUsed`, for a node with this entry.
  abbrev pub evict_entry : ℕ → Option (K × V) → Lru K V → Evicted K V
  evict_entry node none c = record { after = c; evicted = []; failed = true }
  evict_entry node (some e) c = record {
    after = record c { cache = map_delete same e.0 c.cache; list = remove node c.list };
    evicted = e ∷ [];
    failed = false;
  }

  pub evict_node : Option ℕ → Lru K V → Evicted K V
  evict_node none c = record { after = c; evicted = []; failed = true }
  evict_node (some node) c = evict_entry node (c.list.value node) c

  unfoldable pub evict_least_recently_used : (V → K → Bool) → Lru K V → Evicted K V
  unfolding first_allowed evict_node
  evict_least_recently_used allowed c =
      evict_node (first_allowed (suc c.list.count) allowed c.list.head c.list) c

  -- `set` of a key that is new.
  pub set_new : (V → K → Bool) → K → V → Lru K V → Evicted K V
  unfolding evict_least_recently_used
  set_new allowed key v c =
      let added : Lru K V = record c {
        cache = map_set same key c.list.count c.cache;
        list = push (key, v) c.list;
      } in
      if ltb added.capacity (size added)
      then evict_least_recently_used allowed added
      else record { after = added; evicted = []; failed = false }

  -- `set` when the map was asked.
  abbrev pub set_at : Option ℕ → (V → K → Bool) → K → V → Lru K V → Evicted K V
  set_at none allowed key v c = set_new allowed key v c
  set_at (some node) allowed key v c = record {
    after = record c { list = push_node node (set_second node v c.list) };
    evicted = [];
    failed = false;
  }

  unfoldable pub set : (V → K → Bool) → K → V → Lru K V → Evicted K V
  unfolding set_new
  set allowed key v c = set_at (map_get same c.cache key) allowed key v c

  -- The loop of the setter of `capacity`, which an error of an eviction leaves.
  pub shrink : ℕ → (V → K → Bool) → Lru K V → Evicted K V
  unfolding evict_least_recently_used
  shrink zero allowed c = record { after = c; evicted = []; failed = false }
  shrink (suc fuel) allowed c =
      let one = evict_least_recently_used allowed c in
      let rest = shrink fuel allowed one.after in
      if ltb c.capacity (size c)
      then (if one.failed then one else record {
        after = rest.after;
        evicted = one.evicted ++ rest.evicted;
        failed = rest.failed;
      })
      else record { after = c; evicted = []; failed = false }

  -- The setter of `capacity`. A round takes an entry out or fails, so as many rounds as there are
  -- entries are enough.
  unfoldable pub set_capacity : (V → K → Bool) → ℕ → Lru K V → Evicted K V
  unfolding shrink
  set_capacity allowed value c = shrink (size c) allowed (record c { capacity = value })

  -- `delete` when the map was asked.
  pub forget : K → Option ℕ → Lru K V → Lru K V × Bool
  forget key none c = (c, false)
  forget key (some node) c =
      (record c { cache = map_delete same key c.cache; list = remove node c.list }, true)

  unfoldable pub delete : K → Lru K V → Lru K V × Bool
  unfolding forget
  delete key c = forget key (map_get same c.cache key) c
