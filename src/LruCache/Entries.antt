-- ===== src/LruCache/Entries.antt =====
-- What it means that the map and the list of an LRU cache agree.
use vinyl.Common.{ℕ, ◌≡◌, ◌⊎◌, inl, inr, refl, some, List, [], ◌∷◌, ◌++◌, Bool, sym, ap}
use vinyl.LinkedList.Nodes.{NotIn}
use vinyl.LinkedList.Segment.{Holds}
use vinyl.LruCache.{Lru, map_get}

-- The node is one of the list.
abbrev pub Among : ℕ → List ℕ → Type 0
Among x [] = ⊥
Among x (n ∷ ns) = (x ≡ n) ⊎ Among x ns

pub Among-middle :
    (x n : ℕ) (ns ms : List ℕ) → Among x (ns ++ n ∷ ms) → (x ≡ n) ⊎ Among x (ns ++ ms)
Among-middle x n [] ms h = h
Among-middle x n (m ∷ ns) ms (inl e) = inr (inl e)
Among-middle x n (m ∷ ns) ms (inr h) = elim (Among-middle x n ns ms h) [
  | inl e ↦ inl e
  | inr k ↦ inr (inr k)
]

pub Among-own : (n : ℕ) (ns ms : List ℕ) → Among n (ns ++ n ∷ ms)
Among-own n [] ms = inl refl
Among-own n (m ∷ ns) ms = inr (Among-own n ns ms)

pub Among-insert : (x n : ℕ) (ns ms : List ℕ) → Among x (ns ++ ms) → Among x (ns ++ n ∷ ms)
Among-insert x n [] ms h = inr h
Among-insert x n (m ∷ ns) ms (inl e) = inl e
Among-insert x n (m ∷ ns) ms (inr h) = inr (Among-insert x n ns ms h)

-- A node of the list stands somewhere in it.
Among-split :
    (x : ℕ) (ns : List ℕ) → Among x ns → (before after : List ℕ) × (ns ≡ before ++ x ∷ after)
Among-split x [] h = absurd h
Among-split x (n ∷ ns) (inl e) = ([], ns, ap (λ m. m ∷ ns) (sym e))
Among-split x (n ∷ ns) (inr h) =
    let (before, after, e) = Among-split x ns h in (n ∷ before, after, ap (λ l. n ∷ l) e)

pub Among-NotIn : (x : ℕ) (ns : List ℕ) → NotIn x ns → Among x ns → ⊥
Among-NotIn x [] h k = k
Among-NotIn x (n ∷ ns) h (inl e) = h.0 e
Among-NotIn x (n ∷ ns) h (inr k) = Among-NotIn x ns h.1 k

module _ {ℓ} {K V : Type ℓ} (same : K → K → Bool) where
  -- The list holds these nodes, and the map sends exactly the key of each node to it.
  pub record Agrees (c : Lru K V) (ns : List ℕ) : Type ℓ where
    pub held : Holds c.list ns
    pub listed :
        (k : K) (n : ℕ)
        → map_get same c.cache k ≡ some n
        → Among n ns × (v : V) × (c.list.value n ≡ some (k, v))
    pub mapped :
        (k : K) (v : V) (n : ℕ)
        → Among n ns
        → c.list.value n ≡ some (k, v)
        → map_get same c.cache k ≡ some n
