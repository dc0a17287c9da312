-- ===== src/LruCache/Storing.antt =====
-- `set` of a key that is new, in a cache with room.
use vinyl.Common.{
  ℕ, suc, ◌<◌, ◌≡◌, inl, inr, refl, Option, none, some, List, [], ◌∷◌, ◌++◌, Bool, true, false, sym,
  ap, ◌∙◌, append-nil, subst, arith, if◌then◌else◌, Bool-cases, ◌==◌, ltb, length,
}
use vinyl.LinkedList.{push, update}
use vinyl.LinkedList.Nodes.{NotIn, Below-NotIn}
use vinyl.LinkedList.Append.{push-Holds}
use vinyl.LinkedList.Ends.{push_value}
use vinyl.LruCache.{
  Lru, IsKeyEquality, map_get, map_set, size, set_at, evict_least_recently_used, set,
}
use vinyl.LruCache.Entries.{Among, Among-middle, Among-own, Among-insert, Among-NotIn, Agrees}
use vinyl.LruCache.Recency.{again, swapped, key_or}

module _ {ℓ} {K : Type ℓ} (same : K → K → Bool) where
  map_get-map_set :
      IsKeyEquality same
      → (k j : K) (node : ℕ) (m : List (K × ℕ))
      → map_get same (map_set same k node m) j ≡ (if same k j then some node else map_get same m j)
  map_get-map_set law k j node [] = refl
  map_get-map_set law k j node ((i, n) ∷ m) =
      let rest = map_get-map_set law k j node m in
      elim (Bool-cases (same i k)) [
        | inl e ↦
            let keys : same i j ≡ same k j = ap (λ x. same x j) (law.same_eq i k e) in
            rw (e, keys) (again (same k j) (some node) (map_get same m j) (some n))
        | inr e ↦
            let apart = λ (f : same k j ≡ true) (g : same i j ≡ true). clash law i j k f g e in
            rw e (
              ap (λ o. if same i j then some n else o) rest
              ∙ swapped (same k j) (same i j) (some node) (map_get same m j) (some n) apart)
      ]
    where
      clash :
          IsKeyEquality same
          → (i j k : K) → same k j ≡ true
          → same i j ≡ true
          → same i k ≡ false
          → ⊥
      clash law i j k f g e =
          let keys : i ≡ k = law.same_eq i j g ∙ sym (law.same_eq k j f) in
          let own : same i k ≡ true = ap (same i) (sym keys) ∙ law.same_refl i in ground arith

  pub length-map_set :
      (k : K) (n : ℕ) (m : List (K × ℕ))
      → map_get same m k ≡ none
      → length (map_set same k n m) ≡ suc (length m)
  length-map_set k n [] e = refl
  length-map_set k n ((i, o) ∷ m) e = elim (Bool-cases (same i k)) [
    | inl f ↦
        let clash : some o ≡ none = sym (ap (λ b. if b then some o else map_get same m k) f) ∙ e in
        absurd (ground arith)
    | inr f ↦
        let rest : map_get same m k ≡ none =
          sym (ap (λ b. if b then some o else map_get same m k) f) ∙ e in
        rw f (omega (arith, length-map_set k n m rest))
  ]

pub unchanged {ℓ} :
    {A : Type ℓ} (m n : ℕ) (ns : List ℕ) (o : Option A) (value : ℕ → Option A)
    → NotIn n ns
    → Among m ns
    → update value n o m ≡ value m
unchanged m n ns o value h a = elim (Bool-cases (n == m)) [
  | inl e ↦
      let same_node : m ≡ n = ground arith in
      absurd (Among-NotIn n ns h (subst (λ x. Among x ns) same_node a))
  | inr e ↦ rw e refl
]

module _ {ℓ} {K V : Type ℓ} (same : K → K → Bool) where
  -- The cache with a new entry at the end.
  abbrev pub added : K → V → Lru K V → Lru K V
  added k v c = record c { cache = map_set same k c.list.count c.cache; list = push (k, v) c.list }

  pub added_entry :
      (k : K) (v : V) (c : Lru K V) → (added k v c).list.value c.list.count ≡ some (k, v)
  added_entry k v c = ap (λ value. value c.list.count) (push_value (k, v) c.list) ∙ ground arith

  pub added-Agrees :
      IsKeyEquality same
      → (k : K) (v : V) (ns : List ℕ) (c : Lru K V) → Agrees same c ns
      → map_get same c.cache k ≡ none
      → Agrees same (added k v c) (ns ++ c.list.count ∷ [])
  added-Agrees law k v ns c g miss =
      let n = c.list.count in
      let new = push_value (k, v) c.list in
      let own : (push (k, v) c.list).value n ≡ some (k, v) =
        ap (λ value. value n) new ∙ ground arith in
      let outside = Below-NotIn n ns g.held.known in
      let old = λ (m : ℕ) (a : Among m ns).
        ap (λ value. value m) new ∙ unchanged m n ns (some (k, v)) c.list.value outside a in
      record {
        held = push-Holds (k, v) ns c.list g.held;
        listed = λ j m f.
            let f2 : (if same k j then some n else map_get same c.cache j) ≡ some m =
              sym (map_get-map_set same law k j n c.cache) ∙ f in
            elim (Bool-cases (same k j)) [
              | inl e ↦
                  let keys = law.same_eq k j e in
                  let here : some n ≡ some m =
                    sym (ap (λ b. if b then some n else map_get same c.cache j) e) ∙ f2 in
                  let node : n ≡ m = cc in
                  (
                    subst (λ x. Among x (ns ++ n ∷ [])) node (Among-own n ns []),
                    v,
                    ap (push (k, v) c.list).value (sym node) ∙ own ∙ ap (λ x. some (x, v)) keys,
                  )
              | inr e ↦
                  let there : map_get same c.cache j ≡ some m =
                    sym (ap (λ b. if b then some n else map_get same c.cache j) e) ∙ f2 in
                  let (among, w, h) = g.listed j m there in
                  (
                    Among-insert m n ns [] (subst (λ l. Among m l) (sym (append-nil ns)) among),
                    w,
                    old m among ∙ h,
                  )
            ];
        mapped = λ j w m among h.
            map_get-map_set same law k j n c.cache ∙ (elim (Among-middle m n ns [] among) [
              | inl here ↦
                  let keys : k ≡ j =
                    ap (key_or same k) (sym own ∙ ap (push (k, v) c.list).value (sym here) ∙ h) in
                  let hit : same k j ≡ true = ap (same k) (sym keys) ∙ law.same_refl k in
                  ap (λ b. if b then some n else map_get same c.cache j) hit
                  ∙ ap (λ x. some x) (sym here)
              | inr there ↦
                  let inside = subst (λ l. Among m l) (append-nil ns) there in
                  let found = g.mapped j w m inside (sym (old m inside) ∙ h) in
                  elim (Bool-cases (same k j)) [
                    | inl e ↦
                        let clash : none ≡ some m =
                          sym miss ∙ ap (map_get same c.cache) (law.same_eq k j e) ∙ found in
                        absurd (ground arith)
                    | inr e ↦ ap (λ b. if b then some n else map_get same c.cache j) e ∙ found
                  ]
            ]);
      }

  pub set_new-branch :
      (allowed : V → K → Bool) (k : K) (v : V) (c : Lru K V) (b : Bool)
      → map_get same c.cache k ≡ none
      → ltb c.capacity (length (map_set same k c.list.count c.cache)) ≡ b
      → set same allowed k v c ≡ (
          if b
          then evict_least_recently_used same allowed (added k v c)
          else record { after = added k v c; evicted = []; failed = false })
  unfolding set
  set_new-branch allowed k v c b miss e =
      ap (λ o. set_at same o allowed k v c) miss
      ∙ ap
          (λ b.
            if b
            then evict_least_recently_used same allowed (added k v c)
            else record { after = added k v c; evicted = []; failed = false })
          e

  -- `set` of a key that is not cached, when the map and the list agree, keys are compared by an
  -- equality, and the cache has room: the map and the list agree on the old entries and behind them
  -- a new one with the key and the value, nothing is evicted, and nothing is thrown.
  pub set-Agrees :
      IsKeyEquality same
      → (allowed : V → K → Bool) (k : K) (v : V) (ns : List ℕ) (c : Lru K V) → Agrees same c ns
      → map_get same c.cache k ≡ none
      → size c < c.capacity
      → Agrees same (set same allowed k v c).after (ns ++ c.list.count ∷ [])
        × ((set same allowed k v c).after.list.value c.list.count ≡ some (k, v))
        × ((set same allowed k v c).evicted ≡ [])
        × ((set same allowed k v c).failed ≡ false)
  unfolding set
  set-Agrees law allowed k v ns c g miss room =
      let more = length-map_set same k c.list.count c.cache miss in
      let fits : ltb c.capacity (length (map_set same k c.list.count c.cache)) ≡ false =
        ground (arith, more, room) in
      let new : set same allowed k v c
          ≡ record { after = added k v c; evicted = []; failed = false } =
        set_new-branch allowed k v c false miss fits in
      (
        subst (λ r. Agrees same r.after (ns ++ c.list.count ∷ [])) (sym new)
            (added-Agrees law k v ns c g miss),
        ap (λ r. r.after.list.value c.list.count) new ∙ added_entry k v c,
        ap (λ r. r.evicted) new,
        ap (λ r. r.failed) new,
      )
