-- ===== src/LruCache/Recency.antt =====
-- `get` makes an entry the most recently used one, and `delete` takes it out.
use vinyl.Common.{
  ℕ, ◌≡◌, inl, inr, refl, Option, none, some, List, [], ◌∷◌, ◌++◌, Bool, true, false, sym, ap, ◌∙◌,
  append_assoc, append-nil, subst, arith, if◌then◌else◌, Bool-cases,
}
use vinyl.LinkedList.{remove}
use vinyl.LinkedList.Nodes.{append-NotIn, Distinct-Middle}
use vinyl.LinkedList.Unlink.{remove-Holds, remove-value}
use vinyl.LinkedList.Append.{push_node-Holds}
use vinyl.LinkedList.Ends.{push_node_value}
use vinyl.LruCache.{Lru, IsKeyEquality, map_get, map_delete, touch, second, get, forget, delete}
use vinyl.LruCache.Entries.{Among, Among-middle, Among-own, Among-insert, Among-NotIn, Agrees}

Among-last : (x n : ℕ) (ns ms : List ℕ) → Among x (ns ++ n ∷ ms) → Among x (ns ++ (ms ++ n ∷ []))
Among-last x n ns ms h = elim (Among-middle x n ns ms h) [
  | inl e ↦
      subst (λ l. Among x l) (append_assoc ns ms (n ∷ []))
        (subst (λ y. Among y ((ns ++ ms) ++ n ∷ [])) (sym e) (Among-own n (ns ++ ms) []))
  | inr k ↦
      subst (λ l. Among x l) (append_assoc ns ms (n ∷ []))
        (Among-insert x n (ns ++ ms) [] (subst (λ l. Among x l) (sym (append-nil (ns ++ ms))) k))
]

last-Among : (x n : ℕ) (ns ms : List ℕ) → Among x (ns ++ (ms ++ n ∷ [])) → Among x (ns ++ n ∷ ms)
last-Among x n ns ms h =
    elim (Among-middle x n (ns ++ ms) []
      (subst (λ l. Among x l) (sym (append_assoc ns ms (n ∷ []))) h)) [
        | inl e ↦ subst (λ y. Among y (ns ++ n ∷ ms)) (sym e) (Among-own n ns ms)
        | inr k ↦ Among-insert x n ns ms (subst (λ l. Among x l) (append-nil (ns ++ ms)) k)
      ]

if_none {ℓ} :
    {A : Type ℓ} (b : Bool) (a : A) (o : Option A)
    → (if b then none else o) ≡ some a
    → (b ≡ false) × (o ≡ some a)
if_none true a o e = ground arith
if_none false a o e = (refl, e)

module _ {ℓ} {A : Type ℓ} where
  pub again : (b : Bool) (x y z : A) → (if b then x else y) ≡ (if b then x else if b then z else y)
  again true x y z = refl
  again false x y z = refl

  pub swapped :
      (b c : Bool) (x y z : A)
      → (b ≡ true → c ≡ true → ⊥)
      → (if c then z else if b then x else y) ≡ (if b then x else if c then z else y)
  swapped true true x y z h = absurd (h refl refl)
  swapped true false x y z h = refl
  swapped false c x y z h = refl

module _ {ℓ} {K : Type ℓ} (same : K → K → Bool) where
  map_get-map_delete :
      IsKeyEquality same
      → (k j : K) (m : List (K × ℕ))
      → map_get same (map_delete same k m) j ≡ (if same k j then none else map_get same m j)
  map_get-map_delete law k j [] = elim (Bool-cases (same k j)) [
    | inl e ↦ rw e refl
    | inr e ↦ rw e refl
  ]
  map_get-map_delete law k j ((i, n) ∷ m) =
      let rest = map_get-map_delete law k j m in
      elim (Bool-cases (same i k)) [
        | inl e ↦
            let keys : same i j ≡ same k j = ap (λ x. same x j) (law.same_eq i k e) in
            rw (e, keys) (rest ∙ again (same k j) none (map_get same m j) (some n))
        | inr e ↦
            let apart = λ (f : same k j ≡ true) (g : same i j ≡ true). clash law i j k f g e in
            rw e (
              ap (λ o. if same i j then some n else o) rest
              ∙ swapped (same k j) (same i j) none (map_get same m j) (some n) apart)
      ]
    where
      clash :
          IsKeyEquality same
          → (i j k : K) → same k j ≡ true
          → same i j ≡ true
          → same i k ≡ false
          → ⊥
      clash law i j k f g e =
          let keys : i ≡ k = law.same_eq i j g ∙ sym (law.same_eq k j f) in
          let own : same i k ≡ true = ap (same i) (sym keys) ∙ law.same_refl i in ground arith

module _ {ℓ} {K V : Type ℓ} (same : K → K → Bool) where
  abbrev pub key_or : K → Option (K × V) → K
  key_or k none = k
  key_or k (some e) = e.0

  forget-result : (k : K) (n : ℕ) (c : Lru K V) → (forget same k (some n) c).1 ≡ true
  unfolding forget
  forget-result k n c = refl

  touch-Agrees :
      (n : ℕ) (k : K) (v : V) (ns ms : List ℕ) (c : Lru K V)
      → Agrees same c (ns ++ n ∷ ms)
      → c.list.value n ≡ some (k, v)
      → Agrees same (touch (some n) c).0 (ns ++ (ms ++ n ∷ [])) × ((touch (some n) c).1 ≡ some v)
  unfolding touch
  touch-Agrees n k v ns ms c g e = (
    record {
      held = push_node-Holds n ns ms c.list g.held;
      listed = λ j m f.
          let (among, w, h) = g.listed j m f in
          (Among-last m n ns ms among, w, ap (λ value. value m) (push_node_value n c.list) ∙ h);
      mapped = λ j w m among h.
          g.mapped j w m (last-Among m n ns ms among)
            (ap (λ value. value m) (sym (push_node_value n c.list)) ∙ h);
    },
    ap second (ap (λ value. value n) (push_node_value n c.list) ∙ e),
  )

  -- `get` of a key, when the map and the list agree and an entry with that key stands in the list:
  -- `get` returns its value, the entry becomes the last and thereby the most recently used one, the
  -- others keep their order, and the map and the list agree.
  pub get-Agrees :
      (n : ℕ) (k : K) (v : V) (ns ms : List ℕ) (c : Lru K V)
      → Agrees same c (ns ++ n ∷ ms)
      → c.list.value n ≡ some (k, v)
      → Agrees same (get same k c).0 (ns ++ (ms ++ n ∷ [])) × ((get same k c).1 ≡ some v)
  unfolding get
  get-Agrees n k v ns ms c g e =
      subst (λ o. Agrees same (touch o c).0 (ns ++ (ms ++ n ∷ [])) × ((touch o c).1 ≡ some v))
        (sym (g.mapped k v n (Among-own n ns ms) e)) (touch-Agrees n k v ns ms c g e)

  pub forget-Agrees :
      IsKeyEquality same
      → (n : ℕ) (k : K) (v : V) (ns ms : List ℕ) (c : Lru K V) → Agrees same c (ns ++ n ∷ ms)
      → c.list.value n ≡ some (k, v)
      → Agrees same (forget same k (some n) c).0 (ns ++ ms)
  unfolding forget
  forget-Agrees law n k v ns ms c g e = record {
    held = (remove-Holds n ns ms c.list g.held).0;
    listed = λ j m f.
        let (apart, o) =
          if_none (same k j) m (map_get same c.cache j)
            (sym (map_get-map_delete same law k j c.cache) ∙ f) in
        let (among, w, h) = g.listed j m o in
        let value : (remove n c.list).value m ≡ some (j, w) =
          ap (λ value. value m) (remove-value n c.list) ∙ h in
        elim (Among-middle m n ns ms among) [
          | inl here ↦
              let keys : k ≡ j = ap (key_or k) (sym e ∙ ap c.list.value (sym here) ∙ h) in
              let clash : same k j ≡ true = ap (same k) (sym keys) ∙ law.same_refl k in ground arith
          | inr there ↦ (there, w, value)
        ];
    mapped = λ j w m among h.
        let value : c.list.value m ≡ some (j, w) =
          ap (λ value. value m) (sym (remove-value n c.list)) ∙ h in
        let found = g.mapped j w m (Among-insert m n ns ms among) value in
        elim (Bool-cases (same k j)) [
          | inl f ↦
              let keys = law.same_eq k j f in
              let both : some n ≡ some m =
                sym (g.mapped k v n (Among-own n ns ms) e)
                ∙ ap (map_get same c.cache) keys
                ∙ found in
              let nodes : n ≡ m = cc in
              let mid = Distinct-Middle ns n ms g.held.distinct in
              absurd (
                Among-NotIn n (ns ++ ms) (append-NotIn n ns ms mid.not_before mid.not_after)
                  (subst (λ x. Among x (ns ++ ms)) (sym nodes) among))
          | inr f ↦
              map_get-map_delete same law k j c.cache
              ∙ ap (λ b. if b then none else map_get same c.cache j) f
              ∙ found
        ];
  }

  -- `delete` of a key, when the map and the list agree, keys are compared by an equality, and an
  -- entry with that key stands in the list: `delete` returns true, and the map and the list agree
  -- on the other entries in their order.
  pub delete-Agrees :
      IsKeyEquality same
      → (n : ℕ) (k : K) (v : V) (ns ms : List ℕ) (c : Lru K V) → Agrees same c (ns ++ n ∷ ms)
      → c.list.value n ≡ some (k, v)
      → Agrees same (delete same k c).0 (ns ++ ms) × ((delete same k c).1 ≡ true)
  unfolding delete
  delete-Agrees law n k v ns ms c g e =
      subst (λ o. Agrees same (forget same k o c).0 (ns ++ ms) × ((forget same k o c).1 ≡ true))
        (sym (g.mapped k v n (Among-own n ns ms) e))
        (forget-Agrees law n k v ns ms c g e, forget-result k n c)
