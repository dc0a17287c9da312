-- ===== src/Tests/LruCache.antt =====
-- Runs of the LRU cache: cases of packages/vinyl-util/test/unit/util/collection, and each theorem at
-- a cache of three entries.
use vinyl.Common.{
  ℕ, ◌≡◌, ◌∷◌, [], Bool, true, false, some, refl, arith, ◌==◌, inl, inr, Bool-cases, sym, ap, ◌∙◌,
  subst,
}
use vinyl.LinkedList.{push}
use vinyl.LinkedList
use vinyl.LruCache.{Lru, IsKeyEquality, new_lru, set, get, delete, set_capacity, for_each, map_get}
use vinyl.LruCache.Entries.{Among, Agrees}
use vinyl.LruCache.Storing.{set-Agrees}
use vinyl.LruCache.Evicting.{set-evicts}
use vinyl.LruCache.Recency.{get-Agrees, delete-Agrees}

abbrev equal : ℕ → ℕ → Bool
equal a b = a == b

equal-IsKeyEquality : IsKeyEquality equal
equal-IsKeyEquality = record { same_refl = λ k. ground arith; same_eq = λ k j e. ground arith }

-- `onEvicting` is not set.
abbrev always : ℕ → ℕ → Bool
always v k = true

abbrev two : Lru ℕ ℕ
unfolding set push
two = (set equal always 6 60 (set equal always 5 50 (new_lru 2)).after).after

set_evicts : (set equal always 7 70 two).evicted ≡ (5, 50) ∷ []
unfolding set push
set_evicts = refl

set_after : for_each (set equal always 7 70 two).after ≡ (6, 60) ∷ (7, 70) ∷ []
unfolding set push for_each LinkedList.for_each
set_after = refl

get_runs : for_each (get equal 5 two).0 ≡ (6, 60) ∷ (5, 50) ∷ []
unfolding set push get LinkedList.push_node for_each LinkedList.for_each
get_runs = refl

refused_eviction : (set equal (λ v k. false) 7 70 two).failed ≡ true
unfolding set push
refused_eviction = refl

shrunk : (set_capacity equal always 1 two).evicted ≡ (5, 50) ∷ []
unfolding set push set_capacity
shrunk = refl

two-listed :
    (k n : ℕ)
    → map_get equal two.cache k ≡ some n
    → Among n (0 ∷ 1 ∷ []) × (v : ℕ) × (two.list.value n ≡ some (k, v))
unfolding set push
two-listed k n e = elim (Bool-cases (5 == k)) [
  | inl f ↦
      let key : k ≡ 5 = ground arith in
      let at : some 0 ≡ some n = subst (λ x. map_get equal two.cache x ≡ some n) key e in
      let node : n ≡ 0 = ground arith in (inl node, 50, rw (key, node) refl)
  | inr f ↦ elim (Bool-cases (6 == k)) [
    | inl h ↦
        let key : k ≡ 6 = ground arith in
        let at : some 1 ≡ some n = subst (λ x. map_get equal two.cache x ≡ some n) key e in
        let node : n ≡ 1 = ground arith in (inr (inl node), 60, rw (key, node) refl)
    | inr h ↦ absurd (ground arith)
  ]
]

two-mapped :
    (k v n : ℕ)
    → Among n (0 ∷ 1 ∷ [])
    → two.list.value n ≡ some (k, v)
    → map_get equal two.cache k ≡ some n
unfolding set push
two-mapped k v n (inl f) e =
    let entry : some (5, 50) ≡ some (k, v) = sym (ap two.list.value f) ∙ e in
    let key : k ≡ 5 = ground arith in rw (key, f) refl
two-mapped k v n (inr (inl f)) e =
    let entry : some (6, 60) ≡ some (k, v) = sym (ap two.list.value f) ∙ e in
    let key : k ≡ 6 = ground arith in rw (key, f) refl
two-mapped k v n (inr (inr h)) e = absurd h

two-Agrees : Agrees equal two (0 ∷ 1 ∷ [])
unfolding set push
two-Agrees = record {
  held = record {
    linked = (refl, refl, refl, (refl, refl, refl, tt));
    head = refl;
    tail = refl;
    distinct = ground arith;
    known = omega arith;
  };
  listed = two-listed;
  mapped = two-mapped;
}

roomy-Agrees : Agrees equal (record two { capacity = 3 }) (0 ∷ 1 ∷ [])
roomy-Agrees = record {
  held = two-Agrees.held;
  listed = two-Agrees.listed;
  mapped = two-Agrees.mapped;
}

get-Agrees_example : Agrees equal (get equal 5 two).0 (1 ∷ 0 ∷ []) × ((get equal 5 two).1 ≡ some 50)
unfolding set push
get-Agrees_example = get-Agrees equal 0 5 50 [] (1 ∷ []) two two-Agrees refl

delete-Agrees_example :
    Agrees equal (delete equal 6 two).0 (0 ∷ []) × ((delete equal 6 two).1 ≡ true)
unfolding set push
delete-Agrees_example =
    delete-Agrees equal equal-IsKeyEquality 1 6 60 (0 ∷ []) [] two two-Agrees refl

set-Agrees_example :
    Agrees equal (set equal always 7 70 (record two { capacity = 3 })).after (0 ∷ 1 ∷ 2 ∷ [])
    × ((set equal always 7 70 (record two { capacity = 3 })).after.list.value 2 ≡ some (7, 70))
    × ((set equal always 7 70 (record two { capacity = 3 })).evicted ≡ [])
    × ((set equal always 7 70 (record two { capacity = 3 })).failed ≡ false)
unfolding set push
set-Agrees_example =
    set-Agrees equal equal-IsKeyEquality always 7 70 (0 ∷ 1 ∷ []) (record two { capacity = 3 })
      roomy-Agrees refl (omega arith)

set-evicts_example :
    Agrees equal (set equal always 7 70 two).after (1 ∷ 2 ∷ [])
    × ((set equal always 7 70 two).after.list.value 2 ≡ some (7, 70))
    × ((set equal always 7 70 two).evicted ≡ (5, 50) ∷ [])
    × ((set equal always 7 70 two).failed ≡ false)
unfolding set push
set-evicts_example =
    set-evicts equal equal-IsKeyEquality always 7 70 0 (5, 50) (1 ∷ []) two two-Agrees refl refl
      refl (omega arith)
