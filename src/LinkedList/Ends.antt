-- ===== src/LinkedList/Ends.antt =====
-- `pop` and `shift`, and the values that `push`, `pushAll`, `unshift` and `unshiftAll` add.
use vinyl.Common.{
  ℕ, ◌≡◌, refl, true, Option, none, some, List, [], ◌∷◌, ◌++◌, arith, append_assoc, append-nil, sym,
  ◌∙◌, ap, subst, ◌==◌, if◌then◌else◌, inl, inr, false,
}
use vinyl.LinkedList.{
  State, create, update, push, push_all, remove_pointed, pop, shift, remove, append_node, push_node,
  for_each,
}
use vinyl.LinkedList.{prepend_node, unshift_node, unshift, unshift_all}
use vinyl.LinkedList.Prepend.{unshift_node-cases, unshift-Holds}
use vinyl.LinkedList.Nodes.{last_or-append, NotIn, Below-NotIn}
use vinyl.LinkedList.Segment.{Holds}
use vinyl.LinkedList.Unlink.{remove-Holds, remove-value}
use vinyl.LinkedList.Append.{push-Holds, push_node-cases}
use vinyl.LinkedList.Walk.{prepend, values, for_each-values}

module _ {ℓ} {T : Type ℓ} where
  remove_pointed-remove :
      (o : Option ℕ) (n : ℕ) (s : State T) → o ≡ some n → remove_pointed o s ≡ (remove n s, some n)
  remove_pointed-remove o n s e = rw e refl

  -- `pop` of a list with a last node: it returns that node, which is marked as removed, and the
  -- list holds the nodes before it.
  pop-Holds :
      (ns : List ℕ) (n : ℕ) (s : State T)
      → Holds s (ns ++ n ∷ [])
      → ((pop s).1 ≡ some n) × Holds (pop s).0 ns × ((pop s).0.removed n ≡ true)
  unfolding pop
  pop-Holds ns n s g =
      let last : s.tail ≡ some n = g.tail ∙ last_or-append ns (n ∷ []) none in
      let (kept, gone) = remove-Holds n ns [] s g in
      let same = remove_pointed-remove s.tail n s last in
      (
        ap (λ r. r.1) same,
        subst (λ r. Holds r.0 ns) (sym same) (subst (Holds (remove n s)) (append-nil ns) kept),
        ap (λ r. r.0.removed n) same ∙ gone,
      )

  shift-Holds :
      (n : ℕ) (ns : List ℕ) (s : State T)
      → Holds s (n ∷ ns)
      → ((shift s).1 ≡ some n) × Holds (shift s).0 ns × ((shift s).0.removed n ≡ true)
  unfolding shift
  shift-Holds n ns s g =
      let (kept, gone) = remove-Holds n [] ns s g in
      let same = remove_pointed-remove s.head n s g.head in
      (
        ap (λ r. r.1) same,
        subst (λ r. Holds r.0 ns) (sym same) kept,
        ap (λ r. r.0.removed n) same ∙ gone,
      )

  prepend-append : (o : Option T) (us vs : List T) → prepend o (us ++ vs) ≡ prepend o us ++ vs
  prepend-append none us vs = refl
  prepend-append (some v) us vs = refl

  values-append :
      (value : ℕ → Option T) (ns ms : List ℕ)
      → values value (ns ++ ms) ≡ values value ns ++ values value ms
  values-append value [] ms = refl
  values-append value (n ∷ ns) ms =
      ap (prepend (value n)) (values-append value ns ms)
      ∙ prepend-append (value n) (values value ns) (values value ms)

  values-update :
      (value : ℕ → Option T) (n : ℕ) (v : Option T) (ns : List ℕ)
      → NotIn n ns
      → values (update value n v) ns ≡ values value ns
  values-update value n v [] h = refl
  values-update value n v (m ∷ ns) h =
      let other : (if n == m then v else value m) ≡ value m = ground arith in
      ap (λ (o : Option T). prepend o (values (update value n v) ns)) other
      ∙ ap (prepend (value m)) (values-update value n v ns h.1)

  append_node_value : (n : ℕ) (s : State T) → (append_node n s).value ≡ s.value
  unfolding append_node
  append_node_value n s = refl

  pub push_node_value : (n : ℕ) (s : State T) → (push_node n s).value ≡ s.value
  push_node_value n s = elim (push_node-cases n s) [
    | inl e ↦ ap (λ t. t.value) e
    | inr e ↦ ap (λ t. t.value) e ∙ append_node_value n (remove n s) ∙ remove-value n s
  ]

  pub push_value : (v : T) (s : State T) → (push v s).value ≡ update s.value s.count (some v)
  unfolding push
  push_value v s = push_node_value s.count (create s.tail v false none s)

  -- `push` adds the value at the end.
  push-values :
      (v : T) (ns : List ℕ) (s : State T)
      → Holds s ns
      → values (push v s).value (ns ++ s.count ∷ []) ≡ values s.value ns ++ v ∷ []
  push-values v ns s g =
      let old = values-update s.value s.count (some v) ns (Below-NotIn s.count ns g.known) in
      let own : (if s.count == s.count then some v else s.value s.count) ≡ some v = ground arith in
      ap (λ value. values value (ns ++ s.count ∷ [])) (push_value v s)
      ∙ values-append (update s.value s.count (some v)) ns (s.count ∷ [])
      ∙ ap (λ us. us ++ prepend (if s.count == s.count then some v else s.value s.count) []) old
      ∙ ap (λ (o : Option T). values s.value ns ++ prepend o []) own

  for_each-push :
      (v : T) (ns : List ℕ) (s : State T) → Holds s ns → for_each (push v s) ≡ for_each s ++ v ∷ []
  for_each-push v ns s g =
      for_each-values (ns ++ s.count ∷ []) (push v s) (push-Holds v ns s g)
      ∙ push-values v ns s g
      ∙ ap (λ vs. vs ++ v ∷ []) (sym (for_each-values ns s g))

  -- `pushAll` on a list that holds some nodes: `forEach` then visits the values that it visited
  -- before, followed by the new ones in their order.
  for_each-push_all :
      (vs : List T) (ns : List ℕ) (s : State T)
      → Holds s ns
      → for_each (push_all vs s) ≡ for_each s ++ vs
  unfolding push_all
  for_each-push_all [] ns s g = sym (append-nil (for_each s))
  for_each-push_all (v ∷ vs) ns s g =
      for_each-push_all vs (ns ++ s.count ∷ []) (push v s) (push-Holds v ns s g)
      ∙ ap (λ us. us ++ vs) (for_each-push v ns s g)
      ∙ append_assoc (for_each s) (v ∷ []) vs

  prepend_node_value : (n : ℕ) (s : State T) → (prepend_node n s).value ≡ s.value
  unfolding prepend_node
  prepend_node_value n s = refl

  unshift_node_value : (n : ℕ) (s : State T) → (unshift_node n s).value ≡ s.value
  unshift_node_value n s = elim (unshift_node-cases n s) [
    | inl e ↦ ap (λ t. t.value) e
    | inr e ↦ ap (λ t. t.value) e ∙ prepend_node_value n (remove n s) ∙ remove-value n s
  ]

  unshift_value : (v : T) (s : State T) → (unshift v s).value ≡ update s.value s.count (some v)
  unfolding unshift
  unshift_value v s = unshift_node_value s.count (create none v true s.head s)

  for_each-unshift :
      (v : T) (ns : List ℕ) (s : State T) → Holds s ns → for_each (unshift v s) ≡ v ∷ for_each s
  for_each-unshift v ns s g =
      let old = values-update s.value s.count (some v) ns (Below-NotIn s.count ns g.known) in
      let own : (if s.count == s.count then some v else s.value s.count) ≡ some v = ground arith in
      for_each-values (s.count ∷ ns) (unshift v s) (unshift-Holds v ns s g)
      ∙ ap (λ value. values value (s.count ∷ ns)) (unshift_value v s)
      ∙ ap (prepend (if s.count == s.count then some v else s.value s.count)) old
      ∙ ap (λ (o : Option T). prepend o (values s.value ns)) own
      ∙ ap (λ us. v ∷ us) (sym (for_each-values ns s g))

  unshift_all-Holds :
      (vs : List T) (ns : List ℕ) (s : State T)
      → Holds s ns
      → (ms : List ℕ) × Holds (unshift_all vs s) ms
  unfolding unshift_all
  unshift_all-Holds [] ns s g = (ns, g)
  unshift_all-Holds (v ∷ vs) ns s g =
      let (ms, h) = unshift_all-Holds vs ns s g in
      ((unshift_all vs s).count ∷ ms, unshift-Holds v ms (unshift_all vs s) h)

  -- `unshiftAll` on a list that holds some nodes: `forEach` then visits the new values in their
  -- order, followed by the values that it visited before.
  for_each-unshift_all :
      (vs : List T) (ns : List ℕ) (s : State T)
      → Holds s ns
      → for_each (unshift_all vs s) ≡ vs ++ for_each s
  unfolding unshift_all
  for_each-unshift_all [] ns s g = refl
  for_each-unshift_all (v ∷ vs) ns s g =
      let (ms, h) = unshift_all-Holds vs ns s g in
      for_each-unshift v ms (unshift_all vs s) h
      ∙ ap (λ us. v ∷ us) (for_each-unshift_all vs ns s g)
