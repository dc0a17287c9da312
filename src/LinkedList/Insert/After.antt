-- ===== src/LinkedList/Insert/After.antt =====
-- `insertNodeAfter` puts a node behind another one.
use vinyl.Common.{
  ℕ, ◌<◌, ◌≡◌, ◌≢◌, refl, true, false, Option, none, some, List, [], ◌∷◌, ◌++◌, arith, Bool-cases,
  inl, inr, sym, ◌∙◌, ap, subst, append_assoc,
}
use vinyl.LinkedList.{State, points_to, remove, link_after, insert_node_after}
use vinyl.LinkedList.Nodes.{
  last_or, NotIn, Distinct, Below-append, last_or-append, NotIn-append, append-NotIn, points_to-ne,
  points_to-same, Distinct-Middle,
}
use vinyl.LinkedList.Segment.{Holds, Segment-append}
use vinyl.LinkedList.Unlink.{remove-Holds, remove-count}
use vinyl.LinkedList.Insert.Link.{link_after-Holds}
use vinyl.LinkedList.Insert.{never, split_unique}

points_to-eq : (o : Option ℕ) (x : ℕ) → points_to o x ≡ true → o ≡ some x
points_to-eq none x e = ground arith
points_to-eq (some p) x e = ground arith

-- A list that ends is one more node behind another list.
last_split :
    (x n : ℕ) (ns : List ℕ) → last_or ns (some n) ≡ some x → (ms : List ℕ) × (n ∷ ns ≡ ms ++ x ∷ [])
last_split x n [] e = ([], cc)
last_split x n (m ∷ ns) e = let (ms, f) = last_split x m ns e in (n ∷ ms, ap (λ l. n ∷ l) f)

module _ {ℓ} {T : Type ℓ} where
  insert_node_after-previous :
      (n x : ℕ) (s : State T)
      → s.removed n ≡ false
      → s.previous n ≡ some x
      → insert_node_after n x s ≡ s
  unfolding insert_node_after
  insert_node_after-previous n x s e f = rw (e, f, points_to-same x) refl

  insert_node_after-other :
      (n x : ℕ) (s : State T)
      → s.previous n ≢ some x
      → insert_node_after n x s ≡ link_after n x (remove n s)
  unfolding insert_node_after
  insert_node_after-other n x s h =
      rw (points_to-ne (s.previous n) x h) (never (s.removed n) s (link_after n x (remove n s)))

  -- A node that is not already behind `x` is taken out and put there.
  move_after :
      (n x : ℕ) (before after ns ms : List ℕ) (s : State T)
      → Holds s (before ++ n ∷ after)
      → before ++ after ≡ ns ++ x ∷ ms
      → last_or before none ≢ some x
      → Holds (insert_node_after n x s) (ns ++ x ∷ n ∷ ms)
  move_after n x before after ns ms s g e h =
      let mid = Distinct-Middle before n after g.distinct in
      let (_, b) = Segment-append s none none before (n ∷ after) g.linked in
      let split = e ∙ sym (append_assoc ns (x ∷ []) ms) in
      let kept = subst (Holds (remove n s)) split (remove-Holds n before after s g).0 in
      let missing = append-NotIn n before after mid.not_before mid.not_after in
      let (left, right) = NotIn-append n (ns ++ x ∷ []) ms (subst (NotIn n) split missing) in
      let known : n < (remove n s).count =
        rw (remove-count n s) (Below-append s.count before (n ∷ after) g.known).1.0 in
      rw (insert_node_after-other n x s (λ f. h (sym b.0 ∙ f))) (
        subst (Holds (link_after n x (remove n s))) (append_assoc ns (x ∷ []) (n ∷ ms))
          (link_after-Holds n x ns ms (remove n s) kept left right known))

  already_after :
      (n x : ℕ) (before after ns ms : List ℕ) (s : State T)
      → Holds s ((before ++ x ∷ []) ++ n ∷ after)
      → (before ++ x ∷ []) ++ after ≡ ns ++ x ∷ ms
      → Holds (insert_node_after n x s) (ns ++ x ∷ n ∷ ms)
  already_after n x before after ns ms s g e =
      let mid = Distinct-Middle (before ++ x ∷ []) n after g.distinct in
      let whole = sym (append_assoc before (x ∷ []) after) ∙ e in
      let here =
        Distinct-Middle before x after
          (subst Distinct (append_assoc before (x ∷ []) after) mid.distinct_rest) in
      let there = Distinct-Middle ns x ms (subst Distinct e mid.distinct_rest) in
      let (same, rest) = split_unique x before ns after ms here.not_before there.not_before whole in
      let (_, b) = Segment-append s none none (before ++ x ∷ []) (n ∷ after) g.linked in
      let last = last_or-append before (x ∷ []) none in
      rw (insert_node_after-previous n x s b.2 (b.0 ∙ last), sym same, sym rest)
        (subst (Holds s) (append_assoc before (x ∷ []) (n ∷ after)) g)

  last_cases :
      (n x : ℕ) (before after ns ms : List ℕ) (s : State T)
      → Holds s (before ++ n ∷ after)
      → before ++ after ≡ ns ++ x ∷ ms
      → last_or before none ≡ some x
      → Holds (insert_node_after n x s) (ns ++ x ∷ n ∷ ms)
  last_cases n x [] after ns ms s g e f = ground arith
  last_cases n x (b ∷ before) after ns ms s g e f =
      let (init, split) = last_split x b before f in
      already_after n x init after ns ms s (subst (λ l. Holds s (l ++ n ∷ after)) split g)
        (subst (λ l. l ++ after ≡ ns ++ x ∷ ms) split e)

  -- `insertNodeAfter` of a node of the list and a pointer to another one: the node comes to stand
  -- right behind the pointer, and the other nodes keep their order, also when the node stood there
  -- already.
  insert_node_after-Holds :
      (n x : ℕ) (before after ns ms : List ℕ) (s : State T)
      → Holds s (before ++ n ∷ after)
      → before ++ after ≡ ns ++ x ∷ ms
      → Holds (insert_node_after n x s) (ns ++ x ∷ n ∷ ms)
  insert_node_after-Holds n x before after ns ms s g e =
      elim (Bool-cases (points_to (last_or before none) x)) [
        | inl f ↦ last_cases n x before after ns ms s g e (points_to-eq (last_or before none) x f)
        | inr f ↦
            move_after n x before after ns ms s g e
              (λ k. ground (arith, f, ap (λ o. points_to o x) k, points_to-same x))
      ]
