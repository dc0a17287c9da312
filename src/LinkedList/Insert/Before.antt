-- ===== src/LinkedList/Insert/Before.antt =====
-- `insertNodeBefore` puts a node in front of another one.
use vinyl.Common.{
  ℕ, ◌<◌, ◌≡◌, ◌≢◌, refl, true, false, not, ◌&&◌, Option, none, some, List, [], ◌∷◌, ◌++◌, arith,
  ◌==◌, if◌then◌else◌, Bool-cases, inl, inr, sym, ◌∙◌, ap, subst,
}
use vinyl.LinkedList.{State, points_to, is_null, remove}
use vinyl.LinkedList.Nodes.{
  first_or, last_or, NotIn, Distinct, Below-append, last_or-append, NotIn-append, append-NotIn,
  points_to-ne, points_to-same, Distinct-Middle,
}
use vinyl.LinkedList.Segment.{Holds, Segment-append, Segment-other}
use vinyl.LinkedList.Unlink.{remove-Holds, remove-removed, remove-count}
use vinyl.LinkedList.Append.{Segment-NotIn}
use vinyl.LinkedList.Prepend.{is_null-last_or}
use vinyl.LinkedList.{link_before, insert_node_before}
use vinyl.LinkedList.Insert.{
  never, Distinct-insert, Below-insert, split_unique, between, between-Segment,
}

head-before :
    (n x : ℕ) (ns ms : List ℕ)
    → (if is_null (last_or ns none) then some n else first_or (ns ++ x ∷ ms) none)
      ≡ first_or (ns ++ n ∷ x ∷ ms) none
head-before n x [] ms = refl
head-before n x (m ∷ ns) ms = rw (is_null-last_or m ns) refl

module _ {ℓ} {T : Type ℓ} where
  link_before-between :
      (n x : ℕ) (p : Option ℕ) (s : State T)
      → s.previous x ≡ p
      → link_before n x s
        ≡ record (between n p (some x) s) { head = if is_null p then some n else s.head }
  unfolding link_before
  link_before-between n x none s e = rw e refl
  link_before-between n x (some p) s e = rw (e, e) refl

  link_before-Holds :
      (n x : ℕ) (ns ms : List ℕ) (s : State T)
      → Holds s (ns ++ x ∷ ms)
      → NotIn n ns
      → NotIn n (x ∷ ms)
      → n < s.count
      → Holds (link_before n x s) (ns ++ n ∷ x ∷ ms)
  link_before-Holds n x ns ms s g h k l =
      let (a, b) = Segment-append s none none ns (x ∷ ms) g.linked in
      let distinct = Distinct-insert n ns (x ∷ ms) h k g.distinct in
      let p = last_or ns none in
      rw (link_before-between n x p s b.0) (record {
        linked =
            Segment-other (between n p (some x) s) s.count s.value
              (if is_null p then some n else s.head) s.tail none none (ns ++ n ∷ x ∷ ms)
              (between-Segment n ns (x ∷ ms) s distinct g.linked);
        head = rw g.head (head-before n x ns ms);
        tail = g.tail ∙ last_or-append ns (x ∷ ms) none ∙ sym (last_or-append ns (n ∷ x ∷ ms) none);
        distinct = distinct;
        known = Below-insert s.count n ns (x ∷ ms) l g.known;
      })

  insert_node_before-next :
      (n x : ℕ) (s : State T)
      → s.removed n ≡ false
      → s.next n ≡ some x
      → insert_node_before n x s ≡ s
  unfolding insert_node_before
  insert_node_before-next n x s e f = rw (e, f, points_to-same x) refl

  insert_node_before-other :
      (n x : ℕ) (s : State T)
      → s.next n ≢ some x
      → insert_node_before n x s ≡ link_before n x (remove n s)
  unfolding insert_node_before
  insert_node_before-other n x s h =
      rw (points_to-ne (s.next n) x h) (never (s.removed n) s (link_before n x (remove n s)))

  insert_before_gone :
      (n x : ℕ) (s : State T)
      → s.removed n ≡ true
      → insert_node_before n x s ≡ link_before n x (remove n s)
  unfolding insert_node_before
  insert_before_gone n x s e =
      ap (λ b. if not b && points_to (s.next n) x then s else link_before n x (remove n s)) e

  -- A node that is not already in front of `x` is taken out and put there.
  move_before :
      (n x : ℕ) (before after ns ms : List ℕ) (s : State T)
      → Holds s (before ++ n ∷ after)
      → before ++ after ≡ ns ++ x ∷ ms
      → first_or after none ≢ some x
      → Holds (insert_node_before n x s) (ns ++ n ∷ x ∷ ms)
  move_before n x before after ns ms s g e h =
      let mid = Distinct-Middle before n after g.distinct in
      let (_, b) = Segment-append s none none before (n ∷ after) g.linked in
      let kept = subst (Holds (remove n s)) e (remove-Holds n before after s g).0 in
      let missing = append-NotIn n before after mid.not_before mid.not_after in
      let (left, right) = NotIn-append n ns (x ∷ ms) (subst (NotIn n) e missing) in
      let known : n < (remove n s).count =
        rw (remove-count n s) (Below-append s.count before (n ∷ after) g.known).1.0 in
      rw (insert_node_before-other n x s (λ f. h (sym b.1 ∙ f)))
        (link_before-Holds n x ns ms (remove n s) kept left right known)

  already_before :
      (n x : ℕ) (before after ns ms : List ℕ) (s : State T)
      → Holds s (before ++ n ∷ x ∷ after)
      → before ++ x ∷ after ≡ ns ++ x ∷ ms
      → Holds (insert_node_before n x s) (ns ++ n ∷ x ∷ ms)
  already_before n x before after ns ms s g e =
      let mid = Distinct-Middle before n (x ∷ after) g.distinct in
      let here = Distinct-Middle before x after mid.distinct_rest in
      let there = Distinct-Middle ns x ms (subst Distinct e mid.distinct_rest) in
      let (same, rest) = split_unique x before ns after ms here.not_before there.not_before e in
      let (_, b) = Segment-append s none none before (n ∷ x ∷ after) g.linked in
      rw (insert_node_before-next n x s b.2 b.1, sym same, sym rest) g

  -- `insertNodeBefore` of a node of the list and a pointer to another one: the node comes to stand
  -- right before the pointer, and the other nodes keep their order, also when the node stood there
  -- already.
  pub insert_node_before-Holds :
      (n x : ℕ) (before after ns ms : List ℕ) (s : State T)
      → Holds s (before ++ n ∷ after)
      → before ++ after ≡ ns ++ x ∷ ms
      → Holds (insert_node_before n x s) (ns ++ n ∷ x ∷ ms)
  insert_node_before-Holds n x before [] ns ms s g e =
      move_before n x before [] ns ms s g e (λ f. ground arith)
  insert_node_before-Holds n x before (a ∷ after) ns ms s g e = elim (Bool-cases (a == x)) [
    | inl f ↦
        let same : a ≡ x = ground arith in
        already_before n x before after ns ms s
          (subst (λ y. Holds s (before ++ n ∷ y ∷ after)) same g)
          (subst (λ y. before ++ y ∷ after ≡ ns ++ x ∷ ms) same e)
    | inr f ↦ move_before n x before (a ∷ after) ns ms s g e (λ k. ground arith)
  ]

  -- A removed node is put in front of another one.
  insert_node_before-removed :
      (n x : ℕ) (ns ms : List ℕ) (s : State T)
      → Holds s (ns ++ x ∷ ms)
      → s.removed n ≡ true
      → n < s.count
      → Holds (insert_node_before n x s) (ns ++ n ∷ x ∷ ms)
  insert_node_before-removed n x ns ms s g e k =
      let (left, right) =
        NotIn-append n ns (x ∷ ms) (Segment-NotIn n none none (ns ++ x ∷ ms) s e g.linked) in
      rw (insert_before_gone n x s e, remove-removed n s e)
        (link_before-Holds n x ns ms s g left right k)
