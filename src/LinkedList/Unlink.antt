-- ===== src/LinkedList/Unlink.antt =====
-- `remove` takes a node out of the chain.
use vinyl.Common.{
  ℕ, ◌≡◌, ◌≢◌, refl, true, false, Option, none, some, List, [], ◌∷◌, ◌++◌, arith, if◌then◌else◌,
  Bool-cases, inl, inr, ◌∙◌,
}
use vinyl.LinkedList.{
  State, write, set_next, set_previous, set_removed, points_to, replace_head, replace_tail, unlink,
  remove,
}
use vinyl.LinkedList.Nodes.{
  first_or, last_or, NotIn, Distinct, Below-append, append-Below, last_or-ne, last_none-ne,
  first_none-ne, last_or-append, points_to-ne, points_to-same, Distinct-Middle,
}
use vinyl.LinkedList.Segment.{
  Segment, Holds, write_ne, Segment-set_next, Segment-set_previous, Segment-set_removed,
  Segment-append, append-Segment, Segment-relink_first, Segment-relink_last, Segment-other,
}

-- The pointer at the start of the list, and the one at its end.
head-bypass :
    (n : ℕ) (ns ms : List ℕ)
    → NotIn n ns
    → (if points_to (first_or (ns ++ n ∷ ms) none) n
        then first_or ms none
        else first_or (ns ++ n ∷ ms) none)
      ≡ first_or (ns ++ ms) none
head-bypass n [] ms h = rw (points_to-same n) refl
head-bypass n (x ∷ ns) ms h = rw (points_to-ne (some x) n (λ e. h.0 (ground arith))) refl

tail-bypass :
    (n : ℕ) (ns ms : List ℕ)
    → NotIn n ms
    → (if points_to (last_or ms (some n)) n then last_or ns none else last_or ms (some n))
      ≡ last_or ms (last_or ns none)
tail-bypass n ns [] h = rw (points_to-same n) refl
tail-bypass n ns (m ∷ ms) h =
    rw (points_to-ne (last_or ms (some m)) n (last_or-ne m n ms h.0 h.1)) refl

module _ {ℓ} {T : Type ℓ} where
  -- The steps of `unlink` for a node whose neighbours are known.
  abbrev pub bypass : ℕ → Option ℕ → Option ℕ → State T → State T
  bypass n p q s =
      replace_tail n p (replace_head n q (set_previous q p (set_next p q (set_removed n true s))))

  pub unlink-bypass :
      (n : ℕ) (p q : Option ℕ) (s : State T)
      → s.previous n ≡ p
      → s.next n ≡ q
      → p ≢ some n
      → q ≢ some n
      → unlink n s ≡ bypass n p q s
  unfolding unlink
  unlink-bypass n p q s e f h k =
      let second : write s.next p q n ≡ q = write_ne s.next p q n h ∙ f in
      let third : write s.previous q p n ≡ p = write_ne s.previous q p n k ∙ e in
      rw (e, f, second, third)

  pub relink_last :
      (s : State T) (v q : Option ℕ) (ns : List ℕ)
      → Distinct ns
      → Segment s none ns q
      → Segment (set_next (last_or ns none) v s) none ns v
  relink_last s v q [] d g = tt
  relink_last s v q (n ∷ ns) d g = Segment-relink_last s v none q n ns d g

  pub bypass-Holds :
      (n : ℕ) (ns ms : List ℕ) (s : State T)
      → Holds s (ns ++ n ∷ ms)
      → Holds (bypass n (last_or ns none) (first_or ms none) s) (ns ++ ms)
  bypass-Holds n ns ms s g =
      let mid = Distinct-Middle ns n ms g.distinct in
      let (a, b) = Segment-append s none none ns (n ∷ ms) g.linked in
      let p = last_or ns none in
      let q = first_or ms none in
      let s1 = set_removed n true s in
      let s2 = set_next p q s1 in
      let a1 = Segment-set_removed s n true none (some n) ns mid.not_before a in
      let b1 = Segment-set_removed s n true (some n) none ms mid.not_after b.3 in
      let a2 = relink_last s1 q (some n) ns mid.distinct_before a1 in
      let b2 = Segment-set_next s1 p q (some n) none ms mid.last_apart b1 in
      let a3 = Segment-set_previous s2 q p none q ns mid.first_apart a2 in
      let b3 = Segment-relink_first s2 p (some n) none ms mid.distinct_after b2 in
      record {
        linked =
            Segment-other (set_previous q p s2) s.count s.value
              (if points_to s.head n then q else s.head) (if points_to s.tail n then p else s.tail)
              none none (ns ++ ms) (append-Segment (set_previous q p s2) none none ns ms a3 b3);
        head = rw g.head (head-bypass n ns ms mid.not_before);
        tail =
            rw (g.tail, last_or-append ns (n ∷ ms) none, last_or-append ns ms none)
              (tail-bypass n ns ms mid.not_after);
        distinct = mid.distinct_rest;
        known =
            let (left, right) = Below-append s.count ns (n ∷ ms) g.known in
            append-Below s.count ns ms left right.1;
      }

  -- `remove` of a node of the list: the list then holds the other nodes in their order, linked both
  -- ways with its head and tail, and the node is marked as removed.
  pub remove-Holds :
      (n : ℕ) (ns ms : List ℕ) (s : State T)
      → Holds s (ns ++ n ∷ ms)
      → Holds (remove n s) (ns ++ ms) × ((remove n s).removed n ≡ true)
  unfolding remove
  remove-Holds n ns ms s g =
      let mid = Distinct-Middle ns n ms g.distinct in
      let (_, b) = Segment-append s none none ns (n ∷ ms) g.linked in
      let same =
        unlink-bypass n (last_or ns none) (first_or ms none) s b.0 b.1
          (last_none-ne n ns mid.not_before) (first_none-ne n ms mid.not_after) in
      rw (b.2, same) (bypass-Holds n ns ms s g, ground arith)

  -- A node that was removed before is left as it is.
  pub remove-removed : (n : ℕ) (s : State T) → s.removed n ≡ true → remove n s ≡ s
  unfolding remove
  remove-removed n s e = rw e refl

  pub remove-present : (n : ℕ) (s : State T) → s.removed n ≡ false → remove n s ≡ unlink n s
  unfolding remove
  remove-present n s e = rw e refl

  pub remove-count : (n : ℕ) (s : State T) → (remove n s).count ≡ s.count
  unfolding remove unlink
  remove-count n s = elim (Bool-cases (s.removed n)) [ inl e ↦ rw e refl | inr e ↦ rw e refl ]

  pub remove-value : (n : ℕ) (s : State T) → (remove n s).value ≡ s.value
  unfolding remove unlink
  remove-value n s = elim (Bool-cases (s.removed n)) [ inl e ↦ rw e refl | inr e ↦ rw e refl ]

  -- A node outside the list that points to its end is taken out without effect on the list.
  pub bypass-outside :
      (n : ℕ) (ns : List ℕ) (s : State T)
      → Holds s ns
      → NotIn n ns
      → Holds (bypass n (last_or ns none) none s) ns
  bypass-outside n ns s g h =
      let p = last_or ns none in
      let s1 = set_removed n true s in
      let a1 = Segment-set_removed s n true none none ns h g.linked in
      let a2 = relink_last s1 none none ns g.distinct a1 in
      record {
        linked =
            Segment-other (set_next p none s1) s.count s.value
              (if points_to s.head n then none else s.head)
              (if points_to s.tail n then p else s.tail) none none ns a2;
        head = rw (g.head, points_to-ne (first_or ns none) n (first_none-ne n ns h)) refl;
        tail = rw (g.tail, points_to-ne p n (last_none-ne n ns h)) refl;
        distinct = g.distinct;
        known = g.known;
      }
