-- ===== src/LinkedList/Prepend.antt =====
-- `unshift` and `unshiftNode` put a node at the start of the chain.
use vinyl.Common.{
  ℕ, ◌<◌, ◌≡◌, ◌≢◌, ◌⊎◌, refl, true, false, Option, none, some, List, [], ◌∷◌, ◌++◌, arith,
  if◌then◌else◌, Bool-cases, inl, inr, sym, ◌∙◌,
}
use vinyl.LinkedList.{
  State, set_next, set_previous, set_removed, points_to, is_null, create, remove,
}
use vinyl.LinkedList.Nodes.{
  first_or, last_or, NotIn, Distinct, Below-append, first_none-ne, append-NotIn, points_to-ne,
  points_to-same, Distinct-Middle,
}
use vinyl.LinkedList.Segment.{
  Segment, Holds, write_ne, Segment-set_next, Segment-set_previous, Segment-set_removed,
  Segment-relink_first, Segment-other,
}
use vinyl.LinkedList.Unlink.{remove-Holds, remove-removed, remove-count}
use vinyl.LinkedList.{prepend_node, unshift_node, unshift}
use vinyl.LinkedList.Append.{Segment-NotIn, create-Holds}

pub is_null-last_or : (m : ℕ) (ns : List ℕ) → is_null (last_or ns (some m)) ≡ false
is_null-last_or m [] = refl
is_null-last_or m (n ∷ ns) = is_null-last_or n ns

tail-attach :
    (n : ℕ) (ns : List ℕ)
    → (if is_null (last_or ns none) then some n else last_or ns none) ≡ last_or ns (some n)
tail-attach n [] = refl
tail-attach n (m ∷ ns) = rw (is_null-last_or m ns) refl

module _ {ℓ} {T : Type ℓ} where
  -- The steps of `prepend_node` when the start of the list is known.
  abbrev attach : ℕ → Option ℕ → State T → State T
  attach n q s =
      let linked =
        set_previous q (some n)
          (set_next (some n) q (set_previous (some n) none (set_removed n false s))) in
      record linked { head = some n; tail = if is_null s.tail then some n else s.tail }

  prepend_node-attach : (n : ℕ) (s : State T) → prepend_node n s ≡ attach n s.head s
  unfolding prepend_node
  prepend_node-attach n s = refl

  attach-Segment :
      (n : ℕ) (ns : List ℕ) (s : State T)
      → NotIn n ns
      → Distinct ns
      → Segment s none ns none
      → Segment (attach n (first_or ns none) s) none (n ∷ ns) none
  attach-Segment n ns s h d g =
      let q = first_or ns none in
      let s1 = set_removed n false s in
      let s2 = set_previous (some n) none s1 in
      let s3 = set_next (some n) q s2 in
      let s4 = set_previous q (some n) s3 in
      let a1 = Segment-set_removed s n false none none ns h g in
      let a2 = Segment-set_previous s1 (some n) none none none ns h a1 in
      let a3 = Segment-set_next s2 (some n) q none none ns h a2 in
      let a4 = Segment-relink_first s3 (some n) none none ns d a3 in
      let own : s4.previous n ≡ none =
        write_ne s3.previous q (some n) n (first_none-ne n ns h) ∙ ground arith in
      Segment-other s4 s.count s.value (some n) (if is_null s.tail then some n else s.tail) none
        none (n ∷ ns) (own, ground arith, ground arith, a4)

  prepend_node-Holds :
      (n : ℕ) (ns : List ℕ) (s : State T)
      → Holds s ns
      → NotIn n ns
      → n < s.count
      → Holds (prepend_node n s) (n ∷ ns)
  prepend_node-Holds n ns s g h k =
      rw (prepend_node-attach n s, g.head)
        (record {
          linked = attach-Segment n ns s h g.distinct g.linked;
          head = refl;
          tail = rw g.tail (tail-attach n ns);
          distinct = (h, g.distinct);
          known = (k, g.known);
        })

  unshift_node-first : (n : ℕ) (s : State T) → s.head ≡ some n → unshift_node n s ≡ s
  unfolding unshift_node
  unshift_node-first n s e = rw (e, points_to-same n) refl

  unshift_node-other :
      (n : ℕ) (s : State T) → s.head ≢ some n → unshift_node n s ≡ prepend_node n (remove n s)
  unfolding unshift_node
  unshift_node-other n s h = rw (points_to-ne s.head n h) refl

  pub unshift_node-cases :
      (n : ℕ) (s : State T)
      → (unshift_node n s ≡ s) ⊎ (unshift_node n s ≡ prepend_node n (remove n s))
  unfolding unshift_node
  unshift_node-cases n s = elim (Bool-cases (points_to s.head n)) [
    | inl e ↦ inl (rw e refl)
    | inr e ↦ inr (rw e refl)
  ]

  -- `unshiftNode` of a node of the list: the node comes to stand at the start, and the other nodes
  -- keep their order, also when the node was the first one already.
  unshift_node-Holds :
      (n : ℕ) (ns ms : List ℕ) (s : State T)
      → Holds s (ns ++ n ∷ ms)
      → Holds (unshift_node n s) (n ∷ ns ++ ms)
  unshift_node-Holds n [] ms s g = rw (unshift_node-first n s g.head) g
  unshift_node-Holds n (m ∷ ns) ms s g =
      let mid = Distinct-Middle (m ∷ ns) n ms g.distinct in
      let other = first_none-ne n (m ∷ ns) mid.not_before in
      let kept = (remove-Holds n (m ∷ ns) ms s g).0 in
      let absent = append-NotIn n (m ∷ ns) ms mid.not_before mid.not_after in
      let known : n < (remove n s).count =
        rw (remove-count n s) (Below-append s.count (m ∷ ns) (n ∷ ms) g.known).1.0 in
      rw (unshift_node-other n s (λ e. other (sym g.head ∙ e)))
        (prepend_node-Holds n (m ∷ ns ++ ms) (remove n s) kept absent known)

  -- `unshiftNode` of a removed node puts it at the start.
  unshift_node-removed :
      (n : ℕ) (ns : List ℕ) (s : State T)
      → Holds s ns
      → s.removed n ≡ true
      → n < s.count
      → Holds (unshift_node n s) (n ∷ ns)
  unshift_node-removed n ns s g e k =
      let absent = Segment-NotIn n none none ns s e g.linked in
      rw
        (
          unshift_node-other n s (λ f. first_none-ne n ns absent (sym g.head ∙ f)),
          remove-removed n s e,
        )
        (prepend_node-Holds n ns s g absent k)

  -- `unshift` of a value.
  pub unshift-Holds :
      (v : T) (ns : List ℕ) (s : State T) → Holds s ns → Holds (unshift v s) (s.count ∷ ns)
  unfolding unshift
  unshift-Holds v ns s g =
      unshift_node-removed s.count ns (create none v true s.head s)
        (create-Holds none v true s.head ns s g) (ground arith) (omega arith)
