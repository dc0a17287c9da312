-- ===== src/LinkedList/Append.antt =====
-- `push` and `pushNode` put a node at the end of the chain.
use vinyl.Common.{
  ℕ, suc, ◌<◌, ◌≡◌, ◌≢◌, ◌⊎◌, refl, Bool, true, false, Option, none, some, List, [], ◌∷◌, ◌++◌,
  arith, if◌then◌else◌, Bool-cases, inl, inr, sym, ◌∙◌, ap, append_assoc,
}
use vinyl.LinkedList.{
  State, set_next, set_previous, set_removed, points_to, is_null, append_node, push_node, create,
  push, remove,
}
use vinyl.LinkedList.Nodes.{
  first_or, last_or, NotIn, Distinct, Below-NotIn, Below-le, Below-append, append-Below, last_or-ne,
  last_none-ne, last_or-append, append-NotIn, points_to-ne, points_to-same, Distinct-Middle,
}
use vinyl.LinkedList.Segment.{
  Segment, Holds, write_ne, Segment-set_next, Segment-set_previous, Segment-set_removed,
  append-Segment, Segment-other,
}
use vinyl.LinkedList.Unlink.{
  relink_last, bypass, unlink-bypass, remove-Holds, remove-removed, remove-present, remove-count,
  bypass-outside,
}

Distinct-snoc : (n : ℕ) (ns : List ℕ) → Distinct ns → NotIn n ns → Distinct (ns ++ n ∷ [])
Distinct-snoc n [] d h = (tt, tt)
Distinct-snoc n (m ∷ ns) d h =
    (append-NotIn m ns (n ∷ []) d.0 ((λ e. h.0 (sym e)), tt), Distinct-snoc n ns d.1 h.1)

head-attach :
    (n : ℕ) (ns : List ℕ)
    → (if is_null (first_or ns none) then some n else first_or ns none)
      ≡ first_or (ns ++ n ∷ []) none
head-attach n [] = refl
head-attach n (m ∷ ns) = refl

module _ {ℓ} {T : Type ℓ} where
  -- The steps of `append_node` when the end of the list is known.
  abbrev attach : ℕ → Option ℕ → State T → State T
  attach n p s =
      let linked =
        set_next p (some n)
          (set_previous (some n) p (set_next (some n) none (set_removed n false s))) in
      record linked { tail = some n; head = if is_null s.head then some n else s.head }

  append_node-attach : (n : ℕ) (s : State T) → append_node n s ≡ attach n s.tail s
  unfolding append_node
  append_node-attach n s = refl

  attach-Segment :
      (n : ℕ) (ns : List ℕ) (s : State T)
      → NotIn n ns
      → Distinct ns
      → Segment s none ns none
      → Segment (attach n (last_or ns none) s) none (ns ++ n ∷ []) none
  attach-Segment n ns s h d g =
      let p = last_or ns none in
      let s1 = set_removed n false s in
      let s2 = set_next (some n) none s1 in
      let s3 = set_previous (some n) p s2 in
      let s4 = set_next p (some n) s3 in
      let a1 = Segment-set_removed s n false none none ns h g in
      let a2 = Segment-set_next s1 (some n) none none none ns h a1 in
      let a3 = Segment-set_previous s2 (some n) p none none ns h a2 in
      let a4 = relink_last s3 (some n) none ns d a3 in
      let own : s4.next n ≡ none =
        write_ne s3.next p (some n) n (last_none-ne n ns h) ∙ ground arith in
      Segment-other s4 s.count s.value (if is_null s.head then some n else s.head) (some n) none
        none (ns ++ n ∷ [])
        (append-Segment s4 none none ns (n ∷ []) a4 (ground arith, own, ground arith, tt))

  append_node-Holds :
      (n : ℕ) (ns : List ℕ) (s : State T)
      → Holds s ns
      → NotIn n ns
      → n < s.count
      → Holds (append_node n s) (ns ++ n ∷ [])
  append_node-Holds n ns s g h k =
      rw (append_node-attach n s, g.tail)
        (record {
          linked = attach-Segment n ns s h g.distinct g.linked;
          head = rw g.head (head-attach n ns);
          tail = rw (last_or-append ns (n ∷ []) none) refl;
          distinct = Distinct-snoc n ns g.distinct h;
          known = append-Below s.count ns (n ∷ []) g.known (k, tt);
        })

  push_node-last : (n : ℕ) (s : State T) → s.tail ≡ some n → push_node n s ≡ s
  unfolding push_node
  push_node-last n s e = rw (e, points_to-same n) refl

  push_node-other :
      (n : ℕ) (s : State T) → s.tail ≢ some n → push_node n s ≡ append_node n (remove n s)
  unfolding push_node
  push_node-other n s h = rw (points_to-ne s.tail n h) refl

  pub push_node-cases :
      (n : ℕ) (s : State T) → (push_node n s ≡ s) ⊎ (push_node n s ≡ append_node n (remove n s))
  unfolding push_node
  push_node-cases n s = elim (Bool-cases (points_to s.tail n)) [
    | inl e ↦ inl (rw e refl)
    | inr e ↦ inr (rw e refl)
  ]

  -- `pushNode` of a node of the list: the node comes to stand at the end, and the other nodes keep
  -- their order, also when the node was the last one already.
  pub push_node-Holds :
      (n : ℕ) (ns ms : List ℕ) (s : State T)
      → Holds s (ns ++ n ∷ ms)
      → Holds (push_node n s) (ns ++ (ms ++ n ∷ []))
  push_node-Holds n ns [] s g = rw (push_node-last n s (g.tail ∙ last_or-append ns (n ∷ []) none)) g
  push_node-Holds n ns (m ∷ ms) s g =
      let mid = Distinct-Middle ns n (m ∷ ms) g.distinct in
      let last : s.tail ≡ last_or ms (some m) = g.tail ∙ last_or-append ns (n ∷ m ∷ ms) none in
      let other = last_or-ne m n ms mid.not_after.0 mid.not_after.1 in
      let kept = (remove-Holds n ns (m ∷ ms) s g).0 in
      let absent = append-NotIn n ns (m ∷ ms) mid.not_before mid.not_after in
      let known : n < (remove n s).count =
        rw (remove-count n s) (Below-append s.count ns (n ∷ m ∷ ms) g.known).1.0 in
      rw (push_node-other n s (λ e. other (sym last ∙ e)), sym (append_assoc ns (m ∷ ms) (n ∷ [])))
        (append_node-Holds n (ns ++ m ∷ ms) (remove n s) kept absent known)

  pub Segment-NotIn :
      (n : ℕ) (p q : Option ℕ) (ns : List ℕ) (s : State T)
      → s.removed n ≡ true
      → Segment s p ns q
      → NotIn n ns
  Segment-NotIn n p q [] s e g = tt
  Segment-NotIn n p q (m ∷ ns) s e g =
      ((λ same. ground (arith, g.2, ap s.removed same)), Segment-NotIn n (some m) q ns s e g.3)

  -- `pushNode` of a removed node puts it at the end.
  push_node-removed :
      (n : ℕ) (ns : List ℕ) (s : State T)
      → Holds s ns
      → s.removed n ≡ true
      → n < s.count
      → Holds (push_node n s) (ns ++ n ∷ [])
  push_node-removed n ns s g e k =
      let absent = Segment-NotIn n none none ns s e g.linked in
      rw
        (push_node-other n s (λ f. last_none-ne n ns absent (sym g.tail ∙ f)), remove-removed n s e)
        (append_node-Holds n ns s g absent k)

  create-Segment :
      (previous : Option ℕ) (v : T) (b : Bool) (next p q : Option ℕ) (ns : List ℕ) (s : State T)
      → NotIn s.count ns
      → Segment s p ns q
      → Segment (create previous v b next s) p ns q
  create-Segment previous v b next p q [] s h g = tt
  create-Segment previous v b next p q (n ∷ ns) s h g = (
    ground arith,
    ground arith,
    ground arith,
    create-Segment previous v b next (some n) q ns s h.1 g.3,
  )

  -- A new node does not belong to the list.
  pub create-Holds :
      (previous : Option ℕ) (v : T) (b : Bool) (next : Option ℕ) (ns : List ℕ) (s : State T)
      → Holds s ns
      → Holds (create previous v b next s) ns
  create-Holds previous v b next ns s g = record {
    linked =
        create-Segment previous v b next none none ns s (Below-NotIn s.count ns g.known) g.linked;
    head = g.head;
    tail = g.tail;
    distinct = g.distinct;
    known = Below-le s.count (suc s.count) ns (omega arith) g.known;
  }

  -- `push` of a value.
  pub push-Holds :
      (v : T) (ns : List ℕ) (s : State T) → Holds s ns → Holds (push v s) (ns ++ s.count ∷ [])
  unfolding push
  push-Holds v ns s g =
      let n = s.count in
      let s1 = create s.tail v false none s in
      let g1 = create-Holds s.tail v false none ns s g in
      let absent = Below-NotIn n ns g.known in
      let apart = last_none-ne n ns absent in
      let taken : remove n s1 ≡ bypass n (last_or ns none) none s1 =
        remove-present n s1 (ground arith)
        ∙ unlink-bypass n (last_or ns none) none s1 (ground (arith, g.tail)) (ground arith) apart
            (λ e. ground arith) in
      let after =
        append_node-Holds n ns (remove n s1) (rw taken (bypass-outside n ns s1 g1 absent)) absent
          (rw (remove-count n s1) (omega arith)) in
      rw (push_node-other n s1 (λ f. apart (sym g.tail ∙ f))) after
