-- ===== src/LinkedList/Insert/Link.antt =====
-- `insertNodeAfter` once the node is out of the list.
use vinyl.Common.{
  ℕ, ◌<◌, ◌≡◌, refl, false, Option, none, some, List, [], ◌∷◌, ◌++◌, arith, if◌then◌else◌, sym, ◌∙◌,
  subst,
}
use vinyl.LinkedList.{State, is_null, set_removed, set_next, set_previous, link_after}
use vinyl.LinkedList.Nodes.{
  first_or, last_or, NotIn, Distinct, last_or-append, Distinct-Middle, last_none-ne,
}
use vinyl.LinkedList.Segment.{
  Segment, Holds, Segment-append, append-Segment, Segment-other, Segment-set_removed,
  Segment-set_next, Segment-set_previous, Segment-relink_first, write_ne,
}
use vinyl.LinkedList.Unlink.{relink_last}
use vinyl.LinkedList.Insert.{Distinct-insert, Below-insert}

tail-after :
    (n : ℕ) (ls ms : List ℕ)
    → (if is_null (first_or ms none) then some n else last_or (ls ++ ms) none)
      ≡ last_or (ls ++ n ∷ ms) none
tail-after n ls [] = sym (last_or-append ls (n ∷ []) none)
tail-after n ls (m ∷ ms) =
    last_or-append ls (m ∷ ms) none ∙ sym (last_or-append ls (n ∷ m ∷ ms) none)

head-after :
    (n x : ℕ) (ns ms : List ℕ)
    → first_or ((ns ++ x ∷ []) ++ ms) none ≡ first_or ((ns ++ x ∷ []) ++ n ∷ ms) none
head-after n x [] ms = refl
head-after n x (m ∷ ns) ms = refl

module _ {ℓ} {T : Type ℓ} where
  -- Four writes put `n` between `p` and `q`.
  abbrev between_after : ℕ → Option ℕ → Option ℕ → State T → State T
  between_after n p q s = set_next p (some n) (
      set_previous (some n) p
        (set_next (some n) q (set_previous q (some n) (set_removed n false s))))

  between_after-Segment :
      (n : ℕ) (ns ms : List ℕ) (s : State T)
      → Distinct (ns ++ n ∷ ms)
      → Segment s none (ns ++ ms) none
      → Segment (between_after n (last_or ns none) (first_or ms none) s) none (ns ++ n ∷ ms) none
  between_after-Segment n ns ms s d g =
      let mid = Distinct-Middle ns n ms d in
      let h = mid.not_before in
      let k = mid.not_after in
      let (a, b) = Segment-append s none none ns ms g in
      let p = last_or ns none in
      let q = first_or ms none in
      let s1 = set_removed n false s in
      let s2 = set_previous q (some n) s1 in
      let s3 = set_next (some n) q s2 in
      let s4 = set_previous (some n) p s3 in
      let s5 = set_next p (some n) s4 in
      let a1 = Segment-set_removed s n false none q ns h a in
      let a2 = Segment-set_previous s1 q (some n) none q ns mid.first_apart a1 in
      let a3 = Segment-set_next s2 (some n) q none q ns h a2 in
      let a4 = Segment-set_previous s3 (some n) p none q ns h a3 in
      let a5 = relink_last s4 (some n) q ns mid.distinct_before a4 in
      let b1 = Segment-set_removed s n false p none ms k b in
      let b2 = Segment-relink_first s1 (some n) p none ms mid.distinct_after b1 in
      let b3 = Segment-set_next s2 (some n) q (some n) none ms k b2 in
      let b4 = Segment-set_previous s3 (some n) p (some n) none ms k b3 in
      let b5 = Segment-set_next s4 p (some n) (some n) none ms mid.last_apart b4 in
      let own : s5.next n ≡ q =
        write_ne s4.next p (some n) n (last_none-ne n ns h) ∙ ground arith in
      append-Segment s5 none none ns (n ∷ ms) a5 (ground arith, own, ground arith, b5)

  link_after-between :
      (n x : ℕ) (q : Option ℕ) (s : State T)
      → s.next x ≡ q
      → link_after n x s
        ≡ record (between_after n (some x) q s) { tail = if is_null q then some n else s.tail }
  unfolding link_after
  link_after-between n x none s e = rw e refl
  link_after-between n x (some q) s e = rw (e, e) refl

  pub link_after-Holds :
      (n x : ℕ) (ns ms : List ℕ) (s : State T)
      → Holds s ((ns ++ x ∷ []) ++ ms)
      → NotIn n (ns ++ x ∷ [])
      → NotIn n ms
      → n < s.count
      → Holds (link_after n x s) ((ns ++ x ∷ []) ++ n ∷ ms)
  link_after-Holds n x ns ms s g h k l =
      let ls = ns ++ x ∷ [] in
      let (a, b) = Segment-append s none none ls ms g.linked in
      let last : last_or ls none ≡ some x = last_or-append ns (x ∷ []) none in
      let distinct = Distinct-insert n ls ms h k g.distinct in
      let q = first_or ms none in
      let (_, at) = Segment-append s none q ns (x ∷ []) a in
      rw (link_after-between n x q s at.1) (record {
        linked =
            Segment-other (between_after n (some x) q s) s.count s.value s.head
              (if is_null q then some n else s.tail) none none (ls ++ n ∷ ms)
              (subst (λ p. Segment (between_after n p q s) none (ls ++ n ∷ ms) none) last
                (between_after-Segment n ls ms s distinct g.linked));
        head = g.head ∙ head-after n x ns ms;
        tail = rw g.tail (tail-after n ls ms);
        distinct = distinct;
        known = Below-insert s.count n ls ms l g.known;
      })
