-- ===== src/LinkedList/Insert.antt =====
-- Putting a node between two others, as `insertNodeBefore` and `insertNodeAfter` do.
pub mod Before
pub mod Link
pub mod After
use vinyl.Common.{
  ℕ, suc, ◌≤◌, ◌<◌, ◌≡◌, ◌≢◌, ◌⊎◌, refl, Bool, true, false, not, ◌&&◌, if◌then◌else◌, not, ◌&&◌,
  Option, none, some, List, [], ◌∷◌, ◌++◌, arith, ◌==◌, if◌then◌else◌, Bool-cases, inl, inr, sym,
  ◌∙◌, ap, subst, append_assoc,
}
use vinyl.LinkedList.{
  State, update, write, set_next, set_previous, set_removed, points_to, is_null, unlink,
  append_node, push_node, create, push, remove,
}
use vinyl.LinkedList.Nodes.{
  first_or, last_or, NotIn, Distinct, Below, Below-NotIn, Below-le, Below-append, append-Below,
  Apart, last_or-ne, last_none-ne, first_none-ne, last_or-append, NotIn-append, append-NotIn,
  points_to-ne, points_to-same, Distinct-Middle, Middle,
}
use vinyl.LinkedList.Segment.{
  Segment, Holds, write_ne, Segment-set_next, Segment-set_previous, Segment-set_removed,
  Segment-append, append-Segment, Segment-relink_first, Segment-relink_last, Segment-other,
}
use vinyl.LinkedList.Unlink.{
  relink_last, bypass, bypass-Holds, unlink-bypass, remove-Holds, remove-removed, remove-present,
  remove-count, bypass-outside,
}
use vinyl.LinkedList.Append.{Segment-NotIn}
use vinyl.LinkedList.Prepend.{is_null-last_or}
use vinyl.LinkedList.{link_before, link_after, insert_node_before, insert_node_after}

pub Distinct-insert :
    (n : ℕ) (ns ms : List ℕ)
    → NotIn n ns
    → NotIn n ms
    → Distinct (ns ++ ms)
    → Distinct (ns ++ n ∷ ms)
Distinct-insert n [] ms h k d = (k, d)
Distinct-insert n (m ∷ ns) ms h k d =
    let (a, b) = NotIn-append m ns ms d.0 in
    (append-NotIn m ns (n ∷ ms) a ((λ e. h.0 (sym e)), b), Distinct-insert n ns ms h.1 k d.1)

pub Below-insert : (k n : ℕ) (ns ms : List ℕ) → n < k → Below k (ns ++ ms) → Below k (ns ++ n ∷ ms)
Below-insert k n ns ms h b =
    let (left, right) = Below-append k ns ms b in append-Below k ns (n ∷ ms) left (h, right)

pub split_unique :
    (x : ℕ) (ns ns2 ms ms2 : List ℕ)
    → NotIn x ns
    → NotIn x ns2
    → ns ++ x ∷ ms ≡ ns2 ++ x ∷ ms2
    → (ns ≡ ns2) × (ms ≡ ms2)
split_unique x [] [] ms ms2 h k e = (refl, cc)
split_unique x [] (n ∷ ns2) ms ms2 h k e = absurd (k.0 cc)
split_unique x (n ∷ ns) [] ms ms2 h k e = absurd (h.0 cc)
split_unique x (n ∷ ns) (m ∷ ns2) ms ms2 h k e =
    let (a, b) = split_unique x ns ns2 ms ms2 h.1 k.1 cc in (cc, b)

module _ {ℓ} {T : Type ℓ} where
  pub never : (b : Bool) (s t : State T) → (if not b && false then s else t) ≡ t
  never true s t = refl
  never false s t = refl

  -- Four writes put `n` between `p` and `q`.
  abbrev pub between : ℕ → Option ℕ → Option ℕ → State T → State T
  between n p q s =
      set_previous q (some n) (
        set_next (some n) q (set_previous (some n) p (set_next p (some n) (set_removed n false s))))

  pub between-Segment :
      (n : ℕ) (ns ms : List ℕ) (s : State T)
      → Distinct (ns ++ n ∷ ms)
      → Segment s none (ns ++ ms) none
      → Segment (between n (last_or ns none) (first_or ms none) s) none (ns ++ n ∷ ms) none
  between-Segment n ns ms s d g =
      let mid = Distinct-Middle ns n ms d in
      let h = mid.not_before in
      let k = mid.not_after in
      let (a, b) = Segment-append s none none ns ms g in
      let p = last_or ns none in
      let q = first_or ms none in
      let s1 = set_removed n false s in
      let s2 = set_next p (some n) s1 in
      let s3 = set_previous (some n) p s2 in
      let s4 = set_next (some n) q s3 in
      let s5 = set_previous q (some n) s4 in
      let a1 = Segment-set_removed s n false none q ns h a in
      let a2 = relink_last s1 (some n) q ns mid.distinct_before a1 in
      let a3 = Segment-set_previous s2 (some n) p none (some n) ns h a2 in
      let a4 = Segment-set_next s3 (some n) q none (some n) ns h a3 in
      let a5 = Segment-set_previous s4 q (some n) none (some n) ns mid.first_apart a4 in
      let b1 = Segment-set_removed s n false p none ms k b in
      let b2 = Segment-set_next s1 p (some n) p none ms mid.last_apart b1 in
      let b3 = Segment-set_previous s2 (some n) p p none ms k b2 in
      let b4 = Segment-set_next s3 (some n) q p none ms k b3 in
      let b5 = Segment-relink_first s4 (some n) p none ms mid.distinct_after b4 in
      let own : s5.previous n ≡ p =
        write_ne s4.previous q (some n) n (first_none-ne n ms k) ∙ ground arith in
      append-Segment s5 none none ns (n ∷ ms) a5 (own, ground arith, ground arith, b5)
