-- ===== src/LinkedList/Segment.antt =====
-- Chains of nodes in the heap: what a list of nodes means for their pointers.
use vinyl.Common.{
  ℕ, ◌≡◌, ◌≢◌, refl, Bool, false, Option, none, some, List, [], ◌∷◌, ◌++◌, arith, ◌==◌, Bool-cases,
  inl, inr, ◌∙◌,
}
use vinyl.LinkedList.{State, write, set_next, set_previous, set_removed}
use vinyl.LinkedList.Nodes.{first_or, last_or, NotIn, Distinct, Below, Apart, last_or-ne}

-- A write elsewhere leaves a cell alone.
pub write_ne {ℓ} :
    {A : Type ℓ} (f : ℕ → A) (o : Option ℕ) (v : A) (x : ℕ) → o ≢ some x → write f o v x ≡ f x
write_ne f none v x h = refl
write_ne f (some p) v x h = elim (Bool-cases (p == x)) [
  | inl e ↦ absurd (h (ground arith))
  | inr e ↦ rw e refl
]

module _ {ℓ} {T : Type ℓ} where
  -- The nodes are linked in this order both ways, between `p` and `q`, and none is removed.
  abbrev pub Segment : State T → Option ℕ → List ℕ → Option ℕ → Type 0
  Segment s p [] q = Unit
  Segment s p (n ∷ ns) q =
      (s.previous n ≡ p)
      × (s.next n ≡ first_or ns q)
      × (s.removed n ≡ false)
      × Segment s (some n) ns q

  -- The list holds exactly these nodes, in this order.
  pub record Holds (s : State T) (ns : List ℕ) : Type 0 where
    pub linked : Segment s none ns none
    pub head : s.head ≡ first_or ns none
    pub tail : s.tail ≡ last_or ns none
    pub distinct : Distinct ns
    pub known : Below s.count ns

  module _ (s : State T) where
    pub Segment-set_next :
        (o v p q : Option ℕ) (ns : List ℕ)
        → Apart o ns
        → Segment s p ns q
        → Segment (set_next o v s) p ns q
    Segment-set_next none v p q ns a g = g
    Segment-set_next (some x) v p q [] a g = tt
    Segment-set_next (some x) v p q (n ∷ ns) a g =
        (g.0, ground arith, g.2, Segment-set_next (some x) v (some n) q ns a.1 g.3)

    pub Segment-set_previous :
        (o v p q : Option ℕ) (ns : List ℕ)
        → Apart o ns
        → Segment s p ns q
        → Segment (set_previous o v s) p ns q
    Segment-set_previous none v p q ns a g = g
    Segment-set_previous (some x) v p q [] a g = tt
    Segment-set_previous (some x) v p q (n ∷ ns) a g =
        (ground arith, g.1, g.2, Segment-set_previous (some x) v (some n) q ns a.1 g.3)

    pub Segment-set_removed :
        (x : ℕ) (b : Bool) (p q : Option ℕ) (ns : List ℕ)
        → NotIn x ns
        → Segment s p ns q
        → Segment (set_removed x b s) p ns q
    Segment-set_removed x b p q [] a g = tt
    Segment-set_removed x b p q (n ∷ ns) a g =
        (g.0, g.1, ground arith, Segment-set_removed x b (some n) q ns a.1 g.3)

    pub Segment-append :
        (p q : Option ℕ) (ns ms : List ℕ)
        → Segment s p (ns ++ ms) q
        → Segment s p ns (first_or ms q) × Segment s (last_or ns p) ms q
    Segment-append p q [] ms g = (tt, g)
    Segment-append p q (n ∷ []) ms g = ((g.0, g.1, g.2, tt), g.3)
    Segment-append p q (n ∷ m ∷ ns) ms g =
        let (a, b) = Segment-append (some n) q (m ∷ ns) ms g.3 in ((g.0, g.1, g.2, a), b)

    pub append-Segment :
        (p q : Option ℕ) (ns ms : List ℕ)
        → Segment s p ns (first_or ms q)
        → Segment s (last_or ns p) ms q
        → Segment s p (ns ++ ms) q
    append-Segment p q [] ms a b = b
    append-Segment p q (n ∷ []) ms a b = (a.0, a.1, a.2, b)
    append-Segment p q (n ∷ m ∷ ns) ms a b =
        (a.0, a.1, a.2, append-Segment (some n) q (m ∷ ns) ms a.3 b)

    -- To give the first node another predecessor.
    pub Segment-relink_first :
        (v p q : Option ℕ) (ns : List ℕ)
        → Distinct ns
        → Segment s p ns q
        → Segment (set_previous (first_or ns none) v s) v ns q
    Segment-relink_first v p q [] d g = tt
    Segment-relink_first v p q (n ∷ ns) d g =
        (ground arith, g.1, g.2, Segment-set_previous (some n) v (some n) q ns d.0 g.3)

    -- To give the last node another successor.
    pub Segment-relink_last :
        (v p q : Option ℕ) (n : ℕ) (ns : List ℕ)
        → Distinct (n ∷ ns)
        → Segment s p (n ∷ ns) q
        → Segment (set_next (last_or ns (some n)) v s) p (n ∷ ns) v
    Segment-relink_last v p q n [] d g = (g.0, ground arith, g.2, tt)
    Segment-relink_last v p q n (m ∷ ns) d g =
        let o = last_or ns (some m) in
        let other = last_or-ne m n ns d.0.0 d.0.1 in
        (g.0, write_ne s.next o v n other ∙ g.1, g.2, Segment-relink_last v (some n) q m ns d.1 g.3)

    -- The pointers of the list and the values do not matter.
    pub Segment-other :
        (c : ℕ) (values : ℕ → Option T) (h t p q : Option ℕ) (ns : List ℕ)
        → Segment s p ns q
        → Segment (record s { count = c; value = values; head = h; tail = t }) p ns q
    Segment-other c values h t p q [] g = tt
    Segment-other c values h t p q (n ∷ ns) g =
        (g.0, g.1, g.2, Segment-other c values h t (some n) q ns g.3)
