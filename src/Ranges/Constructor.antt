-- ===== src/Ranges/Constructor.antt =====
-- The constructor of `RangesImpl`, and any other run of `add` over a list of ranges.
use vinyl.Common.{
  ltb→le, true, false, ℕ, suc, ◌+◌, ◌≤◌, ◌≡◌, refl, Bool, some, List, [], ◌∷◌, arith, ltb, ◌||◌,
  length, min, max, Bool-cases, ◌∙◌, inl, inr,
}
use vinyl.Ranges.{Range, add, add_all}
use vinyl.Ranges.Order.{within, covers, IsOrdered}
use vinyl.Ranges.Add.{merge, add-merge, merge-IsOrdered, covers-merge}

length-merge-le : (s e : ℕ) (rs : List Range) → length (merge s e rs) ≤ suc (length rs)
length-merge-le s e [] = omega arith
length-merge-le s e (r ∷ rs) =
    ground (arith, length-merge-le s e rs, length-merge-le (min r.0 s) (max r.1 e) rs)

or_swap : (a b c : Bool) → (a || (b || c)) ≡ ((b || a) || c)
or_swap a b c = ground arith

-- A span whose end is below its start is not added.
add_backward : (s e : ℕ) (rs : List Range) → ltb e s ≡ true → add s e rs ≡ some rs
unfolding add
add_backward s e rs h = rw h

within_backward : (s e x : ℕ) → ltb e s ≡ true → within s e x ≡ false
within_backward s e x h = ground arith

-- On any list of ranges, in any order, with any overlaps and with ends below their starts, the
-- constructor throws nothing and builds sorted disjoint ranges that cover exactly what the list
-- and the ranges already there cover.
pub add_all-covers :
    (rs acc : List Range)
    → IsOrdered acc
    → length acc + length rs ≤ 2147483648
    → (out : List Range) × (add_all rs acc ≡ some out)
      × IsOrdered out
      × ((x : ℕ) → covers out x ≡ (covers rs x || covers acc x))
      × (length out ≤ length acc + length rs)
unfolding add_all
add_all-covers [] acc o b = (acc, refl, o, λ x. refl, omega arith)
add_all-covers (r ∷ rs) acc o b = elim (Bool-cases (ltb r.1 r.0)) [
  | inl t ↦
      let (out, run, ordered, cover, size) = add_all-covers rs acc o (omega arith) in
      (
        out,
        rw (add_backward r.0 r.1 acc t) run,
        ordered,
        λ x. rw (within_backward r.0 r.1 x t) (cover x),
        omega arith,
      )
  | inr t ↦
      let grown = length-merge-le r.0 r.1 acc in
      let forward : r.0 ≤ r.1 = ltb→le r.1 r.0 t in
      let (out, run, ordered, cover, size) =
        add_all-covers rs (merge r.0 r.1 acc) (merge-IsOrdered r.0 r.1 acc forward o)
          (omega arith) in
      (
        out,
        rw (add-merge r.0 r.1 acc forward o (omega arith)) run,
        ordered,
        λ x.
            cover x
            ∙ rw (covers-merge r.0 r.1 x acc forward o)
                (or_swap (covers rs x) (within r.0 r.1 x) (covers acc x)),
        omega arith,
      )
]
