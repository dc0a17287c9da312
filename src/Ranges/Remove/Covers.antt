-- ===== src/Ranges/Remove/Covers.antt =====
-- What `RangesImpl.remove` leaves covered, and that it keeps the ranges sorted and disjoint.
use vinyl.Common.{
  ℕ, ◌≤◌, ◌<◌, ◌≡◌, refl, true, false, some, List, [], ◌∷◌, ◌++◌, arith, ◌||◌, length, ◌⊎◌,
}
use vinyl.Ranges.{Range, remove}
use vinyl.Ranges.Order.{within, covers, StartsAfter-le, StartsAfter, IsOrdered}
use vinyl.Ranges.Remove.{cut, carve, remove-carve}

covers-append : (xs ys : List Range) (x : ℕ) → covers (xs ++ ys) x ≡ (covers xs x || covers ys x)
covers-append [] ys x = refl
covers-append (r ∷ xs) ys x = ground (arith, covers-append xs ys x)

-- Outside the span, up to its ends, nothing is cut.
covers-cut_outside :
    (s e x : ℕ) (r : Range)
    → s ≤ e
    → (x < s) ⊎ (e < x)
    → r.0 ≤ r.1
    → covers (cut s e r) x ≡ within r.0 r.1 x
covers-cut_outside s e x r h k o = ground arith

covers-cut_inside : (s e x : ℕ) (r : Range) → s < x → x < e → covers (cut s e r) x ≡ false
covers-cut_inside s e x r h k = ground arith

covers-cut_le : (s e x : ℕ) (r : Range) → covers (cut s e r) x ≡ true → within r.0 r.1 x ≡ true
covers-cut_le s e x r h = ground arith

cut-StartsAfter :
    (n s e : ℕ) (r : Range) (rs : List Range)
    → n < r.0
    → StartsAfter n rs
    → StartsAfter n (cut s e r ++ rs)
cut-StartsAfter n s e r rs h a = ground arith

carve-StartsAfter :
    (n s e : ℕ) (rs : List Range) → StartsAfter n rs → IsOrdered rs → StartsAfter n (carve s e rs)
carve-StartsAfter n s e [] a o = tt
carve-StartsAfter n s e (r ∷ rs) a o =
    cut-StartsAfter n s e r (carve s e rs) a
      (carve-StartsAfter n s e rs (StartsAfter-le n r.1 rs (omega arith) o.1) o.2)

cut-IsOrdered :
    (s e : ℕ) (r : Range) (rs : List Range)
    → s ≤ e
    → r.0 ≤ r.1
    → StartsAfter r.1 rs
    → IsOrdered rs
    → IsOrdered (cut s e r ++ rs)
cut-IsOrdered s e r [] h k a o = ground arith
cut-IsOrdered s e r (q ∷ rs) h k a o = ground arith

carve-IsOrdered : (s e : ℕ) (rs : List Range) → s ≤ e → IsOrdered rs → IsOrdered (carve s e rs)
carve-IsOrdered s e [] h o = tt
carve-IsOrdered s e (r ∷ rs) h o =
    cut-IsOrdered s e r (carve s e rs) h o.0 (carve-StartsAfter r.1 s e rs o.1 o.2)
      (carve-IsOrdered s e rs h o.2)

module _ (s e x : ℕ) where
  carve_outside :
      (rs : List Range)
      → s ≤ e
      → (x < s) ⊎ (e < x)
      → IsOrdered rs
      → covers (carve s e rs) x ≡ covers rs x
  carve_outside [] h k o = refl
  carve_outside (r ∷ rs) h k o = rw (
    covers-append (cut s e r) (carve s e rs) x,
    covers-cut_outside s e x r h k o.0,
    carve_outside rs h k o.2,
  )

  carve_inside : (rs : List Range) → s < x → x < e → covers (carve s e rs) x ≡ false
  carve_inside [] h k = refl
  carve_inside (r ∷ rs) h k =
      rw (covers-append (cut s e r) (carve s e rs) x, covers-cut_inside s e x r h k)
        (carve_inside rs h k)

  carve_le : (rs : List Range) → covers (carve s e rs) x ≡ true → covers rs x ≡ true
  carve_le [] h = h
  carve_le (r ∷ rs) h =
      ground (arith, covers-append (cut s e r) (carve s e rs) x, covers-cut_le s e x r, carve_le rs)

-- For a span with its start not above its end, on sorted disjoint ranges, `remove` throws nothing
-- and keeps the ranges sorted and disjoint. The new list covers nothing strictly inside the span, the same values as before
-- outside of it, and nowhere a value that was not covered before.
pub remove-covers :
    (s e : ℕ) (rs : List Range)
    → s ≤ e
    → IsOrdered rs
    → length rs ≤ 2147483648
    → (rs' : List Range) × (remove s e rs ≡ some rs')
      × IsOrdered rs'
      × ((x : ℕ) → s < x → x < e → covers rs' x ≡ false)
      × ((x : ℕ) → (x < s) ⊎ (e < x) → covers rs' x ≡ covers rs x)
      × ((x : ℕ) → covers rs' x ≡ true → covers rs x ≡ true)
remove-covers s e rs h o b = (
  carve s e rs,
  remove-carve s e rs h o b,
  carve-IsOrdered s e rs h o,
  λ x. carve_inside s e x rs,
  λ x k. carve_outside s e x rs h k o,
  λ x. carve_le s e x rs,
)
